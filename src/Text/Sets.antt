-- ===== src/Text/Sets.antt =====
-- What the tests on sets of texts say, and the lengths of equal sets.
use orochi.Prelude.{
  suc, true, false, List, [], ◌∷◌, ◌++◌, ◌≡◌, refl, sym, ap, subst, ◌∙◌, arith, Bool-cases, inl,
  inr, length, append-nil, append_assoc, Has, here, there,
}
use orochi.Text.{Text, same, member, add}
use orochi.Text.Equal.{same_iff, same_refl}
use orochi.Text.Find.{subset, set_equal}
use orochi.Text.Order.{
  insert, sorted, lt_text, Distinct, Distinct-append, member-sorted, Ascends-sorted, Ascends-unique,
}

pub member-Has : (a : Text) (xs : List Text) → member a xs ≡ true → Has a xs
unfolding member
member-Has a [] h = cc
member-Has a (x ∷ xs) h = elim (Bool-cases (same a x)) [
  | inl e ↦ subst (λ y. Has a (y ∷ xs)) ((same_iff a x).0 e) here
  | inr n ↦ there (member-Has a xs (ground arith))
]

pub Has-member : (a : Text) (xs : List Text) → Has a xs → member a xs ≡ true
unfolding member
Has-member a [] m = elim m [ ]
Has-member a (x ∷ xs) here = rw (same_refl a)
Has-member a (x ∷ xs) (there m) = ground (arith, Has-member a xs m)

pub subset-member :
    (xs ys : List Text) → subset xs ys ≡ true → (a : Text) → member a xs ≡ true → member a ys ≡ true
unfolding subset member
subset-member [] ys h a m = cc
subset-member (x ∷ xs) ys h a m = elim (Bool-cases (same a x)) [
  | inl e ↦ subst (λ y. member y ys ≡ true) (sym ((same_iff a x).0 e)) (ground arith)
  | inr n ↦ subset-member xs ys (ground arith) a (ground arith)
]

-- Equal sets have the same members.
pub set_equal-member :
    (xs ys : List Text) → set_equal xs ys ≡ true → (a : Text) → member a xs ≡ member a ys
unfolding set_equal
set_equal-member xs ys h a =
    let there_ : subset xs ys ≡ true = ground arith in
    let back : subset ys xs ≡ true = ground arith in
    ground (arith, subset-member xs ys there_ a, subset-member ys xs back a)

length-insert : (a : Text) (xs : List Text) → length (insert a xs) ≡ suc (length xs)
unfolding insert
length-insert a [] = refl
length-insert a (x ∷ xs) = elim (Bool-cases (lt_text a x)) [
  | inl e ↦ rw e
  | inr n ↦ rw n (ap suc (length-insert a xs))
]

length-sorted : (xs : List Text) → length (sorted xs) ≡ length xs
unfolding sorted
length-sorted [] = refl
length-sorted (x ∷ xs) = length-insert x (sorted xs) ∙ ap suc (length-sorted xs)

-- Equal sets that are kept without repetitions are equally long.
pub set_equal-length :
    (xs ys : List Text) → set_equal xs ys ≡ true → Distinct xs → Distinct ys → length xs ≡ length ys
set_equal-length xs ys h dx dy =
    let e =
      Ascends-unique (sorted xs) (sorted ys) (Ascends-sorted xs dx) (Ascends-sorted ys dy)
        (λ a. member-sorted a xs ∙ (set_equal-member xs ys h a ∙ sym (member-sorted a ys))) in
    sym (length-sorted xs) ∙ (ap length e ∙ length-sorted ys)

-- The texts are new to a set one after another, and give the second set.
pub data Grows : List Text → List Text → List Text → Type 0 where
  done : {names : List Text} → Grows [] names names
  grow :
      {a : Text} {as_ names names' : List Text}
      → member a names ≡ false
      → Grows as_ (add a names) names'
      → Grows (a ∷ as_) names names'

add_fresh : (a : Text) (names : List Text) → member a names ≡ false → add a names ≡ names ++ a ∷ []
unfolding add
add_fresh a names h = rw h

Grows-append :
    (as_ : List Text) {names names' : List Text} → Grows as_ names names' → names' ≡ names ++ as_
Grows-append [] {names} done = sym (append-nil names)
Grows-append (a ∷ as_) {names} (grow fresh r) =
    Grows-append as_ r
    ∙ (ap (λ n. n ++ as_) (add_fresh a names fresh) ∙ append_assoc names (a ∷ []) as_)

Grows-Distinct_onto :
    (as_ : List Text) {names names' : List Text}
    → Grows as_ names names'
    → Distinct names
    → Distinct names'
Grows-Distinct_onto [] done h = h
Grows-Distinct_onto (a ∷ as_) {names} (grow fresh r) h =
    Grows-Distinct_onto as_ r
      (subst Distinct (sym (add_fresh a names fresh)) (Distinct-append a names fresh h))

-- A set grown from nothing is the texts themselves, which are distinct.
pub Grows-eq : {as_ names : List Text} → Grows as_ [] names → names ≡ as_
Grows-eq {as_} g = Grows-append as_ g

pub Grows-Distinct : {as_ names : List Text} → Grows as_ [] names → Distinct as_
Grows-Distinct {as_} g = subst Distinct (Grows-eq g) (Grows-Distinct_onto as_ g tt)
