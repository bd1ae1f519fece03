-- ===== src/Text/Order.antt =====
-- Python's order of texts, by code points, and `sorted` of a set. A strictly ascending list is
-- determined by its members, so `sorted` does not depend on the order in which a set was built.
use orochi.Prelude.{
  Bool, true, false, List, [], ◌∷◌, ◌≡◌, ◌⊎◌, inl, inr, refl, sym, subst, ◌++◌, ◌∙◌, arith, ltb,
  ◌==◌, if◌then◌else◌, Bool-cases, All,
}
use orochi.Text.{Text, same, member, add, add_all}
use mathlib.Core.Path.{ap₂}
use orochi.Text.Equal.{same_iff, same_refl, same_comm, member-append, member-add}

-- `s < t`
unfoldable pub lt_text : Text → Text → Bool
lt_text [] [] = false
lt_text [] (y ∷ t) = true
lt_text (x ∷ s) [] = false
lt_text (x ∷ s) (y ∷ t) = if ltb x y then true else if x == y then lt_text s t else false

unfoldable pub insert : Text → List Text → List Text
unfolding lt_text
insert a [] = a ∷ []
insert a (x ∷ xs) = if lt_text a x then a ∷ x ∷ xs else x ∷ insert a xs

-- `sorted(xs)`
unfoldable pub sorted : List Text → List Text
unfolding insert
sorted [] = []
sorted (x ∷ xs) = insert x (sorted xs)

lt_irrefl : (s : Text) → lt_text s s ≡ false
unfolding lt_text
lt_irrefl [] = refl
lt_irrefl (x ∷ s) = ground (arith, lt_irrefl s)

lt_trans : (s t u : Text) → lt_text s t ≡ true → lt_text t u ≡ true → lt_text s u ≡ true
unfolding lt_text
lt_trans [] t (z ∷ u) h k = refl
lt_trans (x ∷ s) (y ∷ t) (z ∷ u) h k = ground (arith, lt_trans s t u)
lt_trans [] [] [] h k = h
lt_trans [] (y ∷ t) [] h k = k
lt_trans (x ∷ s) [] u h k = cc
lt_trans (x ∷ s) (y ∷ t) [] h k = k

lt_total : (s t : Text) → lt_text s t ≡ false → (s ≡ t) ⊎ (lt_text t s ≡ true)
unfolding lt_text
lt_total [] [] h = inl refl
lt_total [] (y ∷ t) h = cc
lt_total (x ∷ s) [] h = inr refl
lt_total (x ∷ s) (y ∷ t) h = ground (arith, lt_total s t)

abbrev pub Above : Text → List Text → Type 0
Above x ys = All (λ y. lt_text x y ≡ true) ys

-- Strictly ascending.
abbrev pub Ascends : List Text → Type 0
Ascends [] = Unit
Ascends (x ∷ xs) = Above x xs × Ascends xs

-- No text twice: how a set is kept.
abbrev pub Distinct : List Text → Type 0
Distinct [] = Unit
Distinct (x ∷ xs) = (member x xs ≡ false) × Distinct xs

Above-trans : (x y : Text) (ys : List Text) → lt_text x y ≡ true → Above y ys → Above x ys
Above-trans x y [] h k = tt
Above-trans x y (z ∷ ys) h k = (lt_trans x y z h k.0, Above-trans x y ys h k.1)

not-member_of_Above : (x : Text) (ys : List Text) → Above x ys → member x ys ≡ false
unfolding member
not-member_of_Above x [] h = refl
not-member_of_Above x (y ∷ ys) h = elim (Bool-cases (same x y)) [
  | inl e ↦ cc (lt_irrefl y, (same_iff x y).0 e, h.0)
  | inr n ↦ rw n (not-member_of_Above x ys h.1)
]

pub member-insert :
    (a b : Text) (xs : List Text)
    → member a (insert b xs) ≡ (if same a b then true else member a xs)
unfolding insert member
member-insert a b [] = ground arith
member-insert a b (x ∷ xs) = elim (Bool-cases (lt_text b x)) [
  | inl h ↦ rw h (ground arith)
  | inr h ↦ rw h (ground (arith, member-insert a b xs))
]

member-cons :
    (a b : Text) (xs : List Text) → member a (b ∷ xs) ≡ (if same a b then true else member a xs)
unfolding member
member-cons a b xs = ground arith

pub member-sorted : (a : Text) (xs : List Text) → member a (sorted xs) ≡ member a xs
unfolding sorted
member-sorted a [] = refl
member-sorted a (x ∷ xs) =
    ground (arith, member-insert a x (sorted xs), member-cons a x xs, member-sorted a xs)

Above-insert :
    (x a : Text) (xs : List Text) → lt_text x a ≡ true → Above x xs → Above x (insert a xs)
unfolding insert
Above-insert x a [] h k = (h, tt)
Above-insert x a (y ∷ ys) h k = elim (Bool-cases (lt_text a y)) [
  | inl e ↦ rw e (h, k)
  | inr e ↦ rw e (k.0, Above-insert x a ys h k.1)
]

not-member-tail : (a x : Text) (xs : List Text) → member a (x ∷ xs) ≡ false → member a xs ≡ false
unfolding member
not-member-tail a x xs n = ground arith

gt_of_not_lt :
    (a x : Text) (xs : List Text)
    → member a (x ∷ xs) ≡ false
    → lt_text a x ≡ false
    → lt_text x a ≡ true
unfolding member
gt_of_not_lt a x xs n e = elim (lt_total a x e) [
  | inl s ↦ ground (arith, (same_iff a x).1 s)
  | inr l ↦ l
]

Ascends-insert :
    (a : Text) (xs : List Text) → member a xs ≡ false → Ascends xs → Ascends (insert a xs)
unfolding insert member
Ascends-insert a [] n h = (tt, tt)
Ascends-insert a (x ∷ xs) n h = elim (Bool-cases (lt_text a x)) [
  | inl e ↦ rw e ((e, Above-trans a x xs e h.0), h)
  | inr e ↦ rw e (
    Above-insert x a xs (gt_of_not_lt a x xs n e) h.0,
    Ascends-insert a xs (not-member-tail a x xs n) h.1,
  )
]

pub Ascends-sorted : (xs : List Text) → Distinct xs → Ascends (sorted xs)
unfolding sorted
Ascends-sorted [] h = tt
Ascends-sorted (x ∷ xs) h =
    Ascends-insert x (sorted xs) (member-sorted x xs ∙ h.0) (Ascends-sorted xs h.1)

member_self : (x : Text) (xs : List Text) → member x (x ∷ xs) ≡ true
unfolding member
member_self x xs = rw (same_refl x)

-- The least member of one list is no member of a list that starts above it.
heads_agree :
    (x y : Text) (xs ys : List Text)
    → Ascends (y ∷ ys)
    → member x (x ∷ xs) ≡ member x (y ∷ ys)
    → lt_text x y ≡ true
    → ⊥
heads_agree x y xs ys k m h =
    cc (member_self x xs, not-member_of_Above x (y ∷ ys) (h, Above-trans x y ys h k.0), m)

-- Behind equal heads the members agree again.
tails_agree :
    (x : Text) (xs ys : List Text)
    → Above x xs
    → Above x ys
    → ((a : Text) → member a (x ∷ xs) ≡ member a (x ∷ ys))
    → (a : Text) → member a xs ≡ member a ys
tails_agree x xs ys h k m a = elim (Bool-cases (same a x)) [
  | inl e ↦ cc ((same_iff a x).0 e, not-member_of_Above x xs h, not-member_of_Above x ys k)
  | inr n ↦ ground (arith, m a, member-cons a x xs, member-cons a x ys)
]

-- Two strictly ascending lists with the same members are equal.
pub Ascends-unique :
    (xs ys : List Text)
    → Ascends xs
    → Ascends ys
    → ((a : Text) → member a xs ≡ member a ys)
    → xs ≡ ys
unfolding member
Ascends-unique [] [] h k m = refl
Ascends-unique [] (y ∷ ys) h k m = cc (member_self y ys, m y)
Ascends-unique (x ∷ xs) [] h k m = cc (member_self x xs, m x)
Ascends-unique (x ∷ xs) (y ∷ ys) h k m = elim (Bool-cases (lt_text x y)) [
  | inl l ↦ absurd (heads_agree x y xs ys k (m x) l)
  | inr n ↦ elim (lt_total x y n) [
    | inr g ↦ absurd (heads_agree y x ys xs h (sym (m y)) g)
    | inl e ↦
        let h' : Above y xs = subst (λ z. Above z xs) e h.0 in
        let m' : (a : Text) → member a (y ∷ xs) ≡ member a (y ∷ ys) =
          subst (λ z. (a : Text) → member a (z ∷ xs) ≡ member a (y ∷ ys)) e m in
        ap₂ ◌∷◌ e (Ascends-unique xs ys h.1 k.1 (tails_agree y xs ys h' k.0 m'))
  ]
]

-- A set built by additions holds no text twice.
pub Distinct-append :
    (a : Text) (xs : List Text) → member a xs ≡ false → Distinct xs → Distinct (xs ++ a ∷ [])
unfolding member
Distinct-append a [] n h = (refl, tt)
Distinct-append a (x ∷ xs) n h = (
  member-append x xs (a ∷ []) ∙ ground (arith, same_comm x a, h.0),
  Distinct-append a xs (not-member-tail a x xs n) h.1,
)

pub Distinct-add : (a : Text) (xs : List Text) → Distinct xs → Distinct (add a xs)
unfolding add
Distinct-add a xs h = elim (Bool-cases (member a xs)) [
  | inl e ↦ rw e h
  | inr n ↦ rw n (Distinct-append a xs n h)
]

pub Distinct-add_all : (as_ xs : List Text) → Distinct xs → Distinct (add_all as_ xs)
unfolding add_all
Distinct-add_all [] xs h = h
Distinct-add_all (a ∷ as_) xs h = Distinct-add_all as_ (add a xs) (Distinct-add a xs h)

pub member-add_all :
    (a : Text) (as_ xs : List Text)
    → member a (add_all as_ xs) ≡ (if member a as_ then true else member a xs)
unfolding add_all
member-add_all a [] xs = unfold member in refl
member-add_all a (b ∷ as_) xs =
    ground (arith, member-add_all a as_ (add b xs), member-add a b xs, member-cons a b as_)
