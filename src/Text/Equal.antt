-- ===== src/Text/Equal.antt =====
-- The tests on texts decide what they say.
use orochi.Prelude.{
  true, List, [], ◌∷◌, ◌++◌, ◌≡◌, ◌↔◌, inl, inr, refl, arith, if◌then◌else◌, Bool-cases,
}
use orochi.Text.{Text, same, starts_with, member, add}

pub same_iff : (s t : Text) → (same s t ≡ true) ↔ (s ≡ t)
unfolding same
same_iff (x ∷ s) (y ∷ t) = ground (arith, same_iff s t)
same_iff _ _ = ground arith

pub same_refl : (s : Text) → same s s ≡ true
same_refl s = (same_iff s s).1 refl

pub same_comm : (s t : Text) → same s t ≡ same t s
same_comm s t = ground (arith, same_iff s t, same_iff t s)

pub starts_with-append : (p s : Text) → starts_with (p ++ s) p ≡ true
unfolding starts_with
starts_with-append [] s = refl
starts_with-append (c ∷ p) s = ground (arith, starts_with-append p s)

pub member-append :
    (a : Text) (xs ys : List Text)
    → member a (xs ++ ys) ≡ (if member a xs then true else member a ys)
unfolding member
member-append a [] ys = refl
member-append a (x ∷ xs) ys = ground (arith, member-append a xs ys)

pub member-add :
    (a b : Text) (xs : List Text) → member a (add b xs) ≡ (if same a b then true else member a xs)
unfolding add
member-add a b xs = elim (Bool-cases (member b xs)) [
  | inl old ↦ elim (Bool-cases (same a b)) [
    | inl e ↦ rw (old, e, (same_iff a b).0 e) old
    | inr n ↦ rw (old, n)
  ]
  | inr new ↦ rw new (rw member-append (unfold member in ground arith))
]
