-- ===== src/Gates/Select.antt =====
-- What `select` returns depends on the set of the paths alone, and whatever is critical is a gate.
use mathlib.Core.Bool.{or-false, false≢true}
use orochi.Prelude.{
  or-eq-true, Bool, true, false, ◌||◌, ◌&&◌, List, [], ◌∷◌, ◌≡◌, refl, sym, ◌∙◌, inl, inr, arith,
  Bool-cases, All,
}
use orochi.Text.{Text, same, member, add_all}
use orochi.Text.Equal.{same_iff, same_refl}
use orochi.Text.Order.{
  Distinct, Distinct-add_all, member-add_all, member-sorted, Ascends, Ascends-sorted,
  Ascends-unique,
}
use orochi.Gates.{Selection, Rule, rules, apply_rule, apply_rules, select_from, select}

abbrev pub Included : List Text → List Text → Type 0
Included xs ys = (a : Text) → member a xs ≡ true → member a ys ≡ true

-- A rule makes critical only what it also adds to the gates.
abbrev IsSafeRule : Rule → Type 0
IsSafeRule r = Included r.needs r.wants

Included-refl : (xs : List Text) → Included xs xs
Included-refl xs a h = h

Included-of_nil : (xs : List Text) → Included [] xs
unfolding member
Included-of_nil xs a h = cc

rules-IsSafeRule : (p : Text) → All IsSafeRule (rules p)
unfolding rules
rules-IsSafeRule p = search (Included-refl, Included-of_nil) depth 30

-- Some rule whose test holds wants the gate.
pub wanted_by : Text → List Rule → Bool
wanted_by a [] = false
wanted_by a (r ∷ rs) = r.test && member a r.wants || wanted_by a rs

-- Some path of the list wants the gate.
pub wanted : Text → List Text → Bool
wanted a [] = false
wanted a (p ∷ ps) = wanted_by a (rules p) || wanted a ps

module _ (a : Text) where
  member-apply_rules :
      (rs : List Rule) (s : Selection)
      → member a (apply_rules rs s).gates ≡ (wanted_by a rs || member a s.gates)
  unfolding apply_rules apply_rule wanted_by
  member-apply_rules [] s = refl
  member-apply_rules (r ∷ rs) s =
      ground (arith, member-apply_rules rs (apply_rule r s), member-add_all a r.wants s.gates)

  member-select_from :
      (s : Selection) (ps : List Text)
      → member a (select_from s ps).gates ≡ (wanted a ps || member a s.gates)
  unfolding select_from wanted
  member-select_from s [] = refl
  member-select_from s (p ∷ ps) =
      ground
        (arith, member-select_from (apply_rules (rules p) s) ps, member-apply_rules (rules p) s)

  -- A gate is selected exactly if some path asks for it.
  pub member-select : (ps : List Text) → member a (select ps).gates ≡ wanted a ps
  unfolding select
  member-select ps =
      let start : Selection = record { gates = []; critical = [] } in
      member-sorted a (select_from start ps).gates
      ∙ member-select_from start ps
      ∙ unfold member in or-false (wanted a ps)

  wanted_from :
      (p : Text) (ps : List Text)
      → member p ps ≡ true
      → wanted_by a (rules p) ≡ true
      → wanted a ps ≡ true
  unfolding wanted member
  wanted_from p [] m h = cc
  wanted_from p (q ∷ qs) m h = elim (Bool-cases (same p q)) [
    | inl e ↦ ground (arith, (same_iff p q).0 e)
    | inr n ↦ ground (arith, wanted_from p qs)
  ]

  wanted_witness :
      (ps : List Text)
      → wanted a ps ≡ true
      → (p : Text) × (member p ps ≡ true) × (wanted_by a (rules p) ≡ true)
  unfolding wanted member
  wanted_witness [] h = absurd (false≢true h)
  wanted_witness (p ∷ ps) h = elim (or-eq-true (wanted_by a (rules p)) (wanted a ps) h) [
    | inl e ↦ (p, rw (same_refl p), e)
    | inr e ↦ let (q, m, w) = wanted_witness ps e in (q, ground arith, w)
  ]

  wanted_mono :
      (ps qs : List Text)
      → ((p : Text) → member p ps ≡ member p qs)
      → wanted a ps ≡ true
      → wanted a qs ≡ true
  wanted_mono ps qs same_paths h =
      let (p, m, w) = wanted_witness ps h in wanted_from p qs (sym (same_paths p) ∙ m) w

  wanted_cong :
      (ps qs : List Text) → ((p : Text) → member p ps ≡ member p qs) → wanted a ps ≡ wanted a qs
  wanted_cong ps qs h = ground (arith, wanted_mono ps qs h, wanted_mono qs ps (λ p. sym (h p)))

Distinct-apply_rules :
    (rs : List Rule) (s : Selection) → Distinct s.gates → Distinct (apply_rules rs s).gates
unfolding apply_rules apply_rule
Distinct-apply_rules [] s h = h
Distinct-apply_rules (r ∷ rs) s h = elim (Bool-cases r.test) [
  | inl e ↦ rw e (Distinct-apply_rules rs _ (Distinct-add_all r.wants s.gates h))
  | inr e ↦ rw e (Distinct-apply_rules rs s h)
]

Distinct-select_from :
    (ps : List Text) (s : Selection) → Distinct s.gates → Distinct (select_from s ps).gates
unfolding select_from
Distinct-select_from [] s h = h
Distinct-select_from (p ∷ ps) s h =
    Distinct-select_from ps (apply_rules (rules p) s) (Distinct-apply_rules (rules p) s h)

pub Ascends-select : (ps : List Text) → Ascends (select ps).gates
unfolding select
Ascends-select ps = Ascends-sorted _ (Distinct-select_from ps _ tt)

-- Two lists with the same paths, in any order and with any repetitions, select the same gates in
-- the same order.
pub gates-select_cong :
    (ps qs : List Text)
    → ((p : Text) → member p ps ≡ member p qs)
    → (select ps).gates ≡ (select qs).gates
gates-select_cong ps qs h =
    Ascends-unique (select ps).gates (select qs).gates (Ascends-select ps) (Ascends-select qs)
      λ a. member-select a ps ∙ wanted_cong a ps qs h ∙ sym (member-select a qs)

Included-add_all :
    (as_ bs xs ys : List Text)
    → Included as_ bs
    → Included xs ys
    → Included (add_all as_ xs) (add_all bs ys)
Included-add_all as_ bs xs ys h k a m =
    ground (arith, member-add_all a as_ xs, member-add_all a bs ys, h a, k a)

Included-apply_rules :
    (rs : List Rule) (s : Selection)
    → All IsSafeRule rs
    → Included s.critical s.gates
    → Included (apply_rules rs s).critical (apply_rules rs s).gates
unfolding apply_rules apply_rule
Included-apply_rules [] s safe h = h
Included-apply_rules (r ∷ rs) s safe h = elim (Bool-cases r.test) [
  | inl e ↦ rw e (
      Included-apply_rules rs _ safe.1
        (Included-add_all r.needs r.wants s.critical s.gates safe.0 h))
  | inr e ↦ rw e (Included-apply_rules rs s safe.1 h)
]

Included-select_from :
    (ps : List Text) (s : Selection)
    → Included s.critical s.gates
    → Included (select_from s ps).critical (select_from s ps).gates
unfolding select_from
Included-select_from [] s h = h
Included-select_from (p ∷ ps) s h =
    Included-select_from ps (apply_rules (rules p) s)
      (Included-apply_rules (rules p) s (rules-IsSafeRule p) h)

-- Every critical gate is a selected gate, whatever the paths.
pub critical-le-gates :
    (ps : List Text) (gate : Text)
    → member gate (select ps).critical ≡ true
    → member gate (select ps).gates ≡ true
unfolding select
critical-le-gates ps a m = member-sorted a _ ∙ Included-select_from ps _ (Included-of_nil []) a m
