-- ===== src/Gates/Commands.antt =====
-- The commands that `main` prints for the selected gates.
use orochi.Prelude.{
  Bool, true, false, List, [], ◌∷◌, ◌++◌, map, ◌≡◌, ◌⊎◌, subst, sym, ap, ◌∙◌, inl, inr, arith,
  if◌then◌else◌, Bool-cases, append_assoc,
}
use orochi.Text.{Text, text, same, member}
use orochi.Text.Equal.{same_iff, same_refl, member-append}
use orochi.Gates.{
  select, safe_lines, commands, build_line, release_safe_line, release_lines, or_changed,
}
use orochi.Gates.Select.{critical-le-gates}

-- The list is two parts with the line between them.
pub record SplitAt (line : Text) (lines : List Text) : Type 0 where
  pub before : List Text
  pub behind : List Text
  pub splits : lines ≡ before ++ (line ∷ behind)

SplitAt-cons :
    {line : Text} {lines : List Text} (l : Text) → SplitAt line lines → SplitAt line (l ∷ lines)
SplitAt-cons l s = record { before = l ∷ s.before; behind = s.behind; splits = ap (◌∷◌ l) s.splits }

safe_lines-SplitAt :
    (g : Text) (critical gs : List Text)
    → member g critical ≡ true
    → member g gs ≡ true
    → SplitAt (release_safe_line g) (safe_lines critical gs)
unfolding safe_lines member
safe_lines-SplitAt g critical [] c m = cc
safe_lines-SplitAt g critical (x ∷ gs) c m = elim (Bool-cases (same g x)) [
  | inl e ↦
      let here : member x critical ≡ true =
        subst (λ y. member y critical ≡ true) ((same_iff g x).0 e) c in
      let e' : release_safe_line x ≡ release_safe_line g =
        ap release_safe_line (sym ((same_iff g x).0 e)) in
      rw here (record {
        before = [];
        behind = safe_lines critical gs;
        splits = ap (λ l. l ∷ safe_lines critical gs) e';
      })
  | inr n ↦
      later (safe_lines-SplitAt g critical gs c (ground arith)) (Bool-cases (member x critical))
]
  where
    later :
        SplitAt (release_safe_line g) (safe_lines critical gs)
        → (member x critical ≡ true) ⊎ (member x critical ≡ false)
        → SplitAt (release_safe_line g) (
            if member x critical
            then release_safe_line x ∷ safe_lines critical gs
            else safe_lines critical gs)
    later s (inl e) = rw e (SplitAt-cons (release_safe_line x) s)
    later s (inr e) = rw e s

member-map :
    (f : Text → Text) (g : Text) (gs : List Text)
    → member g gs ≡ true
    → member (f g) (map f gs) ≡ true
unfolding member
member-map f g [] m = cc
member-map f g (x ∷ gs) m = elim (Bool-cases (same g x)) [
  | inl e ↦ rw (ap f ((same_iff g x).0 e)) (rw (same_refl (f x)))
  | inr n ↦ ground (arith, member-map f g gs)
]

behind_first :
    (g : Text) (xs ys : List Text)
    → member g xs ≡ true
    → member g (text "zig build check" ∷ (xs ++ ys)) ≡ true
unfolding member
behind_first g xs ys m = elim (Bool-cases (same g (text "zig build check"))) [
  | inl e ↦ rw e
  | inr n ↦ rw n (member-append g xs ys ∙ ground arith)
]

-- A critical gate has its ReleaseSafe command among the printed ones, and the command that builds
-- it without that option stands before it.
pub commands-critical :
    (release : Bool) (given changed : List Text) (gate : Text)
    → member gate (select (or_changed given changed)).critical ≡ true
    → (before behind : List Text) × (commands release given changed
        ≡ before ++ (release_safe_line gate ∷ behind))
      × (member (build_line gate) before ≡ true)
unfolding commands
commands-critical release given changed gate c =
    let s = select (or_changed given changed) in
    let m = critical-le-gates (or_changed given changed) gate c in
    let plain = map build_line s.gates in
    let cut = safe_lines-SplitAt gate s.critical s.gates c m in
    (
      text "zig build check" ∷ (plain ++ cut.before),
      cut.behind ++ (text "git diff --check" ∷ (if release then release_lines else [])),
      rw cut.splits (simp append_assoc),
      behind_first (build_line gate) plain cut.before (member-map build_line gate s.gates m),
    )
