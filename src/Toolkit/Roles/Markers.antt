-- ===== src/Toolkit/Roles/Markers.antt =====
-- The role that a text declares, by its lines.
use orochi.Prelude.{
  Bool, true, false, List, [], ◌∷◌, ◌++◌, ◌≡◌, ◌↔◌, refl, sym, ap, subst, ◌∙◌, inl, inr, arith,
  Bool-cases, All, Has, here, there, append_assoc, append-nil,
}
use orochi.Text.{Text, text, same, starts_with, member, add, strip, lower}
use orochi.Text.Split.{splitlines}
use orochi.Text.Equal.{same_iff, same_refl}
use orochi.Text.Find.{without}
use orochi.Toolkit.Roles.{owner, markers_in, role_of, server_zig_role}

-- A line as it is compared, and whether it is a marker.
abbrev pub marker_of : Text → Text
marker_of l = lower (strip l)

abbrev pub is_marker : Text → Bool
is_marker l = starts_with (marker_of l) (text "server_zig_role:")

abbrev pub owner_marker : Text
owner_marker = text "server_zig_role: owner"

abbrev pub the_lines : Text → List Text
the_lines t = splitlines (without b'`' t)

-- Every marker is this one.
abbrev pub AllMarkers : Text → List Text → Type 0
AllMarkers m ls = All (λ l. is_marker l ≡ true → marker_of l ≡ m) ls

add_grows : (a : Text) (xs : List Text) → (more : List Text) × (add a xs ≡ xs ++ more)
unfolding add
add_grows a xs = elim (Bool-cases (member a xs)) [
  | inl e ↦ ([], rw e (sym (append-nil xs)))
  | inr n ↦ (a ∷ [], rw n refl)
]

markers_in_grows :
    (found ls : List Text) → (more : List Text) × (markers_in found ls ≡ found ++ more)
unfolding markers_in
markers_in_grows found [] = ([], sym (append-nil found))
markers_in_grows found (l ∷ ls) = elim (Bool-cases (is_marker l)) [
  | inr n ↦ let (more, e) = markers_in_grows found ls in (more, rw n e)
  | inl y ↦
      let (a, f) = add_grows (marker_of l) found in
      let (b, e) = markers_in_grows (add (marker_of l) found) ls in
      (a ++ b, rw y (e ∙ (ap (λ xs. xs ++ b) f ∙ append_assoc found a b)))
]

add_same : (m : Text) → add m (m ∷ []) ≡ m ∷ []
unfolding add member
add_same m = rw (same_refl m)

add_other : (a m : Text) → same a m ≡ false → add a (m ∷ []) ≡ m ∷ a ∷ []
unfolding add member
add_other a m n = rw n

-- Behind one marker, the markers stay one exactly if the others are the same.
one_stays :
    (m : Text) (ls : List Text) {k : Text}
    → markers_in (m ∷ []) ls ≡ k ∷ []
    → (k ≡ m) × AllMarkers m ls
unfolding markers_in
one_stays m [] h = (cc, tt)
one_stays m (l ∷ ls) {k} h = elim (Bool-cases (is_marker l)) [
  | inr n ↦ let (e, r) = one_stays m ls (rw n at h) in (e, (λ y. absurd (ground arith), r))
  | inl y ↦ elim (Bool-cases (same (marker_of l) m)) [
    | inl s ↦
        let p = (same_iff (marker_of l) m).0 s in
        let h' : markers_in (add (marker_of l) (m ∷ [])) ls ≡ k ∷ [] = rw y at h in
        let (e, r) =
          one_stays m ls (
            subst (λ xs. markers_in xs ls ≡ k ∷ []) (ap (λ a. add a (m ∷ [])) p ∙ add_same m) h') in
        (e, (λ q. p, r))
    | inr n ↦
        let h' : markers_in (add (marker_of l) (m ∷ [])) ls ≡ k ∷ [] = rw y at h in
        let (more, e) = markers_in_grows (m ∷ marker_of l ∷ []) ls in
        cc (subst (λ xs. markers_in xs ls ≡ k ∷ []) (add_other (marker_of l) m n) h', e)
  ]
]

stays_one : (m : Text) (ls : List Text) → AllMarkers m ls → markers_in (m ∷ []) ls ≡ m ∷ []
unfolding markers_in
stays_one m [] h = refl
stays_one m (l ∷ ls) h = elim (Bool-cases (is_marker l)) [
  | inr n ↦ rw n (stays_one m ls h.1)
  | inl y ↦ rw y (
      subst (λ xs. markers_in xs ls ≡ m ∷ []) (sym (ap (λ a. add a (m ∷ [])) (h.0 y) ∙ add_same m))
        (stays_one m ls h.1))
]

add_first : (a : Text) → add a [] ≡ a ∷ []
unfolding add member
add_first a = refl

-- Some line is a marker.
abbrev pub SomeMarker : List Text → Type 0
SomeMarker ls = (l : Text) × Has l ls × (is_marker l ≡ true)

from_none :
    (m : Text) (ls : List Text) → markers_in [] ls ≡ m ∷ [] → SomeMarker ls × AllMarkers m ls
unfolding markers_in
from_none m [] h = cc
from_none m (l ∷ ls) h = elim (Bool-cases (is_marker l)) [
  | inr n ↦
      let ((k, has, y), r) = from_none m ls (rw n at h) in
      ((k, there has, y), (λ q. absurd (ground arith), r))
  | inl y ↦
      let h' : markers_in (add (marker_of l) []) ls ≡ m ∷ [] = rw y at h in
      let (e, r) =
        one_stays (marker_of l) ls
          (subst (λ xs. markers_in xs ls ≡ m ∷ []) (add_first (marker_of l)) h') in
      ((l, here, y), (λ q. sym e, subst (λ a. AllMarkers a ls) (sym e) r))
]

to_one : (m : Text) (ls : List Text) → SomeMarker ls → AllMarkers m ls → markers_in [] ls ≡ m ∷ []
unfolding markers_in
to_one m [] (l, has, y) r = elim has [ ]
to_one m (l ∷ ls) (k, has, y) r = elim (Bool-cases (is_marker l)) [
  | inl q ↦ rw q (
      subst (λ xs. markers_in xs ls ≡ m ∷ [])
        (sym (add_first (marker_of l) ∙ ap (λ a. a ∷ []) (r.0 q))) (stays_one m ls r.1))
  | inr n ↦ rw n (to_one m ls (behind k l ls has y n) r.1)
]
  where
    behind :
        (k l : Text) (ls : List Text)
        → Has k (l ∷ ls)
        → is_marker k ≡ true
        → is_marker l ≡ false
        → SomeMarker ls
    behind k l ls here y n = absurd (ground arith)
    behind k l ls (there has) y n = (k, has, y)

role_of-owner : (ms : List Text) → role_of ms ≡ owner → ms ≡ owner_marker ∷ []
role_of-owner [] h = cc
role_of-owner (m ∷ n ∷ r) h = cc
role_of-owner (m ∷ []) h = elim (Bool-cases (same m owner_marker)) [
  | inl y ↦ ap (λ a. a ∷ []) ((same_iff m owner_marker).0 y)
  | inr n ↦ elim (Bool-cases (same m (text "server_zig_role: excluded"))) [
    | inl y ↦ cc (h, n, y)
    | inr k ↦ cc (h, n, k)
  ]
]

owner_alone : role_of (owner_marker ∷ []) ≡ owner
unfolding same
owner_alone = refl

-- `server_zig_role` says "owner" exactly of a text, read without backticks, in which some line is a
-- marker and every marker, stripped and in lower case, is "server_zig_role: owner".
pub server_zig_role-iff-AllMarkers :
    (t : Text)
    → (server_zig_role t ≡ owner)
      ↔ (SomeMarker (the_lines t) × AllMarkers owner_marker (the_lines t))
unfolding server_zig_role
server_zig_role-iff-AllMarkers t = (
  λ h. from_none owner_marker (the_lines t) (role_of-owner (markers_in [] (the_lines t)) h),
  λ h. ap role_of (to_one owner_marker (the_lines t) h.0 h.1) ∙ owner_alone,
)
