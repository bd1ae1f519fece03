-- ===== src/Text/Dict.antt =====
-- Python's dictionaries with texts for keys, kept as lists of their entries.
use orochi.Prelude.{Option, none, some, List, [], ◌∷◌, ◌≡◌, refl, arith, if◌then◌else◌}
use orochi.Text.{Text, same}
use orochi.Text.Equal.{same_iff, same_refl}

module _ {ℓ} {V : Type ℓ} where
  -- `d[k] = v`
  unfoldable pub put : Text → V → List (Text × V) → List (Text × V)
  put k v [] = (k, v) ∷ []
  put k v ((j, w) ∷ d) = if same j k then (k, v) ∷ d else (j, w) ∷ put k v d

  -- `d.get(k)`
  unfoldable pub get? : Text → List (Text × V) → Option V
  get? k [] = none
  get? k ((j, v) ∷ d) = if same j k then some v else get? k d

  -- A key that is set has the value, and the other keys keep theirs.
  pub get?-put :
      (k j : Text) (v : V) (d : List (Text × V))
      → get? j (put k v d) ≡ (if same k j then some v else get? j d)
  unfolding get? put
  get?-put k j v [] = refl
  get?-put k j v ((i, w) ∷ d) =
      ground (arith, same_iff k j, same_iff i k, same_iff i j, get?-put k j v d)

  pub get?-put_self : (k : Text) (v : V) (d : List (Text × V)) → get? k (put k v d) ≡ some v
  get?-put_self k v d = rw (get?-put k k v d, same_refl k) refl
