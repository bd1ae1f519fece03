-- ===== src/Toolkit/Frontmatter/Errors.antt =====
-- Reading metadata ends in one of two failures or in values: its assertion holds and its key is
-- there, whatever the text.
use orochi.Prelude.{
  true, false, ◌||◌, List, [], ◌∷◌, ◌++◌, ◌≡◌, ◌⊎◌, Option, none, some, refl, sym, subst, ◌∙◌, inl,
  inr, Bool-cases, Option-cases,
}
use orochi.Text.{Text, text, is_empty, starts_with, strip}
use orochi.Text.Split.{splitlines, cut}
use orochi.Text.Dict.{put, get?, get?-put_self}
use orochi.Text.Find.{strip_char}
use orochi.Toolkit.Checks.{ok, failed, no_frontmatter, unterminated_frontmatter}
use orochi.Toolkit.Frontmatter.{
  scalar_of, items, Meta, Reading, separator, split_parts, item_of, append_item, read_item,
  read_field, read_line, read_lines, no_values, starts_space, frontmatter,
}

-- The list that items go to is among the values, as a list.
abbrev pub IsReading : Reading → Type 0
IsReading st =
    (k : Text) → st.current ≡ some k → (l : List Text) × (get? k st.values ≡ some (items l))

no_values-IsReading : IsReading no_values
no_values-IsReading k h = cc

key_of : {k j : Text} → some k ≡ some j → k ≡ j
key_of h = cc

new_list :
    (key : Text) (d : Meta)
    → IsReading (record { values = put key (items []) d; current = some key })
new_list key d k h = (
  [],
  subst (λ j. get? j (put key (items []) d) ≡ some (items [])) (key_of h)
      (get?-put_self key (items []) d),
)

read_field-IsReading : (line : Text) (st : Reading) → IsReading (read_field line st)
unfolding read_field
read_field-IsReading line st = elim (Option-cases (cut (text ":") line)) [
  | inl e ↦ rw (read_field, e) (nothing st.values)
  | inr ((k, v), e) ↦
      let key = strip k in
      let value = strip_char b'"' (strip v) in
      elim (Bool-cases (is_empty line || starts_space line)) [
        | inl i ↦ rw (read_field, e, i) (nothing st.values)
        | inr n ↦ elim (Bool-cases (is_empty value)) [
          | inl i ↦ rw (read_field, e, n, i) (new_list key st.values)
          | inr n' ↦ rw (read_field, e, n, n') (nothing (put key (scalar_of value) st.values))
        ]
      ]
]
  where
    nothing : (d : Meta) → IsReading (record { values = d; current = none })
    nothing d k h = cc

-- An item of the list that is there.
append_item-IsReading :
    (key item : Text) (st : Reading)
    → IsReading st
    → st.current ≡ some key
    → (st' : Reading) × (append_item key item st (get? key st.values) ≡ ok st') × IsReading st'
append_item-IsReading key item st h c =
    let (l, e) = h key c in
    let st' : Reading = record st { values = put key (items (l ++ item ∷ [])) st.values } in
    (
      st',
      rw e refl,
      λ k i.
          let p : key ≡ k = key_of (sym c ∙ i) in
          (
            l ++ item ∷ [],
            subst (λ j. get? j st'.values ≡ some (items (l ++ item ∷ []))) p
                (get?-put_self key (items (l ++ item ∷ [])) st.values),
          ),
    )

read_item-IsReading :
    (line : Text) (st : Reading) (o : Option Text)
    → IsReading st
    → st.current ≡ o
    → (st' : Reading) × (read_item line st o ≡ ok st') × IsReading st'
read_item-IsReading line st none h e = (read_field line st, refl, read_field-IsReading line st)
read_item-IsReading line st (some key) h e = append_item-IsReading key (item_of line) st h e

-- One line is read, and the reading stays one.
read_line-IsReading :
    (line : Text) (st : Reading)
    → IsReading st
    → (st' : Reading) × (read_line line st ≡ ok st') × IsReading st'
unfolding read_line
read_line-IsReading line st h = elim (Bool-cases (starts_with line (text "  - "))) [
  | inr n ↦ rw n (read_field line st, refl, read_field-IsReading line st)
  | inl y ↦ rw y (read_item-IsReading line st st.current h refl)
]

read_lines-ok :
    (ls : List Text) (st : Reading) → IsReading st → (st' : Reading) × (read_lines ls st ≡ ok st')
unfolding read_lines
read_lines-ok [] st h = (st, refl)
read_lines-ok (l ∷ ls) st h =
    let (st₁, e, h₁) = read_line-IsReading l st h in
    let (st₂, e₂) = read_lines-ok ls st₁ h₁ in (st₂, rw e e₂)

-- A file without the line of hyphens at its start has no metadata, one without a second such line
-- has none that end, and from every other file `frontmatter` reads values: neither its assertion nor
-- its access to the values fails, whatever the text.
pub frontmatter_cases :
    (path t : Text)
    → ((starts_with t separator ≡ false) × (frontmatter path t ≡ failed (no_frontmatter path)))
      ⊎ ((starts_with t separator ≡ true)
          × (split_parts t ≡ none)
          × (frontmatter path t ≡ failed (unterminated_frontmatter path)))
      ⊎ ((starts_with t separator ≡ true)
          × (m : Meta) × (parts : Text × (Text × Text)) × (split_parts t ≡ some parts)
          × (frontmatter path t ≡ ok m))
unfolding frontmatter
frontmatter_cases path t = elim (Bool-cases (starts_with t separator)) [
  | inr n ↦ inl (n, rw n refl)
  | inl y ↦ inr (elim (Option-cases (split_parts t)) [
    | inl e ↦ inl (y, e, rw (y, e) refl)
    | inr ((a, (raw, b)), e) ↦
        let (st, k) = read_lines-ok (splitlines raw) no_values no_values-IsReading in
        inr (y, st.values, (a, (raw, b)), e, rw (y, e, k) refl)
  ])
]
