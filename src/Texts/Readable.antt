-- ===== src/Texts/Readable.antt =====
-- Where `parse_query` of src/utils/mod.rs panics: what it needs of a query text to return.
use chimes_utils.Base.{
  ◌≡◌, ◌≢◌, ◌↔◌, refl, subst, inl, inr, false, Option, none, some, List, [], ◌∷◌, ◌==◌, All,
  if◌then◌else◌, Bool-cases, Option-cases, arith,
}
use chimes_utils.Base.Text.{Text}
use chimes_utils.Base.Dict
use chimes_utils.Base.Dict.{Dict}
use chimes_utils.Str.{split, onto_first, is_empty}
use chimes_utils.Texts.{key_value, insert_pairs, parse_query}

-- The text up to the first `=`, or all of it.
abbrev pub until_equals : Text → Text
until_equals [] = []
until_equals (c ∷ s) = if c == b'=' then [] else c ∷ until_equals s

-- What a piece holds for a value: the text between its first `=` and the second one, or the end.
abbrev pub value_text : Text → Option Text
value_text [] = none
value_text (c ∷ s) = if c == b'=' then some (until_equals s) else value_text s

-- The first part of a split text.
split-until_equals : (s : Text) → (rest : List Text) × (split s b'=' ≡ until_equals s ∷ rest)
unfolding split onto_first
split-until_equals [] = ([], refl)
split-until_equals (c ∷ s) = elim (Bool-cases (c == b'=')) [
  | inl e ↦ (split s b'=', rw e refl)
  | inr e ↦ let (rest, h) = split-until_equals s in (rest, rw (e, h) refl)
]

module _ (decode : Text → Option Text) where
  -- There is a value, and it decodes.
  abbrev pub IsReadable : Option Text → Type 0
  IsReadable none = ⊥
  IsReadable (some v) = decode v ≢ none

  key_value-value :
      (k v : Text) (rest : List Text) → (key_value decode (k ∷ v ∷ rest) ≢ none) ↔ (decode v ≢ none)
  unfolding key_value
  key_value-value k v rest = ground arith

  -- The key does not matter.
  key_value-key :
      (k j : Text) (rest : List Text)
      → (key_value decode (k ∷ rest) ≢ none) ↔ (key_value decode (j ∷ rest) ≢ none)
  unfolding key_value
  key_value-key k j [] = ground arith
  key_value-key k j (v ∷ rest) = ground arith

  key_value-IsReadable :
      (s : Text) → (key_value decode (split s b'=') ≢ none) ↔ IsReadable (value_text s)
  unfolding split onto_first
  key_value-IsReadable [] = unfold key_value in ((λ h. h refl), (λ b. absurd b))
  key_value-IsReadable (c ∷ s) =
      let (rest, h) = split-until_equals s in
      elim (Bool-cases (c == b'=')) [
        | inl e ↦ rw (e, h) (key_value-value [] (until_equals s) rest)
        | inr e ↦
            let ih : (key_value decode (until_equals s ∷ rest) ≢ none) ↔ IsReadable (value_text s) =
              subst (λ l. (key_value decode l ≢ none) ↔ IsReadable (value_text s)) h
                (key_value-IsReadable s) in
            let key = key_value-key (c ∷ until_equals s) (until_equals s) rest in
            rw (e, h) ((λ x. ih.0 (key.0 x)), (λ y. key.1 (ih.1 y)))
      ]

  insert_pairs-IsReadable :
      (q_a : List Text) (res : Dict Text)
      → (insert_pairs decode q_a res ≢ none) ↔ All (λ s. IsReadable (value_text s)) q_a
  unfolding insert_pairs
  insert_pairs-IsReadable [] res = ground arith
  insert_pairs-IsReadable (s ∷ q_a) res =
      let kv = key_value-IsReadable s in
      elim (Option-cases (key_value decode (split s b'='))) [
        | inl h ↦ rw (insert_pairs, h) ((λ x. absurd (x refl)), (λ y. absurd (kv.1 y.0 h)))
        | inr ((k, v), h) ↦
            let ih = insert_pairs-IsReadable q_a (Dict.insert k v res) in
            rw (insert_pairs, h) ((λ x. (kv.0 (λ e. cc (e, h)), ih.0 x)), (λ y. ih.1 y.1))
      ]

  -- Whatever the decoding, `parse_query` returns on a text that is not empty exactly if every piece
  -- between the `&` signs has an `=`, and the text between the first and the second `=` of the piece,
  -- or its end, decodes. In every other case it panics.
  pub parse_query-IsReadable :
      (query_string : Text)
      → is_empty query_string ≡ false
      → (parse_query decode query_string ≢ none)
        ↔ All (λ s. IsReadable (value_text s)) (split query_string b'&')
  unfolding parse_query
  parse_query-IsReadable query_string h =
      rw h (insert_pairs-IsReadable (split query_string b'&') [])
