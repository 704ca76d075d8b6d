-- ===== src/Texts/Query.antt =====
-- `parse_query` and `get_hash_value` of src/utils/mod.rs: reading what was written.
use chimes_utils.Base.{
  ◌≡◌, ◌≢◌, refl, ap, ◌∙◌, false, Option, some, List, [], ◌∷◌, ◌++◌, map, All, All-append, join,
  if◌then◌else◌, arith,
}
use chimes_utils.Base.Text.{Text, Lacks, text_eq}
use chimes_utils.Base.Dict
use chimes_utils.Base.Dict.{Dict, get-insert}
use chimes_utils.Str.{split, is_empty}
use chimes_utils.Str.Unsplit.{split_one, split-append, split-join}
use chimes_utils.Texts.{key_value, insert_pairs, parse_query, get_hash_value}

-- The value of the last pair with the key, and `val` if there is none.
unfoldable pub last_value : Text → Text → List (Text × Text) → Text
last_value key val [] = val
last_value key val ((k, v) ∷ pairs) = last_value key (if text_eq k key then v else val) pairs

get_hash_value-insert :
    (k v key : Text) (m : Dict Text)
    → get_hash_value (Dict.insert k v m) key ≡ (if text_eq k key then v else get_hash_value m key)
unfolding get_hash_value
get_hash_value-insert k v key m = ground (arith, get-insert k key v m)

-- The pairs inserted one after another.
insert_each : List (Text × Text) → Dict Text → Dict Text
insert_each [] res = res
insert_each ((k, v) ∷ pairs) res = insert_each pairs (Dict.insert k v res)

get_hash_value-insert_each :
    (pairs : List (Text × Text)) (res : Dict Text) (key : Text)
    → get_hash_value (insert_each pairs res) key ≡ last_value key (get_hash_value res key) pairs
unfolding insert_each last_value
get_hash_value-insert_each [] res key = refl
get_hash_value-insert_each ((k, v) ∷ pairs) res key =
    get_hash_value-insert_each pairs (Dict.insert k v res) key
    ∙ ap (λ val. last_value key val pairs) (get_hash_value-insert k v key res)

-- A sender's `encode`: what it writes has no `&` and no `=`, and `decode` reads it.
module _ (encode : Text → Text) where
  unfoldable pub pair_text : Text × Text → Text
  pair_text (k, v) = k ++ (b'=' ∷ encode v)

  unfoldable pub query_text : List (Text × Text) → Text
  unfolding pair_text
  query_text pairs = join (b'&' ∷ []) (map pair_text pairs)

-- A key that is written as it is.
abbrev pub IsPlain : Text × Text → Type 0
IsPlain (k, v) = Lacks b'=' k × Lacks b'&' k

pub record IsCodec (encode : Text → Text) (decode : Text → Option Text) : Type 0 where
  pub encode_equals : (v : Text) → Lacks b'=' (encode v)
  pub encode_and : (v : Text) → Lacks b'&' (encode v)
  pub decode-encode : (v : Text) → decode (encode v) ≡ some v

module _ (encode : Text → Text) (decode : Text → Option Text) (codec : IsCodec encode decode) where
  key_value-pair_text :
      (k v : Text)
      → Lacks b'=' k
      → key_value decode (split (pair_text encode (k, v)) b'=') ≡ some (k, v)
  unfolding pair_text key_value
  key_value-pair_text k v h =
      rw
        (
          split-append k (encode v) b'=' h,
          split_one (encode v) b'=' (codec.encode_equals v),
          key_value,
          codec.decode-encode v,
        )
        refl

  insert_pairs-pair_text :
      (pairs : List (Text × Text)) (res : Dict Text)
      → All IsPlain pairs
      → insert_pairs decode (map (pair_text encode) pairs) res ≡ some (insert_each pairs res)
  unfolding insert_pairs insert_each
  insert_pairs-pair_text [] res h = refl
  insert_pairs-pair_text ((k, v) ∷ pairs) res ((h, _), hs) =
      rw (insert_pairs, key_value-pair_text k v h)
        (insert_pairs-pair_text pairs (Dict.insert k v res) hs)

  pair_text-Lacks :
      (pairs : List (Text × Text))
      → All IsPlain pairs
      → All (Lacks b'&') (map (pair_text encode) pairs)
  unfolding pair_text
  pair_text-Lacks [] h = tt
  pair_text-Lacks ((k, v) ∷ pairs) ((_, h), hs) = (
    All-append (λ d. d ≢ b'&') k (b'=' ∷ encode v) h (ground arith, codec.encode_and v),
    pair_text-Lacks pairs hs,
  )

  query_text-is_empty :
      (k v : Text) (pairs : List (Text × Text))
      → is_empty (query_text encode ((k, v) ∷ pairs)) ≡ false
  unfolding query_text pair_text is_empty
  query_text-is_empty [] v [] = refl
  query_text-is_empty [] v (p ∷ pairs) = refl
  query_text-is_empty (c ∷ k) v [] = refl
  query_text-is_empty (c ∷ k) v (p ∷ pairs) = refl

  split-query_text :
      (k v : Text) (pairs : List (Text × Text))
      → All IsPlain ((k, v) ∷ pairs)
      → split (query_text encode ((k, v) ∷ pairs)) b'&' ≡ map (pair_text encode) ((k, v) ∷ pairs)
  split-query_text k v pairs h =
      unfold query_text in
      split-join (pair_text encode (k, v)) (map (pair_text encode) pairs) b'&'
        (pair_text-Lacks ((k, v) ∷ pairs) h)

  parse_query-insert_each :
      (pairs : List (Text × Text))
      → All IsPlain pairs
      → parse_query decode (query_text encode pairs) ≡ some (insert_each pairs [])
  unfolding parse_query
  parse_query-insert_each [] h = unfold query_text is_empty insert_each in refl
  parse_query-insert_each ((k, v) ∷ pairs) h =
      rw (query_text-is_empty k v pairs, split-query_text k v pairs h)
        (insert_pairs-pair_text ((k, v) ∷ pairs) [] h)

  -- Let `encode` write no `&` and no `=`, and let `decode` read what it writes. The query text of
  -- pairs whose keys hold neither sign is read without a panic, and `get_hash_value` on the
  -- result gives, for every key, the value of the last pair with that key, or the empty text.
  pub parse_query-query_text :
      (pairs : List (Text × Text))
      → All IsPlain pairs
      → (res : Dict Text) × (parse_query decode (query_text encode pairs) ≡ some res)
        × ((key : Text) → get_hash_value res key ≡ last_value key [] pairs)
  parse_query-query_text pairs h = (
    insert_each pairs [],
    parse_query-insert_each pairs h,
    λ key. get_hash_value-insert_each pairs [] key ∙ unfold get_hash_value Dict.get in refl,
  )
