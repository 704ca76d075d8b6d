-- ===== src/Files.antt =====
-- The functions on files of src/utils/mod.rs: the hash of a file, read through one buffer, and the printed size.
pub mod Hash
mod Tests
use chimes_utils.Base.{
  ℕ, zero, suc, ◌*◌, Bool, Option, none, some, List, [], ◌∷◌, ◌++◌, length, take, ltb, ◌==◌,
  if◌then◌else◌,
}
use chimes_utils.Base.Text.{Text, codes}
use chimes_utils.Str.{show}

-- The hasher `Sha256` of the crate openssl, and `hex::encode` of its result.
pub record Sha256 : Type 1 where
  pub Hasher : Type 0
  pub new : Hasher
  pub update : Hasher → List ℕ → Hasher
  pub finish : Hasher → Text

abbrev pub drop : ℕ → List ℕ → List ℕ
drop zero xs = xs
drop (suc n) [] = []
drop (suc n) (x ∷ xs) = drop n xs

-- What a read puts into the buffer: the bytes that were read, and behind them what was there.
abbrev pub filled : List ℕ → List ℕ → List ℕ
filled bytes buffer = bytes ++ drop (length bytes) buffer

module _ (sha : Sha256) (size : ℕ) where
  -- The reads of the file, `none` for an error; behind the last one the file has ended. `size` is the
  -- size of the buffer, 1024 * 1024 bytes in the code.
  unfoldable pub hash_loop : List (Option (List ℕ)) → List ℕ → sha.Hasher → Option sha.Hasher
  hash_loop [] buffer hasher = some hasher
  hash_loop (none ∷ reads) buffer hasher = none
  hash_loop (some bytes ∷ reads) buffer hasher =
      let next = filled bytes buffer in
      let ts = length bytes in
      let whole = hash_loop reads next (sha.update hasher next) in
      let part = hash_loop reads next (sha.update hasher (take ts next)) in
      if ts == size then whole else if ltb 0 ts then part else some hasher

  -- `none` is a file that cannot be opened; the buffer starts with zeros.
  unfoldable pub calc_file_hash : List ℕ → Option (List (Option (List ℕ))) → Option Text
  unfolding hash_loop
  calc_file_hash zeros none = none
  calc_file_hash zeros (some reads) = elim (hash_loop reads zeros sha.new) [
    | none ↦ none
    | some hasher ↦ some (sha.finish hasher)
  ]

-- The sizes as f64: the number divided by a power of 1024, compared with 1, and printed with two digits.
pub record Sizes : Type 1 where
  pub F64 : Type 0
  pub of_usize : ℕ → F64
  pub per : F64 → F64 → F64
  pub times : F64 → F64 → F64
  pub kilo : F64
  pub ge_one : F64 → Bool
  pub format_2 : F64 → Text

module _ (sizes : Sizes) where
  unfoldable pub file_size_format : ℕ → Text
  file_size_format len =
      let f = sizes.of_usize len in
      let t =
        sizes.per f
          (sizes.times (sizes.times (sizes.times sizes.kilo sizes.kilo) sizes.kilo) sizes.kilo) in
      let g = sizes.per f (sizes.times (sizes.times sizes.kilo sizes.kilo) sizes.kilo) in
      let m = sizes.per f (sizes.times sizes.kilo sizes.kilo) in
      let k = sizes.per f sizes.kilo in
      if sizes.ge_one t
      then sizes.format_2 t ++ codes "TB"
      else if sizes.ge_one g
      then sizes.format_2 g ++ codes "GB"
      else if sizes.ge_one m
      then sizes.format_2 m ++ codes "MB"
      else if sizes.ge_one k
      then sizes.format_2 k ++ codes "KB"
      else show len ++ codes " B"
