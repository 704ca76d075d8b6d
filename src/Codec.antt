-- ===== src/Codec.antt =====
-- The string codes of src/utils/global_data.rs: a number is written in an alphabet, and random
-- strings are cut from the codes of random 16-bit numbers.
pub mod RoundTrip
pub mod Random
mod Tests
use chimes_utils.Base.{
  ℕ, zero, suc, ◌/◌, ◌%◌, Bool, true, false, Option, none, some, List, [], ◌∷◌, ◌++◌, length,
  get_elem?, take, ◌==◌, ltb, if◌then◌else◌,
}
use chimes_utils.Base.Int.{ℤ, pos, negsuc}
use chimes_utils.Base.Text.{Text, codes}

-- `base_codec` of `num_to_string`, of `number_to_string` and of `num_to_string_v2`.
abbrev pub upper_codec : Text
upper_codec = codes "ABCDEFGHJKLMNOPQRSTUVWXYZ2345789"

abbrev pub digit_codec : Text
digit_codec = codes "1234567890"

abbrev pub mixed_codec : Text
mixed_codec = codes "abcdefghjklmnpqrstuvwxyzABCDEFGHJKLMNPQRSTUVWXYZ23456789"

-- `base_codec[idx]`. The index is a remainder by the length, so it is in range.
unfoldable pub char_at : Text → ℕ → ℕ
char_at codec i = elim (get_elem? codec i) [ none ↦ 0 | some c ↦ c ]

-- `while t > 0`: a round writes the last digit in front and divides. The fuel is one more than `t`.
unfoldable pub encode_loop : Text → ℕ → ℕ → Text → Text
encode_loop codec zero t result = result
encode_loop codec (suc f) t result = elim (t == 0) [
  | true ↦ result
  | false ↦ encode_loop codec f (t / length codec) (char_at codec (t % length codec) ∷ result)
]

-- A negative number writes nothing.
unfoldable pub encode : Text → ℤ → Text
unfolding encode_loop char_at
encode codec (pos n) = encode_loop codec (suc n) n []
encode codec (negsuc n) = []

unfoldable pub num_to_string : ℤ → Text
unfolding encode
num_to_string n = encode upper_codec n

unfoldable pub number_to_string : ℤ → Text
unfolding encode
number_to_string n = encode digit_codec n

unfoldable pub num_to_string_v2 : ℤ → Text
unfolding encode
num_to_string_v2 n = encode mixed_codec n

-- `while retkey.len() < len`, over the numbers that `rand::random::<u16>()` gives, in order. `none`
-- means that the loop has not ended when they are used up. What is not drawn comes back.
unfoldable pub fill : (ℤ → Text) → ℕ → List ℕ → Text → Option (Text × List ℕ)
fill to_string len [] retkey = if ltb (length retkey) len then none else some (take len retkey, [])
fill to_string len (rng ∷ draws) retkey = elim (ltb (length retkey) len) [
  | true ↦ fill to_string len draws (retkey ++ to_string (pos rng))
  | false ↦ some (take len retkey, rng ∷ draws)
]

unfoldable pub generate_rand_string : ℕ → List ℕ → Option (Text × List ℕ)
unfolding fill num_to_string
generate_rand_string len draws = fill num_to_string len draws []

unfoldable pub generate_rand_numberstring : ℕ → List ℕ → Option (Text × List ℕ)
unfolding fill number_to_string
generate_rand_numberstring len draws = fill number_to_string len draws []

unfoldable pub generate_rand_string_v2 : ℕ → List ℕ → Option (Text × List ℕ)
unfolding fill num_to_string_v2
generate_rand_string_v2 len draws = fill num_to_string_v2 len draws []
