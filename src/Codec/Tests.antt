-- ===== src/Codec/Tests.antt =====
-- Tests of the string codes.
use chimes_utils.Base.{◌≡◌, refl, some, [], ◌∷◌}
use chimes_utils.Base.Int.{pos}
use chimes_utils.Base.Text.{codes}
use chimes_utils.Codec
use chimes_utils.Codec.{upper_codec, digit_codec, mixed_codec}
use chimes_utils.Codec.RoundTrip

code_text : Codec.num_to_string (pos 65535) ≡ codes "B999"
unfolding Codec.num_to_string
code_text = refl

random_text :
    Codec.generate_rand_numberstring 4 (12 ∷ 0 ∷ 345 ∷ 7 ∷ []) ≡ some (codes "2345", 7 ∷ [])
unfolding Codec.generate_rand_numberstring
random_text = refl

value-to_string_example :
    (RoundTrip.value upper_codec (Codec.num_to_string (pos 65535)) ≡ 65535)
    × (RoundTrip.value digit_codec (Codec.number_to_string (pos 65535)) ≡ 65535)
    × (RoundTrip.value mixed_codec (Codec.num_to_string_v2 (pos 65535)) ≡ 65535)
value-to_string_example = RoundTrip.value-to_string 65535
