-- ===== src/Codec/RoundTrip.antt =====
-- Reading a code back.
use native.Mathlib.Nat.{div-add-mod', mod-lt, div-lt_self}
use chimes_utils.Base.{
  ℕ, zero, suc, ◌+◌, ◌*◌, ◌/◌, ◌%◌, ◌<◌, ◌≡◌, refl, ap, ◌∙◌, inl, inr, Bool, true, false, not, ◌&&◌,
  [], ◌∷◌, length, ◌==◌, ==_iff, Bool-cases, if◌then◌else◌, arith,
}
use chimes_utils.Base.Int.{pos}
use chimes_utils.Base.Text.{Text}
use chimes_utils.Codec.{
  upper_codec, digit_codec, mixed_codec, char_at, encode_loop, encode, num_to_string,
  number_to_string, num_to_string_v2,
}

-- The place of a character in the alphabet.
unfoldable pub index_of : Text → ℕ → ℕ
index_of [] c = 0
index_of (d ∷ codec) c = if d == c then 0 else suc (index_of codec c)

-- The number that a text spells behind `v`, most significant digit first.
unfoldable pub value_from : Text → ℕ → Text → ℕ
value_from codec v [] = v
value_from codec v (c ∷ s) = value_from codec (v * length codec + index_of codec c) s

abbrev pub value : Text → Text → ℕ
value codec s = value_from codec 0 s

occurs : ℕ → Text → Bool
occurs c [] = false
occurs c (d ∷ s) = if d == c then true else occurs c s

distinct : Text → Bool
unfolding occurs
distinct [] = true
distinct (c ∷ s) = not (occurs c s) && distinct s

occurs-char_at :
    (c : ℕ) (s : Text) (i : ℕ) → i < length s → occurs c s ≡ false → (c == char_at s i) ≡ false
unfolding occurs char_at
occurs-char_at c [] i h lacks = elim h [ ]
occurs-char_at c (d ∷ s) zero h lacks = ground arith
occurs-char_at c (d ∷ s) (suc i) h lacks = ground (arith, occurs-char_at c s i)

index_of-char_at :
    (codec : Text) (i : ℕ)
    → distinct codec ≡ true
    → i < length codec
    → index_of codec (char_at codec i) ≡ i
unfolding distinct index_of char_at
index_of-char_at [] i d h = elim h [ ]
index_of-char_at (c ∷ codec) zero d h = ground arith
index_of-char_at (c ∷ codec) (suc i) d h =
    ground (arith, index_of-char_at codec i, occurs-char_at c codec i)

-- An alphabet of at least two characters, none of them twice.
record IsAlphabet (codec : Text) : Type 0 where
  many : 1 < length codec
  differ : distinct codec ≡ true

module _ (codec : Text) (a : IsAlphabet codec) where
  -- one round writes a digit that reads back to what it was divided from
  value_round :
      (t : ℕ)
      → t / length codec * length codec + index_of codec (char_at codec (t % length codec)) ≡ t
  value_round t =
      rw (index_of-char_at codec (t % length codec) a.differ (mod-lt t (omega (arith, a.many))))
        (div-add-mod' t (length codec))

  smaller : (t f : ℕ) → t < suc f → (t == 0) ≡ false → t / length codec < f
  smaller t f h e =
      let fewer : t / length codec < t = div-lt_self (ground arith) a.many in omega arith

  value-encode_loop :
      (f t : ℕ) (result : Text)
      → t < f
      → value codec (encode_loop codec f t result) ≡ value_from codec t result
  unfolding encode_loop value_from
  value-encode_loop zero t result h = elim h [ ]
  value-encode_loop (suc f) t result h = elim (Bool-cases (t == 0)) [
    | inl e ↦ rw (e, encode_loop) (rw ((==_iff t 0).0 e))
    | inr e ↦
        rw (e, encode_loop)
          (value-encode_loop f (t / length codec) _ (smaller t f h e)
            ∙ ap (λ v. value_from codec v result) (value_round t))
  ]

  value-encode : (n : ℕ) → value codec (encode codec (pos n)) ≡ n
  unfolding encode value_from
  value-encode n = value-encode_loop (suc n) n [] (omega arith)

upper-IsAlphabet : IsAlphabet upper_codec
unfolding distinct
upper-IsAlphabet = record { many = omega arith; differ = refl }

digit-IsAlphabet : IsAlphabet digit_codec
unfolding distinct
digit-IsAlphabet = record { many = omega arith; differ = refl }

mixed-IsAlphabet : IsAlphabet mixed_codec
unfolding distinct
mixed-IsAlphabet = record { many = omega arith; differ = refl }

-- Every number that is not negative is read back from each of its three codes, in the alphabet of
-- the code: no two numbers share a code, and the loops end.
pub value-to_string :
    (n : ℕ)
    → (value upper_codec (num_to_string (pos n)) ≡ n)
      × (value digit_codec (number_to_string (pos n)) ≡ n)
      × (value mixed_codec (num_to_string_v2 (pos n)) ≡ n)
unfolding num_to_string number_to_string num_to_string_v2
value-to_string n = (
  value-encode upper_codec upper-IsAlphabet n,
  value-encode digit_codec digit-IsAlphabet n,
  value-encode mixed_codec mixed-IsAlphabet n,
)
