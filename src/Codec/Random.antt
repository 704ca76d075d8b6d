-- ===== src/Codec/Random.antt =====
-- The random strings: their length and characters, and that the loops end.
use native.Mathlib.Nat.{mod-lt}
use chimes_utils.Base.{
  ℕ, zero, suc, ◌+◌, ◌/◌, ◌%◌, ◌≤◌, ◌<◌, ◌≡◌, refl, inl, inr, false, Option, some, List, [], ◌∷◌,
  ◌++◌, length, length-append, length-take, take, All, All-append, All-take, ◌==◌, Bool-cases, ltb,
  if◌then◌else◌, arith,
}
use chimes_utils.Base.Int.{ℤ, pos, negsuc}
use chimes_utils.Base.Text.{Text}
use chimes_utils.Codec.{
  upper_codec, digit_codec, mixed_codec, char_at, encode_loop, encode, fill, generate_rand_string,
  generate_rand_numberstring, generate_rand_string_v2,
}

-- The character stands in the alphabet.
abbrev pub IsIn : Text → ℕ → Type 0
IsIn codec c = (i : ℕ) × (i < length codec) × (char_at codec i ≡ c)

module _ (codec : Text) (many : 1 < length codec) where
  All-encode_loop :
      (f t : ℕ) (result : Text)
      → All (IsIn codec) result
      → All (IsIn codec) (encode_loop codec f t result)
  unfolding encode_loop
  All-encode_loop zero t result h = h
  All-encode_loop (suc f) t result h = elim (Bool-cases (t == 0)) [
    | inl e ↦ rw (e, encode_loop) h
    | inr e ↦
        rw (e, encode_loop)
          (All-encode_loop f (t / length codec) _
            ((t % length codec, mod-lt t (omega arith), refl), h))
  ]

  All-encode : (n : ℤ) → All (IsIn codec) (encode codec n)
  unfolding encode
  All-encode (pos n) = All-encode_loop (suc n) n [] tt
  All-encode (negsuc n) = tt

  length-encode_loop :
      (f t : ℕ) (result : Text) → length result ≤ length (encode_loop codec f t result)
  unfolding encode_loop
  length-encode_loop zero t result = omega arith
  length-encode_loop (suc f) t result = elim (Bool-cases (t == 0)) [
    | inl e ↦ rw (e, encode_loop) (omega arith)
    | inr e ↦
        rw (e, encode_loop)
          (omega (
            arith,
            length-encode_loop f (t / length codec) (char_at codec (t % length codec) ∷ result),
          ))
  ]

  length-encode : (n : ℕ) → 0 < n → 0 < length (encode codec (pos n))
  unfolding encode encode_loop
  length-encode n h = elim (Bool-cases (n == 0)) [
    | inl e ↦ absurd (ground arith)
    | inr e ↦
        rw (e, encode_loop)
          (omega (
            arith,
            length-encode_loop n (n / length codec) (char_at codec (n % length codec) ∷ []),
          ))
  ]

-- How many of the drawn numbers are not zero: a zero adds no character.
abbrev pub nonzero : List ℕ → ℕ
nonzero [] = 0
nonzero (r ∷ draws) = (if r == 0 then 0 else 1) + nonzero draws

-- A text of the asked length, all of its characters from the alphabet.
abbrev pub IsDrawn : Text → ℕ → Option (Text × List ℕ) → Type 0
IsDrawn codec len o =
    (s : Text) × (rest : List ℕ) × (o ≡ some (s, rest)) × (length s ≡ len) × All (IsIn codec) s

module _ (codec : Text) (many : 1 < length codec) where
  drawn :
      (len : ℕ) (rest : List ℕ) (retkey : Text)
      → All (IsIn codec) retkey
      → ltb (length retkey) len ≡ false
      → IsDrawn codec len (some (take len retkey, rest))
  drawn len rest retkey h full = (
    take len retkey,
    rest,
    refl,
    ground (arith, length-take len retkey),
    All-take (IsIn codec) len retkey h,
  )

  fill_lem :
      (len : ℕ) (draws : List ℕ) (retkey : Text)
      → All (IsIn codec) retkey
      → len ≤ length retkey + nonzero draws
      → IsDrawn codec len (fill (encode codec) len draws retkey)
  unfolding fill
  fill_lem len [] retkey h enough =
      let full : ltb (length retkey) len ≡ false = ground arith in
      rw (full, fill) (drawn len [] retkey h full)
  fill_lem len (r ∷ draws) retkey h enough = elim (Bool-cases (ltb (length retkey) len)) [
    | inl more ↦
        rw (more, fill)
          (fill_lem len draws (retkey ++ encode codec (pos r))
            (All-append (IsIn codec) retkey (encode codec (pos r)) h
              (All-encode codec many (pos r)))
            (ground
              (arith, length-append retkey (encode codec (pos r)), length-encode codec many r)))
    | inr full ↦ rw (full, fill) (drawn len (r ∷ draws) retkey h full)
  ]

module _ (len : ℕ) (draws : List ℕ) (enough : len ≤ nonzero draws) where
  -- If at least as many of the drawn numbers as the asked length are not zero, each of the three
  -- generators ends, with a text of exactly that length in its alphabet.
  pub generate_lem :
      IsDrawn upper_codec len (generate_rand_string len draws)
      × IsDrawn digit_codec len (generate_rand_numberstring len draws)
      × IsDrawn mixed_codec len (generate_rand_string_v2 len draws)
  unfolding generate_rand_string generate_rand_numberstring generate_rand_string_v2
  generate_lem = (
    fill_lem upper_codec (omega arith) len draws [] tt enough',
    fill_lem digit_codec (omega arith) len draws [] tt enough',
    fill_lem mixed_codec (omega arith) len draws [] tt enough',
  )
    where
      enough' : len ≤ 0 + nonzero draws
      enough' = omega arith
