-- ===== src/Files/Hash.antt =====
-- The hash of a file is the hash of its bytes, however they are read.
use chimes_utils.Base.{
  ℕ, zero, suc, ◌+◌, true, ◌≤◌, ◌≡◌, refl, sym, ap, ◌∙◌, inl, inr, Bool-cases, Option, none, some,
  List, [], ◌∷◌, ◌++◌, append-nil, length, take, All, ltb, ◌==◌, map, length-append, arith,
}
use chimes_utils.Files.{Sha256, drop, filled, hash_loop, calc_file_hash}

-- Hashing in pieces is hashing the whole.
pub record IsHasher (sha : Sha256) : Type 0 where
  pub update_nil : (h : sha.Hasher) → sha.update h [] ≡ h
  pub update-append :
      (h : sha.Hasher) (xs ys : List ℕ) → sha.update h (xs ++ ys) ≡ sha.update (sha.update h xs) ys

abbrev pub bytes_of : List (List ℕ) → List ℕ
bytes_of [] = []
bytes_of (r ∷ rs) = r ++ bytes_of rs

-- Each read finds some bytes, and no more than fit.
abbrev pub IsRead : ℕ → List ℕ → Type 0
IsRead size r = (1 ≤ length r) × (length r ≤ size)

take-length : (xs ys : List ℕ) → take (length xs) (xs ++ ys) ≡ xs
take-length [] ys = refl
take-length (x ∷ xs) ys = ap (λ l. x ∷ l) (take-length xs ys)

drop_all : (n : ℕ) (xs : List ℕ) → length xs ≤ n → drop n xs ≡ []
drop_all zero [] h = refl
drop_all zero (x ∷ xs) h = absurd (omega (arith, h))
drop_all (suc n) [] h = refl
drop_all (suc n) (x ∷ xs) h = drop_all n xs (omega (arith, h))

length-drop : (n : ℕ) (xs : List ℕ) → n ≤ length xs → n + length (drop n xs) ≡ length xs
length-drop zero xs h = omega arith
length-drop (suc n) [] h = absurd (omega (arith, h))
length-drop (suc n) (x ∷ xs) h = omega (arith, length-drop n xs (omega (arith, h)))

filled-length :
    (size : ℕ) (r buffer : List ℕ)
    → length r ≤ size
    → length buffer ≡ size
    → length (filled r buffer) ≡ size
filled-length size r buffer h e =
    length-append r (drop (length r) buffer)
    ∙ length-drop (length r) buffer (omega (arith, h, e))
    ∙ e

module _ (sha : Sha256) (size : ℕ) (laws : IsHasher sha) where
  -- One read of some bytes, whether they fill the buffer or not.
  loop_step :
      (r : List ℕ) (reads : List (Option (List ℕ))) (buffer : List ℕ) (h : sha.Hasher)
      → IsRead size r
      → length buffer ≡ size
      → hash_loop sha size (some r ∷ reads) buffer h
        ≡ hash_loop sha size reads (filled r buffer) (sha.update h r)
  unfolding hash_loop
  loop_step r reads buffer h (some_bytes, fits) e = elim (Bool-cases (length r == size)) [
    | inl y ↦
        let full : filled r buffer ≡ r =
          ap (λ l. r ++ l) (drop_all (length r) buffer (ground (arith, y, e))) ∙ append-nil r in
        rw (hash_loop, y)
          (ap (λ l. hash_loop sha size reads (filled r buffer) (sha.update h l)) full)
    | inr n ↦
        let more : ltb 0 (length r) ≡ true = ground (arith, some_bytes) in
        rw (hash_loop, n, more)
          (ap (λ l. hash_loop sha size reads (filled r buffer) (sha.update h l))
            (take-length r (drop (length r) buffer)))
  ]

  loop-bytes_of :
      (rs : List (List ℕ)) (buffer : List ℕ) (h : sha.Hasher)
      → All (IsRead size) rs
      → length buffer ≡ size
      → hash_loop sha size (map some rs) buffer h ≡ some (sha.update h (bytes_of rs))
  loop-bytes_of [] buffer h _ e = unfold hash_loop in ap some (sym (laws.update_nil h))
  loop-bytes_of (r ∷ rs) buffer h (i, is) e =
      loop_step r (map some rs) buffer h i e
      ∙ loop-bytes_of rs (filled r buffer) (sha.update h r) is (filled-length size r buffer i.1 e)
      ∙ ap some (sym (laws.update-append h r (bytes_of rs)))

  loop-error :
      (rs : List (List ℕ)) (more : List (Option (List ℕ))) (buffer : List ℕ) (h : sha.Hasher)
      → All (IsRead size) rs
      → length buffer ≡ size
      → hash_loop sha size (map some rs ++ none ∷ more) buffer h ≡ none
  loop-error [] more buffer h _ e = unfold hash_loop in refl
  loop-error (r ∷ rs) more buffer h (i, is) e =
      loop_step r (map some rs ++ none ∷ more) buffer h i e
      ∙ loop-error rs more (filled r buffer) (sha.update h r) is (filled-length size r buffer i.1 e)

  -- Let hashing in pieces be hashing the whole, let the buffer have its size, and let the reads of a
  -- file find one byte at least and no more than fit. Then the hash of the file is the hash of all
  -- its bytes, wherever the reads have cut them and whatever the buffer still held; and if a read
  -- behind these fails, there is no hash.
  pub calc_file_hash-bytes_of :
      (zeros : List ℕ) (rs : List (List ℕ)) (more : List (Option (List ℕ)))
      → length zeros ≡ size
      → All (IsRead size) rs
      → (calc_file_hash sha size zeros (some (map some rs))
          ≡ some (sha.finish (sha.update sha.new (bytes_of rs))))
        × (calc_file_hash sha size zeros (some (map some rs ++ none ∷ more)) ≡ none)
  unfolding calc_file_hash
  calc_file_hash-bytes_of zeros rs more e i = (
    rw (calc_file_hash, loop-bytes_of rs zeros sha.new i e) refl,
    rw (calc_file_hash, loop-error rs more zeros sha.new i e) refl,
  )
