-- ===== src/Files/Tests.antt =====
-- The hash and the size of files of src/utils/mod.rs at concrete values.
use chimes_utils.Base.{
  ℕ, ◌≡◌, refl, sym, none, some, List, [], ◌∷◌, ◌++◌, append-nil, append_assoc, map, arith,
}
use chimes_utils.Base.Text.{codes}
use chimes_utils.Files.{Sha256, calc_file_hash}
use chimes_utils.Files.Hash.{IsHasher, calc_file_hash-bytes_of}

-- The bytes themselves as their hash.
abbrev sha : Sha256
sha = record { Hasher = List ℕ; new = []; update = λ h bytes. h ++ bytes; finish = λ h. h }

laws : IsHasher sha
laws = record {
  update_nil = λ h. append-nil h;
  update-append = λ h xs ys. sym (append_assoc h xs ys);
}

abbrev reads : List (List ℕ)
reads = codes "abc" ∷ codes "d" ∷ []

calc_file_hash-bytes_of_example :
    (calc_file_hash sha 3 (codes "000") (some (map some reads)) ≡ some (codes "abcd"))
    × (calc_file_hash sha 3 (codes "000") (some (map some reads ++ none ∷ [])) ≡ none)
calc_file_hash-bytes_of_example =
    calc_file_hash-bytes_of sha 3 laws (codes "000") reads [] refl
      ((omega arith, omega arith), ((omega arith, omega arith), tt))
