-- ===== src/Texts/Placeholders.antt =====
-- `rbatis_compatible_sql` of mod.rs against a walk over the characters.
use chimes_utils.Base.{
  ℕ, ◌+◌, ◌≡◌, refl, ap, ◌∙◌, inl, inr, true, false, some, List, [], ◌∷◌, ◌++◌, append_assoc,
  append-nil, length, ◌==◌, ltb, Bool-cases, if◌then◌else◌, arith,
}
use chimes_utils.Base.Text.{Text, codes}
use chimes_utils.Str.{split, onto_first, show}
use chimes_utils.Str.Split.{split-cons, split_at, split_past}
use chimes_utils.Sql.Rbatis.{postgres}
use chimes_utils.Texts.{number_parts, is_postgres, rbatis_compatible_sql}

-- Every question mark, from the first on, becomes `$` and its number.
unfoldable pub numbered : ℕ → Text → Text
numbered i [] = []
numbered i (c ∷ s) =
    let mark = (codes "$" ++ show i) ++ numbered (i + 1) s in
    let other = c ∷ numbered i s in if c == b'?' then mark else other

-- A character before the first part is copied first.
number_parts-copy :
    (count i c : ℕ) (p : Text) (ps : List Text) (out : Text)
    → number_parts count i ((c ∷ p) ∷ ps) out ≡ number_parts count i (p ∷ ps) (out ++ (c ∷ []))
unfolding number_parts
number_parts-copy count i c p ps out = rw (append_assoc out (c ∷ []) p) refl

-- An empty part before another is a question mark.
number_parts-mark :
    (count i : ℕ) (p : Text) (ps : List Text) (out : Text)
    → ltb i count ≡ true
    → number_parts count i ([] ∷ p ∷ ps) out
      ≡ number_parts count (i + 1) (p ∷ ps) (out ++ (codes "$" ++ show i))
unfolding number_parts
number_parts-mark count i p ps out h = rw (h, append-nil out) refl

length-split_past :
    (s : Text) (c : ℕ) → (c == b'?') ≡ false → length (split (c ∷ s) b'?') ≡ length (split s b'?')
length-split_past s c h =
    let (p, ps, q) = split-cons s b'?' in
    ap (λ (l : List Text). length l) (split_past s b'?' c h) ∙ rw q (unfold onto_first in refl)

-- The parts of `s` are numbered from `i`, where `count` parts there are in all.
number_parts-split :
    (s : Text) (count i : ℕ) (out : Text)
    → i + length (split s b'?') ≡ count + 1
    → number_parts count i (split s b'?') out ≡ out ++ numbered i s
number_parts-split [] count i out e =
    unfold number_parts split numbered in
    let f : ltb i count ≡ false = ground (arith, e) in rw (f, append-nil out) refl
number_parts-split (c ∷ s) count i out e =
    let (p, ps, q) = split-cons s b'?' in
    elim (Bool-cases (c == b'?')) [
      | inl h ↦
          let l : i + 1 + length (split s b'?') ≡ count + 1 =
            ground (arith, e, ap (λ (l : List Text). length l) (split_at s b'?' c h)) in
          let f : ltb i count ≡ true = ground (arith, l, ap (λ (l : List Text). length l) q) in
          rw (split_at s b'?' c h, q) (number_parts-mark count i p ps out f)
          ∙ rw q at (number_parts-split s count (i + 1) (out ++ (codes "$" ++ show i)) l)
          ∙ unfold numbered in
            (rw (h, append_assoc out (codes "$" ++ show i) (numbered (i + 1) s)) refl)
      | inr h ↦
          let l : i + length (split s b'?') ≡ count + 1 =
            ground (arith, e, length-split_past s c h) in
          rw (split_past s b'?' c h, q) (unfold onto_first in number_parts-copy count i c p ps out)
          ∙ rw q at (number_parts-split s count i (out ++ (c ∷ [])) l)
          ∙ unfold numbered in (rw (h, append_assoc out (c ∷ []) (numbered i s)) refl)
    ]

-- For a Postgres database, `rbatis_compatible_sql` replaces every question mark by `$` and the
-- number of the mark, counted from 1, and keeps every other character.
pub rbatis_compatible_sql-numbered :
    (sql : Text) → rbatis_compatible_sql (some postgres) sql ≡ numbered 1 sql
unfolding rbatis_compatible_sql is_postgres
rbatis_compatible_sql-numbered sql =
    number_parts-split sql (length (split sql b'?')) 1 [] (ground arith)
