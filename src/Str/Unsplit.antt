-- ===== src/Str/Unsplit.antt =====
-- Splitting what was joined: the parts come back if none of them holds the separator.
use chimes_utils.Base.{
  ℕ, ◌≡◌, ◌≢◌, refl, ap, ◌∙◌, false, List, [], ◌∷◌, ◌++◌, ◌==◌, ==_refl, All, join, arith,
}
use chimes_utils.Base.Text.{Text, Lacks}
use chimes_utils.Str.{split, onto_first}
use chimes_utils.Str.Split.{split_at, split_past}

other_character : (c sep : ℕ) → c ≢ sep → (c == sep) ≡ false
other_character c sep h = ground (arith, h)

-- A text without the separator is one part.
pub split_one : (p : Text) (sep : ℕ) → Lacks sep p → split p sep ≡ p ∷ []
split_one [] sep h = unfold split in refl
split_one (c ∷ p) sep (h, hs) =
    split_past p sep c (other_character c sep h)
    ∙ ap (onto_first c) (split_one p sep hs)
    ∙ unfold onto_first in refl

-- The part before the first separator is the first part.
pub split-append :
    (p s : Text) (sep : ℕ) → Lacks sep p → split (p ++ (sep ∷ s)) sep ≡ p ∷ split s sep
split-append [] s sep h = split_at s sep sep (==_refl sep)
split-append (c ∷ p) s sep (h, hs) =
    split_past (p ++ (sep ∷ s)) sep c (other_character c sep h)
    ∙ ap (onto_first c) (split-append p s sep hs)
    ∙ unfold onto_first in refl

pub split-join :
    (p : Text) (ps : List Text) (sep : ℕ)
    → All (Lacks sep) (p ∷ ps)
    → split (join (sep ∷ []) (p ∷ ps)) sep ≡ p ∷ ps
split-join p [] sep (h, hs) = split_one p sep h
split-join p (q ∷ ps) sep (h, hs) =
    split-append p (join (sep ∷ []) (q ∷ ps)) sep h ∙ ap (λ l. p ∷ l) (split-join q ps sep hs)
