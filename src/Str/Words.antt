-- ===== src/Str/Words.antt =====
-- Words with spaces between them are split into the words.
use chimes_utils.Base.{
  ℕ, zero, suc, ◌+◌, ◌%◌, ◌/◌, ◌≤◌, ◌≡◌, refl, ap, ◌∙◌, inl, inr, true, false, Bool-cases, List, [],
  ◌∷◌, ◌++◌, append-nil, length, All, ◌==◌, arith,
}
use chimes_utils.Base.Text.{Text}
use chimes_utils.Str.{
  is_whitespace, onto_first, split_white, non_empty, split_whitespace, show_from, show,
}
use chimes_utils.Str.Digits.{length-show}

-- At least one character, and none of white space.
abbrev pub IsWord : Text → Type 0
IsWord w = (1 ≤ length w) × All (λ c. is_whitespace c ≡ false) w

abbrev pub spaces : ℕ → Text
spaces zero = []
spaces (suc n) = b' ' ∷ spaces n

-- Each word behind at least one space.
abbrev pub columns : List (ℕ × Text) → Text
columns [] = []
columns ((n, w) ∷ ws) = b' ' ∷ (spaces n ++ (w ++ columns ws))

abbrev pub words_of : List (ℕ × Text) → List Text
words_of [] = []
words_of ((_, w) ∷ ws) = w ∷ words_of ws

split_white_space :
    (c : ℕ) (s : Text) → is_whitespace c ≡ true → split_white (c ∷ s) ≡ [] ∷ split_white s
unfolding split_white
split_white_space c s h = rw h refl

split_white_other :
    (c : ℕ) (s : Text)
    → is_whitespace c ≡ false
    → split_white (c ∷ s) ≡ onto_first c (split_white s)
unfolding split_white
split_white_other c s h = rw h refl

space_white : is_whitespace b' ' ≡ true
unfolding is_whitespace
space_white = refl

split_whitespace-spaces : (n : ℕ) (s : Text) → split_whitespace (spaces n ++ s) ≡ split_whitespace s
unfolding split_whitespace non_empty
split_whitespace-spaces zero s = refl
split_whitespace-spaces (suc n) s =
    ap non_empty (split_white_space b' ' (spaces n ++ s) space_white) ∙ split_whitespace-spaces n s

split_white_one : (w : Text) → All (λ c. is_whitespace c ≡ false) w → split_white w ≡ w ∷ []
unfolding onto_first
split_white_one [] h = unfold split_white in refl
split_white_one (c ∷ w) (h, hs) = split_white_other c w h ∙ ap (onto_first c) (split_white_one w hs)

split_white-append :
    (w s : Text)
    → All (λ c. is_whitespace c ≡ false) w
    → split_white (w ++ b' ' ∷ s) ≡ w ∷ split_white s
unfolding onto_first
split_white-append [] s h = split_white_space b' ' s space_white
split_white-append (c ∷ w) s (h, hs) =
    split_white_other c (w ++ b' ' ∷ s) h ∙ ap (onto_first c) (split_white-append w s hs)

non_empty-word : (w : Text) (ps : List Text) → 1 ≤ length w → non_empty (w ∷ ps) ≡ w ∷ non_empty ps
unfolding non_empty
non_empty-word [] ps h = ground (arith, h)
non_empty-word (c ∷ w) ps h = refl

pub split_whitespace-columns :
    (w : Text) (ws : List (ℕ × Text))
    → IsWord w
    → All IsWord (words_of ws)
    → split_whitespace (w ++ columns ws) ≡ w ∷ words_of ws
unfolding split_whitespace
split_whitespace-columns w [] (l, h) _ =
    ap split_whitespace (append-nil w)
    ∙ ap non_empty (split_white_one w h)
    ∙ non_empty-word w [] l
    ∙ unfold non_empty in refl
split_whitespace-columns w ((n, u) ∷ ws) (l, h) (hu, hs) =
    ap non_empty (split_white-append w (spaces n ++ (u ++ columns ws)) h)
    ∙ non_empty-word w (split_white (spaces n ++ (u ++ columns ws))) l
    ∙ ap (λ t. w ∷ t)
        (split_whitespace-spaces n (u ++ columns ws) ∙ split_whitespace-columns u ws hu hs)

-- A line of words, behind any number of spaces.
pub split_whitespace-line :
    (n : ℕ) (w : Text) (ws : List (ℕ × Text))
    → IsWord w
    → All IsWord (words_of ws)
    → split_whitespace (spaces n ++ (w ++ columns ws)) ≡ w ∷ words_of ws
split_whitespace-line n w ws h hs =
    split_whitespace-spaces n (w ++ columns ws) ∙ split_whitespace-columns w ws h hs

digit_black : (n : ℕ) → is_whitespace (b'0' + n % 10) ≡ false
unfolding is_whitespace
digit_black n = ground arith

show_from-All :
    (f n : ℕ) (out : Text)
    → All (λ c. is_whitespace c ≡ false) out
    → All (λ c. is_whitespace c ≡ false) (show_from f n out)
unfolding show_from
show_from-All zero n out h = h
show_from-All (suc f) n out h = elim (Bool-cases (n / 10 == 0)) [
  | inl e ↦ rw (show_from, e) (digit_black n, h)
  | inr e ↦ rw (show_from, e) (show_from-All f (n / 10) ((b'0' + n % 10) ∷ out) (digit_black n, h))
]

-- The text of a number is a word.
pub show-IsWord : (n : ℕ) → IsWord (show n)
unfolding show
show-IsWord n = (length-show n, show_from-All (suc n) n [] tt)
