-- ===== src/Proc/Network.antt =====
-- The bytes of all network interfaces, as linux_performance.rs adds them up, against the text of
-- /proc/net/dev that names them.
use chimes_utils.Base.{
  subst, ℕ, suc, ◌+◌, ◌^◌, ◌<◌, ◌≤◌, ◌≡◌, refl, sym, ap, ap₂, ◌∙◌, ◌⊎◌, inl, inr, true, false, none,
  some, List, [], ◌∷◌, ◌++◌, map, length, length-append, get_elem?, All, All-append, wrap64, ltb,
  Bool-cases, arith,
}
use chimes_utils.Base.Text.{Text}
use chimes_utils.Str.{lines, split_whitespace, show}
use chimes_utils.Str.Digits.{parse_u64-show}
use chimes_utils.Str.Words.{IsWord, spaces, columns, words_of, split_whitespace-line, show-IsWord}
use chimes_utils.Proc.{u64_item, network_items, network_line, network_lines, get_network_io_counter}

-- A line of the file: the name, the bytes received, columns that are not read, the bytes sent, and
-- further columns, each with the number of spaces before it.
pub record Interface : Type 0 where
  pub margin : ℕ
  pub name : Text
  pub received_gap : ℕ
  pub received : ℕ
  pub inner : List (ℕ × Text)
  pub sent_gap : ℕ
  pub sent : ℕ
  pub outer : List (ℕ × Text)

abbrev pub columns_of : Interface → List (ℕ × Text)
columns_of f = (f.received_gap, show f.received) ∷ (f.inner ++ (f.sent_gap, show f.sent) ∷ f.outer)

abbrev pub show_interface : Interface → Text
show_interface f = spaces f.margin ++ (f.name ++ columns (columns_of f))

-- Seven columns stand between the two numbers, and there are eleven words at least.
pub record IsInterface (f : Interface) : Type 0 where
  pub name_word : IsWord f.name
  pub received_fits : f.received < 2 ^ 64
  pub inner_seven : length f.inner ≡ 7
  pub inner_words : All IsWord (words_of f.inner)
  pub sent_fits : f.sent < 2 ^ 64
  pub outer_some : 1 ≤ length f.outer
  pub outer_words : All IsWord (words_of f.outer)

-- A line in which no number is read: it is short, or its second word is no number.
abbrev pub IsHeading : Text → Type 0
IsHeading line =
    (length (split_whitespace line) ≤ 10) ⊎ (u64_item (get_elem? (split_whitespace line) 1) ≡ none)

abbrev pub received_total : List Interface → ℕ
received_total [] = 0
received_total (f ∷ fs) = f.received + received_total fs

abbrev pub sent_total : List Interface → ℕ
sent_total [] = 0
sent_total (f ∷ fs) = f.sent + sent_total fs

words_of-append : (xs ys : List (ℕ × Text)) → words_of (xs ++ ys) ≡ words_of xs ++ words_of ys
words_of-append [] ys = refl
words_of-append ((n, w) ∷ xs) ys = ap (λ l. w ∷ l) (words_of-append xs ys)

length-words_of : (xs : List (ℕ × Text)) → length (words_of xs) ≡ length xs
length-words_of [] = refl
length-words_of ((n, w) ∷ xs) = ap suc (length-words_of xs)

get_elem?-append : (xs ys : List Text) (y : Text) → get_elem? (xs ++ y ∷ ys) (length xs) ≡ some y
get_elem?-append [] ys y = refl
get_elem?-append (x ∷ xs) ys y = get_elem?-append xs ys y

module _ (f : Interface) (i : IsInterface f) where
  abbrev items : List Text
  items = f.name ∷ show f.received ∷ (words_of f.inner ++ show f.sent ∷ words_of f.outer)

  interface-items : split_whitespace (show_interface f) ≡ items
  interface-items =
      let e = words_of-append f.inner ((f.sent_gap, show f.sent) ∷ f.outer) in
      let tail : All IsWord (words_of f.inner ++ show f.sent ∷ words_of f.outer) =
        All-append IsWord (words_of f.inner) (show f.sent ∷ words_of f.outer) i.inner_words
          (show-IsWord f.sent, i.outer_words) in
      split_whitespace-line f.margin f.name (columns_of f) i.name_word
        (show-IsWord f.received, subst (All IsWord) (sym e) tail)
      ∙ ap (λ l. f.name ∷ show f.received ∷ l) e

  items-long : ltb 10 (length items) ≡ true
  items-long = ground (
    arith,
    i.inner_seven,
    i.outer_some,
    length-words_of f.inner,
    length-words_of f.outer,
    length-append (words_of f.inner) (show f.sent ∷ words_of f.outer),
  )

  item_9 : get_elem? items 9 ≡ some (show f.sent)
  item_9 =
      ap (λ n. get_elem? items (suc (suc n))) (sym (length-words_of f.inner ∙ i.inner_seven))
      ∙ get_elem?-append (words_of f.inner) (words_of f.outer) (show f.sent)

  interface-line :
      (a b : ℕ)
      → network_line (show_interface f) (a, b) ≡ (wrap64 (a + f.received), wrap64 (b + f.sent))
  unfolding network_line u64_item network_items
  interface-line a b =
      rw
        (
          network_line,
          interface-items,
          items-long,
          item_9,
          parse_u64-show f.received i.received_fits,
          parse_u64-show f.sent i.sent_fits,
        )
        refl

heading-line : (line : Text) (counts : ℕ × ℕ) → IsHeading line → network_line line counts ≡ counts
unfolding network_line network_items
heading-line line counts (inl h) =
    let short : ltb 10 (length (split_whitespace line)) ≡ false = ground (arith, h) in
    rw (network_line, short) refl
heading-line line counts (inr h) = elim (Bool-cases (ltb 10 (length (split_whitespace line)))) [
  | inl y ↦ rw (network_line, y, h) refl
  | inr n ↦ rw (network_line, n) refl
]

network_lines-interfaces :
    (fs : List Interface) (a b : ℕ)
    → a < 2 ^ 64
    → b < 2 ^ 64
    → All IsInterface fs
    → network_lines (map show_interface fs) (a, b)
      ≡ (wrap64 (a + received_total fs), wrap64 (b + sent_total fs))
unfolding network_lines
network_lines-interfaces [] a b ha hb _ =
    ap₂ (λ x y. (x, y)) (omega (arith, ha)) (omega (arith, hb))
network_lines-interfaces (f ∷ fs) a b ha hb (i, is) =
    ap (network_lines (map show_interface fs)) (interface-line f i a b)
    ∙ network_lines-interfaces fs (wrap64 (a + f.received)) (wrap64 (b + f.sent)) (omega arith)
        (omega arith) is
    ∙ ap₂ (λ x y. (x, y)) (omega arith) (omega arith)

network_lines-append :
    (heads rest : List Text) (counts : ℕ × ℕ)
    → All IsHeading heads
    → network_lines (heads ++ rest) counts ≡ network_lines rest counts
unfolding network_lines
network_lines-append [] rest counts _ = refl
network_lines-append (line ∷ heads) rest counts (h, hs) =
    ap (network_lines (heads ++ rest)) (heading-line line counts h)
    ∙ network_lines-append heads rest counts hs

-- Let the lines of the file be some headings, in which no number is read, and then a line for each
-- interface, as the kernel writes it: the name, the bytes received, seven other columns, the bytes
-- sent, and at least one further column, with any number of spaces before each, the two numbers
-- within 64 bits. Then the two results are the sums of the bytes received and of the bytes sent
-- over all interfaces, modulo 2^64.
pub get_network_io_counter-totals :
    (text : Text) (heads : List Text) (fs : List Interface)
    → All IsHeading heads
    → All IsInterface fs
    → lines text ≡ heads ++ map show_interface fs
    → get_network_io_counter (some text) ≡ (wrap64 (received_total fs), wrap64 (sent_total fs))
unfolding get_network_io_counter
get_network_io_counter-totals text heads fs h i e =
    ap (λ l. network_lines l (0, 0)) e
    ∙ network_lines-append heads (map show_interface fs) (0, 0) h
    ∙ network_lines-interfaces fs 0 0 (omega arith) (omega arith) i
    ∙ ap₂ (λ x y. (x, y)) (omega arith) (omega arith)
