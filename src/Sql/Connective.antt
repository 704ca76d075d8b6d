-- ===== src/Sql/Connective.antt =====
-- `and` and `or` of `DynamicWrapper`: no connective stands behind another.
use chimes_utils.Base.{
  ℕ, ◌≡◌, refl, ap, inl, inr, true, false, [], ◌∷◌, ◌++◌, append_assoc, Bool-cases, arith,
}
use chimes_utils.Base.Text.{Text, codes}
use chimes_utils.Str.{is_whitespace, trim_end, is_empty}
use chimes_utils.Str.Trim.{ends_with-append, trim_end-space, trim_end-last, is_empty-last}
use chimes_utils.Sql.Rbatis.{Rbatis}
use chimes_utils.Sql.Wrapper
use chimes_utils.Sql.Wrapper.{DynamicWrapper}

-- How a spaced word of `TEMPLATE` is made: `left` is the word behind a space and ends in a letter,
-- and `both` is `left` with one more space.
pub record IsSpaced (left both : Text) : Type 0 where
  pub stem : Text
  pub letter : ℕ
  pub word : left ≡ stem ++ letter ∷ []
  pub visible : is_whitespace letter ≡ false
  pub spaced : both ≡ left ++ codes " "

pub record HasConnectives (rb : Rbatis) : Type 0 where
  pub and_word : IsSpaced rb.template.and_left_space rb.template.and_left_right_space
  pub or_word : IsSpaced rb.template.or_left_space rb.template.or_left_right_space

module _ {left both : Text} (s : Text) (h : IsSpaced left both) where
  ends_in_letter : s ++ left ≡ (s ++ h.stem) ++ h.letter ∷ []
  ends_in_letter = rw (append_assoc s h.stem (h.letter ∷ [])) (ap (λ t. s ++ t) h.word)

  -- A text that ends in a spaced word is trimmed to end in the word.
  trim_end-spaced : trim_end (s ++ both) ≡ s ++ left
  unfolding is_whitespace
  trim_end-spaced =
      rw (h.spaced, ← append_assoc s left (codes " "), trim_end-space (s ++ left) 32 refl)
        (rw ends_in_letter (trim_end-last (s ++ h.stem) h.letter h.visible))

  is_empty-spaced : is_empty (s ++ left) ≡ false
  is_empty-spaced = rw ends_in_letter (is_empty-last (s ++ h.stem) h.letter)

pub data Link : Type 0 where
  conjunction disjunction : Link

module _ (rb : Rbatis) where
  abbrev pub link : Link → DynamicWrapper rb.Bson → DynamicWrapper rb.Bson
  link conjunction w = Wrapper.and rb w
  link disjunction w = Wrapper.or rb w

  abbrev word_left : Link → Text
  word_left conjunction = rb.template.and_left_space
  word_left disjunction = rb.template.or_left_space

  abbrev word_both : Link → Text
  word_both conjunction = rb.template.and_left_right_space
  word_both disjunction = rb.template.or_left_right_space

  ends_open-word : (l : Link) (s : Text) → Wrapper.ends_open rb (s ++ word_left l) ≡ true
  unfolding Wrapper.ends_open
  ends_open-word conjunction s = ground (arith, ends_with-append s rb.template.and_left_space)
  ends_open-word disjunction s = ground (arith, ends_with-append s rb.template.or_left_space)

  module _ (h : HasConnectives rb) where
    word-IsSpaced : (l : Link) → IsSpaced (word_left l) (word_both l)
    word-IsSpaced conjunction = h.and_word
    word-IsSpaced disjunction = h.or_word

    -- Behind a connective nothing may be linked.
    pub not_allow-word :
        (l : Link) (w : DynamicWrapper rb.Bson) (s : Text)
        → w.sql ≡ s ++ word_both l
        → Wrapper.not_allow_add_and_on_end rb w ≡ true
    unfolding Wrapper.not_allow_add_and_on_end
    not_allow-word l w s e =
        rw (e, trim_end-spaced s (word-IsSpaced l), is_empty-spaced s (word-IsSpaced l))
          (ends_open-word l s)

    link_blocked :
        (l : Link) (w : DynamicWrapper rb.Bson)
        → Wrapper.not_allow_add_and_on_end rb w ≡ true
        → link l w ≡ w
    unfolding Wrapper.and Wrapper.or
    link_blocked conjunction w e = rw e
    link_blocked disjunction w e = rw e

    link_open :
        (l : Link) (w : DynamicWrapper rb.Bson)
        → Wrapper.not_allow_add_and_on_end rb w ≡ false
        → link l w ≡ Wrapper.push_sql rb w (word_both l)
    unfolding Wrapper.and Wrapper.or
    link_open conjunction w e = rw e
    link_open disjunction w e = rw e

    -- A connective that follows a connective adds nothing, whichever of `and` and `or` they are.
    pub link-link : (l m : Link) (w : DynamicWrapper rb.Bson) → link m (link l w) ≡ link l w
    unfolding Wrapper.push_sql
    link-link l m w = elim (Bool-cases (Wrapper.not_allow_add_and_on_end rb w)) [
      | inl e ↦ rw (link_blocked l w e) (link_blocked m w e)
      | inr e ↦ rw (link_open l w e) (link_blocked m _ (not_allow-word l _ w.sql refl))
    ]
