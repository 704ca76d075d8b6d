-- ===== src/Texts/Lines.antt =====
-- `text_insert_br` of src/utils/mod.rs against a join.
use chimes_utils.Base.{
  ℕ, suc, ◌+◌, ◌-◌, ◌≡◌, refl, sym, ap, ◌∙◌, true, false, some, List, [], ◌∷◌, ◌++◌, append_assoc,
  append-nil, length, join, ltb, arith,
}
use chimes_utils.Base.Text.{Text, codes}
use chimes_utils.Str.{lines}
use chimes_utils.Texts.{insert_br, text_insert_br}

insert_br_inner :
    (t u : Text) (rest : List Text) (len stx : ℕ) (newtext : Text)
    → ltb stx (len - 1) ≡ true
    → insert_br len stx (t ∷ u ∷ rest) newtext
      ≡ insert_br len (suc stx) (u ∷ rest) ((newtext ++ t) ++ codes "<br />")
unfolding insert_br
insert_br_inner t u rest len stx newtext f = rw f refl

-- The loop from index `stx` on, where `len` lines there are in all.
insert_br-join :
    (lst : List Text) (len stx : ℕ) (newtext : Text)
    → stx + length lst ≡ len
    → insert_br len stx lst newtext ≡ newtext ++ join (codes "<br />") lst
insert_br-join [] len stx newtext e = unfold insert_br in sym (append-nil newtext)
insert_br-join (t ∷ []) len stx newtext e =
    unfold insert_br in let f : ltb stx (len - 1) ≡ false = ground (arith, e) in rw f refl
insert_br-join (t ∷ u ∷ rest) len stx newtext e =
    let f : ltb stx (len - 1) ≡ true = ground (arith, e) in
    let l : suc stx + length (u ∷ rest) ≡ len = ground (arith, e) in
    insert_br_inner t u rest len stx newtext f
    ∙ insert_br-join (u ∷ rest) len (suc stx) ((newtext ++ t) ++ codes "<br />") l
    ∙ (simp append_assoc)

-- `text_insert_br` writes the lines of a text with `<br />` between any two of them and none
-- at the end.
pub text_insert_br-join :
    (text : Text) → text_insert_br (some text) ≡ some (join (codes "<br />") (lines text))
unfolding text_insert_br
text_insert_br-join text =
    ap some (insert_br-join (lines text) (length (lines text)) 0 [] (ground arith))
