-- ===== src/Mail/Pop.antt =====
-- `Vec::pop` as mail.rs uses it: it takes the last element.
use mathlib.Core.List.{reverse, reverse-cons}
use chimes_utils.Base.{◌≡◌, refl, ap, ◌∙◌, none, some, List, [], ◌∷◌, ◌++◌}
use chimes_utils.Mail.{EmailBody, pop}

pub pop-append : (es : List EmailBody) (e : EmailBody) → pop (es ++ (e ∷ [])) ≡ some (e, es)
unfolding pop
pop-append [] e = refl
pop-append (d ∷ es) e = rw (pop-append es e) refl

pub pop-reverse :
    (e : EmailBody) (es : List EmailBody) → pop (reverse (e ∷ es)) ≡ some (e, reverse es)
pop-reverse e es = ap pop (reverse-cons e es) ∙ pop-append (reverse es) e

pub data Popped (es : List EmailBody) : Type 0 where
  empty : es ≡ [] → pop es ≡ none → Popped es
  popped :
      (last : EmailBody) (rest : List EmailBody)
      → es ≡ rest ++ (last ∷ [])
      → pop es ≡ some (last, rest)
      → Popped es

pub pop-cases : (es : List EmailBody) → Popped es
unfolding pop
pop-cases [] = empty refl refl
pop-cases (e ∷ es) = elim (pop-cases es) [
  | empty h n ↦ popped e [] (ap (λ l. e ∷ l) h) (rw n refl)
  | popped last rest h n ↦ popped last (e ∷ rest) (ap (λ l. e ∷ l) h) (rw n refl)
]
