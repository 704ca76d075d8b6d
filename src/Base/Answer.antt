-- ===== src/Base/Answer.antt =====
-- What a fallible Rust function gives: a value, an error, or a panic.

pub data Answer (F A : Type 0) : Type 0 where
  ok : A → Answer F A
  err : F → Answer F A
  panicked : Answer F A

-- `map` on the value, and the `?` operator.
module _ {E A B : Type 0} where
  abbrev pub map_ok : (A → B) → Answer E A → Answer E B
  map_ok f (ok a) = ok (f a)
  map_ok f (err e) = err e
  map_ok f panicked = panicked

  abbrev pub and_then : Answer E A → (A → Answer E B) → Answer E B
  and_then (ok a) f = f a
  and_then (err e) f = err e
  and_then panicked f = panicked
