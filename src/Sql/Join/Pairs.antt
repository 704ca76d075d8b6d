-- ===== src/Sql/Join/Pairs.antt =====
-- `all_eq` of rbatis_dynamical.rs against `join`: the word that its loop puts between two pairs keeps
-- `eq` from linking them once more.
use chimes_utils.Base.{
  ℕ, ◌+◌, ◌≡◌, refl, sym, ap, ap₂, ◌∙◌, inl, inr, true, false, some, List, [], ◌∷◌, ◌++◌,
  append_assoc, map, length, length-append, join, ◌==◌, ==_iff, Bool-cases, if◌then◌else◌, arith,
}
use chimes_utils.Base.Text.{Text, codes}
use chimes_utils.Str.{is_whitespace, trim_end, is_empty, ends_with}
use chimes_utils.Str.Trim.{ends_with-append, trim_end-last, trim_end-space, is_empty-last}
use chimes_utils.Sql.Rbatis.{Rbatis}
use chimes_utils.Sql.Wrapper
use chimes_utils.Sql.Wrapper.{DynamicWrapper, push_all}
use chimes_utils.Sql.Condition

module _ (rb : Rbatis) where
  abbrev W : Type 0
  W = DynamicWrapper rb.Bson

  -- Behind such a text `and` writes nothing.
  abbrev IsBlocked : Text → Type 0
  IsBlocked s = (if is_empty (trim_end s) then true else Wrapper.ends_open rb (trim_end s)) ≡ true

  abbrev with_text : W → Text → List rb.Bson → W
  with_text w s a = record w { sql = s; args = a }

  -- A pair as `eq` writes it at the `n`-th argument.
  abbrev pub pair_text : W → ℕ → Text × rb.Bson → Text
  pair_text w n (k, v) =
      k ++ (codes " = " ++ Condition.do_format_column rb w k (rb.stmt_convert w.driver_type n))

  abbrev pub pair_texts : W → ℕ → List (Text × rb.Bson) → List Text
  pair_texts w n [] = []
  pair_texts w n (p ∷ ps) = pair_text w n p ∷ pair_texts w (n + 1) ps

  abbrev pub values : List (Text × rb.Bson) → List rb.Bson
  values ps = map (λ (p : Text × rb.Bson). p.1) ps

  and_blocked :
      (w : W) (s : Text) (a : List rb.Bson)
      → IsBlocked s
      → Wrapper.and rb (with_text w s a) ≡ with_text w s a
  unfolding Wrapper.and Wrapper.not_allow_add_and_on_end
  and_blocked w s a h = rw h refl

  eq_blocked :
      (w : W) (s : Text) (a : List rb.Bson) (k : Text) (v : rb.Bson)
      → IsBlocked s
      → Condition.eq rb (with_text w s a) k v
        ≡ with_text w (s ++ pair_text w (length a) (k, v)) (a ++ v ∷ [])
  unfolding Condition.eq Condition.compare_column Condition.convert_column
      Condition.do_format_column push_all
  eq_blocked w s a k v h =
      rw (and_blocked w s a h) (ap (λ t. with_text w t (a ++ v ∷ [])) (simp append_assoc))

  bracket-IsBlocked : (s : Text) → IsBlocked (s ++ codes "(")
  unfolding is_whitespace Wrapper.ends_open
  bracket-IsBlocked s =
      rw (trim_end-last s 40 refl, is_empty-last s 40)
        (ground (arith, ends_with-append s (codes "(")))

  word-IsBlocked :
      (s : Text) → rb.template.and_left_space ≡ codes " and" → IsBlocked (s ++ codes " and ")
  unfolding is_whitespace Wrapper.ends_open
  word-IsBlocked s e =
      let ends_d : s ++ codes " and" ≡ (s ++ codes " an") ++ 100 ∷ [] =
        sym (append_assoc s (codes " an") (100 ∷ [])) in
      let trimmed : trim_end (s ++ codes " and ") ≡ s ++ codes " and" =
        ap trim_end (sym (append_assoc s (codes " and") (codes " ")))
        ∙ trim_end-space (s ++ codes " and") 32 refl
        ∙ ap trim_end ends_d
        ∙ trim_end-last (s ++ codes " an") 100 refl
        ∙ sym ends_d in
      let visible : is_empty (s ++ codes " and") ≡ false =
        ap is_empty ends_d ∙ is_empty-last (s ++ codes " an") 100 in
      rw (trimmed, visible)
        (ground
          (arith, ap (λ p. ends_with (s ++ codes " and") p) e ∙ ends_with-append s (codes " and")))

  eq_pairs_step :
      (w : W) (len index : ℕ) (p q : Text × rb.Bson) (ps : List (Text × rb.Bson))
      → (index + 1 == len) ≡ false
      → Condition.eq_pairs rb w len index (p ∷ q ∷ ps) ≡ (
          let u = Condition.eq rb w p.0 p.1 in
          Condition.eq_pairs rb
            (record u { sql = u.sql ++ codes " and " })
            len
            (index + 1)
            (q ∷ ps))
  unfolding Condition.eq_pairs
  eq_pairs_step w len index (k, v) q ps more = rw (more, Condition.eq_pairs) refl

  -- The loop, from a text behind which nothing is linked.
  eq_pairs-join :
      (ps : List (Text × rb.Bson)) (p : Text × rb.Bson) (w : W) (s : Text) (a : List rb.Bson)
      (len index : ℕ)
      → rb.template.and_left_space ≡ codes " and"
      → IsBlocked s
      → index + length (p ∷ ps) ≡ len
      → Condition.eq_pairs rb (with_text w s a) len index (p ∷ ps)
        ≡ with_text w
            (s ++ join (codes " and ") (pair_texts w (length a) (p ∷ ps)))
            (a ++ values (p ∷ ps))
  unfolding Condition.eq_pairs
  eq_pairs-join [] (k, v) w s a len index e b h =
      rw ((==_iff (index + 1) len).1 (omega arith), Condition.eq_pairs) (eq_blocked w s a k v b)
  eq_pairs-join (q ∷ ps) (k, v) w s a len index e b h = elim (Bool-cases (index + 1 == len)) [
    | inl same ↦ absurd (ground arith)
    | inr more ↦
        let t = s ++ pair_text w (length a) (k, v) in
        eq_pairs_step (with_text w s a) len index (k, v) q ps more
        ∙ ap
            (λ (u : W).
              Condition.eq_pairs rb (record u { sql = u.sql ++ codes " and " }) len (index + 1)
                (q ∷ ps))
            (eq_blocked w s a k v b)
        ∙ eq_pairs-join ps q w (t ++ codes " and ") (a ++ v ∷ []) len (index + 1) e
            (word-IsBlocked t e) (omega arith)
        ∙ ap₂ (with_text w)
            (ap (λ n. (t ++ codes " and ") ++ join (codes " and ") (pair_texts w n (q ∷ ps)))
                (length-append a (v ∷ []))
              ∙ simp append_assoc)
            (append_assoc a (v ∷ []) (values (q ∷ ps)))
  ]

  -- On a document with pairs, `all_eq` writes them in brackets, joined by the word `and`, behind what
  -- `and` makes of the text so far: each is the key, ` = ` and the placeholder of the next argument, in
  -- the order of the document. The arguments are the values in that order, and nothing else changes.
  -- The word `and` of `TEMPLATE` is as rbatis gives it.
  pub all_eq-join :
      (w : W) (arg : rb.Bson) (p : Text × rb.Bson) (ps : List (Text × rb.Bson))
      → rb.template.and_left_space ≡ codes " and"
      → rb.is_null arg ≡ false
      → rb.is_object arg ≡ true
      → rb.as_document arg ≡ some (p ∷ ps)
      → let w' = Wrapper.and rb w in
        Condition.all_eq rb w arg
        ≡ some (record w' {
          sql =
              w'.sql
              ++ (codes "("
                  ++ (join (codes " and ") (pair_texts w' (length w'.args) (p ∷ ps)) ++ codes ")"));
          args = w'.args ++ values (p ∷ ps);
        })
  unfolding Condition.all_eq
  all_eq-join w arg p ps e n o d =
      let w' = Wrapper.and rb w in
      rw (n, o, d)
        (ap (λ (u : W). some (record u { sql = u.sql ++ codes ")" }))
            (eq_pairs-join ps p w' (w'.sql ++ codes "(") w'.args (length (p ∷ ps)) 0 e
              (bracket-IsBlocked w'.sql) (omega arith))
          ∙ ap (λ t. some (with_text w' t (w'.args ++ values (p ∷ ps)))) (simp append_assoc))
