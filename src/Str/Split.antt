-- ===== src/Str/Split.antt =====
-- Splitting a text: the parts against the separators, and joining them again.
use chimes_utils.Base.{
  ℕ, suc, ◌≡◌, refl, sym, ap, ap₂, ◌∙◌, inl, inr, true, false, List, [], ◌∷◌, length, join, All,
  ◌==◌, ==_iff, Bool-cases, arith,
}
use chimes_utils.Base.Text.{Text, Lacks}
use chimes_utils.Str.{split, onto_first}
use chimes_utils.Str.Marks.{count}

length-onto_first :
    (c : ℕ) (p : Text) (ps : List Text) → length (onto_first c (p ∷ ps)) ≡ length (p ∷ ps)
unfolding onto_first
length-onto_first c p ps = refl

-- A split has a first part.
pub split-cons : (s : Text) (sep : ℕ) → (p : Text) × (ps : List Text) × (split s sep ≡ p ∷ ps)
unfolding split
split-cons [] sep = ([], [], refl)
split-cons (c ∷ s) sep =
    let (p, ps, e) = split-cons s sep in
    elim (Bool-cases (c == sep)) [
      | inl h ↦ ([], split s sep, rw h)
      | inr h ↦ (c ∷ p, ps, rw (h, e))
    ]

-- There is one part more than there are separators.
pub length-split : (s : Text) (sep : ℕ) → length (split s sep) ≡ suc (count sep s)
unfolding split count
length-split [] sep = refl
length-split (c ∷ s) sep =
    let (p, ps, e) = split-cons s sep in
    elim (Bool-cases (c == sep)) [
      | inl h ↦ rw h (ground (arith, length-split s sep))
      | inr h ↦ rw (h, e) (ground (arith, length-split s sep, ap (λ (l : List Text). length l) e))
    ]

-- No part holds the separator.
pub split-Lacks : (s : Text) (sep : ℕ) → All (Lacks sep) (split s sep)
unfolding split
split-Lacks [] sep = (tt, tt)
split-Lacks (c ∷ s) sep =
    let (p, ps, e) = split-cons s sep in
    let ih = split-Lacks s sep in
    elim (Bool-cases (c == sep)) [
      | inl h ↦ rw h (tt, ih)
      | inr h ↦ rw (h, e) (let ih' = rw e at ih in ((ground arith, ih'.0), ih'.1))
    ]

join-onto_first :
    (sep c : ℕ) (p : Text) (ps : List Text)
    → join (sep ∷ []) (onto_first c (p ∷ ps)) ≡ c ∷ join (sep ∷ []) (p ∷ ps)
unfolding onto_first
join-onto_first sep c p [] = refl
join-onto_first sep c p (q ∷ ps) = refl

join_empty_first :
    (sep : ℕ) (p : Text) (ps : List Text)
    → join (sep ∷ []) ([] ∷ p ∷ ps) ≡ sep ∷ join (sep ∷ []) (p ∷ ps)
join_empty_first sep p ps = refl

pub split_at : (s : Text) (sep c : ℕ) → (c == sep) ≡ true → split (c ∷ s) sep ≡ [] ∷ split s sep
unfolding split
split_at s sep c h = rw h

pub split_past :
    (s : Text) (sep c : ℕ) → (c == sep) ≡ false → split (c ∷ s) sep ≡ onto_first c (split s sep)
unfolding split
split_past s sep c h = rw h

-- The parts joined by the separator are the text again.
pub join-split : (s : Text) (sep : ℕ) → join (sep ∷ []) (split s sep) ≡ s
join-split [] sep = unfold split in refl
join-split (c ∷ s) sep =
    let (p, ps, e) = split-cons s sep in
    let ih : join (sep ∷ []) (p ∷ ps) ≡ s = rw e at (join-split s sep) in
    elim (Bool-cases (c == sep)) [
      | inl h ↦
          ap (λ l. join (sep ∷ []) l) (split_at s sep c h ∙ ap (λ l. [] ∷ l) e)
          ∙ join_empty_first sep p ps
          ∙ ap₂ (λ (d : ℕ) (t : Text). d ∷ t) (sym ((==_iff c sep).0 h)) ih
      | inr h ↦
          ap (λ l. join (sep ∷ []) l) (split_past s sep c h ∙ ap (onto_first c) e)
          ∙ join-onto_first sep c p ps
          ∙ ap (λ t. c ∷ t) ih
    ]
