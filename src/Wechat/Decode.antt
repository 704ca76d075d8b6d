-- ===== src/Wechat/Decode.antt =====
-- What `json_decode` of src/wechat/mod.rs lets through.
use chimes_utils.Base.{◌≡◌, ◌↔◌, inl, inr, true, Option, none, some, Option-cases, arith}
use chimes_utils.Base.Text.{Text}
use chimes_utils.Base.Int.{ℤ, pos, negsuc}
use chimes_utils.Wechat.{Answer, ok, err, panicked, Json, code_of, check_code, json_decode}

-- A value that an answer carries.
abbrev pub answered : {F A : Type 0} → Answer F A → Option A
answered (ok a) = some a
answered (err e) = none
answered panicked = none

module _ (json : Json) (Io E : Type 0) where
  abbrev pub passes : Text → Option json.Value
  passes d = answered (json_decode json Io E d)

  check_code-answered :
      (c : ℤ) (obj v : json.Value)
      → (answered (check_code json Io E c obj) ≡ some v) ↔ ((c ≡ pos 0) × (obj ≡ v))
  unfolding check_code
  check_code-answered (pos n) obj v = ground arith
  check_code-answered (negsuc n) obj v = ground arith

  -- `json_decode` gives a value exactly if the text is that value, the value is an object, and its
  -- code, `errcode` or else `code`, is 0 or no number.
  pub json_decode-code_of :
      (d : Text) (v : json.Value)
      → (passes d ≡ some v)
        ↔ ((json.from_str d ≡ some v) × (json.is_object v ≡ true) × (code_of json Io E v ≡ pos 0))
  unfolding json_decode
  json_decode-code_of d v = elim (Option-cases (json.from_str d)) [
    | inl n ↦ rw (json_decode, n) (ground arith)
    | inr (obj, s) ↦
        rw (json_decode, s) (ground (arith, check_code-answered (code_of json Io E obj) obj v))
  ]
