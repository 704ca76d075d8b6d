-- ===== src/Script.antt =====
-- The script engine of src/utils/script_engine.rs: the Base64 functions and the translation that it
-- offers to scripts, and the evaluation of scripts and templates. The crates base64, rhai and tera are
-- parameters.
pub mod Laws
mod Tests
use chimes_utils.Base.{
  ℕ, Bool, true, false, ◌⊎◌, inl, inr, Option, none, some, List, [], ◌∷◌, ◌++◌, if◌then◌else◌,
}
use chimes_utils.Base.Text.{Text, codes}
use chimes_utils.Base.Int.{pos}
use chimes_utils.Base.Answer.{Answer, ok, err}
use chimes_utils.Errors.{ChimesError, error_custom}
use chimes_utils.Str.{replace}

-- One alphabet of the crate base64, with or without padding; an error is given as it is printed.
pub record Base64Engine (Bytes : Type 0) : Type 0 where
  pub decode : Text → Text ⊎ Bytes
  pub encode : Bytes → Text

pub record Base64 : Type 1 where
  pub Bytes : Type 0
  pub url_safe_no_pad : Base64Engine Bytes
  pub url_safe : Base64Engine Bytes
  pub standard_no_pad : Base64Engine Bytes
  pub standard : Base64Engine Bytes
  -- the empty vector
  pub no_bytes : Bytes

module _ (base64 : Base64) (Io E : Type 0) where
  abbrev pub Result : Type 0 → Type 0
  Result A = Answer (ChimesError Io E) A

  -- The second try, whose error is the one that is given.
  unfoldable pub last_try : Text ⊎ base64.Bytes → Result base64.Bytes
  last_try (inr vs) = ok vs
  last_try (inl e) = err (error_custom (pos 100010) e)

  unfoldable pub first_try : Text ⊎ base64.Bytes → Text ⊎ base64.Bytes → Result base64.Bytes
  unfolding last_try
  first_try (inr vs) second = ok vs
  first_try (inl e) second = last_try second

  unfoldable pub base64_decode : Text → Bool → Result base64.Bytes
  unfolding first_try
  base64_decode base urlsafe =
      let newt = replace base (codes "\n") [] in
      if urlsafe
      then first_try (base64.url_safe_no_pad.decode newt) (base64.url_safe.decode newt)
      else first_try (base64.standard_no_pad.decode newt) (base64.standard.decode newt)

  unfoldable pub base64_encode : base64.Bytes → Text
  base64_encode content = base64.standard.encode content

  -- The functions `base64_decode_std` and `base64_decode_url` of a script: an error is no bytes.
  unfoldable pub decode_or_empty : Result base64.Bytes → base64.Bytes
  decode_or_empty (ok ts) = ts
  decode_or_empty _ = base64.no_bytes

  unfoldable pub base64_decode_std : Text → base64.Bytes
  unfolding base64_decode decode_or_empty
  base64_decode_std content = decode_or_empty (base64_decode content false)

  unfoldable pub base64_decode_url : Text → base64.Bytes
  unfolding base64_decode decode_or_empty
  base64_decode_url content = decode_or_empty (base64_decode content true)

-- The translation that is in force: `h`. Reloading answers whether it succeeds.
pub record Translation : Type 0 where
  pub translate : Text → Text → Text
  pub reload_all_dicts : Bool

abbrev pub dummy : Translation
dummy = record { translate = λ name val. []; reload_all_dicts = true }

unfoldable pub set_translate_dict_fn : Translation → Translation → Translation
set_translate_dict_fn func current = func

unfoldable pub translate_dict_fn : Translation → Text → Text → Text
translate_dict_fn current name val = current.translate name val

-- rhai and tera. What a script can call is fixed when the engine is built; `current` is the
-- translation then in force. Errors are given as they are printed.
pub record Engines : Type 1 where
  pub Json : Type 0
  pub Scope : Type 0
  pub new_scope : Scope
  -- `parse_json` of the context; `none` is an error
  pub parse_json : Json → Option Scope
  pub eval_with_scope : Translation → Scope → Text → Text ⊎ Text
  pub Tera : Type 0
  pub Context : Type 0
  pub tera_new : Option Tera
  pub tera_default : Tera
  pub from_serialize : Json → Option Context
  pub context_new : Context
  pub render_str : Tera → Text → Context → Text ⊎ Text

module _ (engines : Engines) (Io E : Type 0) where
  unfoldable pub evaluated : Text ⊎ Text → Answer (ChimesError Io E) Text
  evaluated (inr t) = ok t
  evaluated (inl e) = err (error_custom (pos 210) e)

  -- A context that cannot be read is left out, and the script is run without it.
  unfoldable pub script_eval : Translation → Text → engines.Json → Answer (ChimesError Io E) Text
  unfolding evaluated
  script_eval current script ctx =
      let scope : engines.Scope = elim (engines.parse_json ctx) [
        | none ↦ engines.new_scope
        | some s ↦ s
      ] in
      evaluated (engines.eval_with_scope current scope script)

  unfoldable pub rendered : Text ⊎ Text → Answer (ChimesError Io E) Text
  rendered (inr text) = ok text
  rendered (inl e) = err (error_custom (pos 410) e)

  unfoldable pub template_eval : Text → engines.Json → Answer (ChimesError Io E) Text
  unfolding rendered
  template_eval script ctx =
      let tera : engines.Tera = elim engines.tera_new [
        | none ↦ engines.tera_default
        | some t ↦ t
      ] in
      let context : engines.Context = elim (engines.from_serialize ctx) [
        | none ↦ engines.context_new
        | some c ↦ c
      ] in
      rendered (engines.render_str tera script context)
