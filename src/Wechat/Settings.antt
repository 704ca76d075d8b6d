-- ===== src/Wechat/Settings.antt =====
-- What the two readings of settings in src/wechat/mod.rs can give.
use mathlib.Core.Option.{some-injective}
use chimes_utils.Base.{sym, ◌≡◌, Option, none, some, List, [], ◌∷◌}
use chimes_utils.Base.Text.{Text}
use chimes_utils.Wechat.{
  WechatConfig, default, File, not_opened, not_read, contents, after_docs, load_yaml,
}
use chimes_utils.Wechat.Decode.{answered}

module _ {Doc : Type 0} (load_from_str : Text → Option (List Doc)) (Io E : Type 0) where
  after_docs-default :
      (docs : Option (List Doc)) (c : WechatConfig)
      → answered (after_docs load_from_str Io E docs) ≡ some c
      → c ≡ default
  unfolding after_docs
  after_docs-default none c h = cc h
  after_docs-default (some []) c h = cc h
  after_docs-default (some (doc ∷ docs)) c h = sym (some-injective default c h)

  -- Whatever a settings file holds, `load_yaml` gives the default settings if it gives any.
  pub load_yaml-default :
      (file : File) (c : WechatConfig)
      → answered (load_yaml load_from_str Io E file) ≡ some c
      → c ≡ default
  unfolding load_yaml
  load_yaml-default (not_opened e) c h = cc h
  load_yaml-default (not_read e) c h = cc h
  load_yaml-default (contents s) c h = after_docs-default (load_from_str s) c h
