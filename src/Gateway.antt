-- ===== src/Gateway.antt =====
-- The proxies that src/utils/gpt_sdk.rs keeps for each application, a static map behind a mutex that one
-- function locks. The types of `load_avg` and `living_time` are parameters.
pub mod Distinct
pub mod Register
pub mod Health
pub mod Answers
pub mod Reports
pub mod Schedule
mod Tests
use chimes_utils.Base.{
  ℕ, Bool, true, false, ◌&&◌, ◌||◌, Option, none, some, List, [], ◌∷◌, ◌++◌, if◌then◌else◌,
}
use chimes_utils.Base.Text.{Text, text_eq}
use chimes_utils.Base.Dict
use chimes_utils.Base.Dict.{Dict}

module _ (F64 DateTimeNative : Type 0) where
  pub record GatewayProxyInfo : Type 0 where
    pub app_id : Option Text
    pub app_name : Option Text
    pub proxy_address : Option Text
    pub rewrite_url : Option Bool
    pub echo_text : Option Text
    pub proxy_prefix : Option Text
    pub proxy_token : Option Text
    pub load_avg : Option F64
    pub load_count : Option ℕ
    pub health_status : Option ℕ
    pub living_time : Option DateTimeNative

  pub record GatewayProxyManagement : Type 0 where
    pub app_name : Text
    pub proxy_list : List GatewayProxyInfo

-- `==` on `Option<String>`.
unfoldable pub option_eq : Option Text → Option Text → Bool
option_eq none none = true
option_eq none (some t) = false
option_eq (some s) none = false
option_eq (some s) (some t) = text_eq s t

module _ {F64 DateTimeNative : Type 0} where
  unfoldable pub is_same :
      GatewayProxyInfo F64 DateTimeNative → GatewayProxyInfo F64 DateTimeNative → Bool
  unfolding option_eq
  is_same bit dt =
      option_eq bit.app_name dt.app_name && option_eq bit.proxy_address dt.proxy_address

  -- The loop over the list: every proxy with the name and the address is updated.
  unfoldable pub update_each :
      GatewayProxyInfo F64 DateTimeNative
      → List (GatewayProxyInfo F64 DateTimeNative)
      → List (GatewayProxyInfo F64 DateTimeNative)
  unfolding is_same
  update_each dt [] = []
  update_each dt (bit ∷ rest) =
      (if is_same bit dt
        then record bit {
          health_status = dt.health_status;
          load_avg = dt.load_avg;
          proxy_token = dt.proxy_token;
        }
        else bit)
      ∷ update_each dt rest

  -- `found` after the loop.
  unfoldable pub is_found :
      GatewayProxyInfo F64 DateTimeNative → List (GatewayProxyInfo F64 DateTimeNative) → Bool
  unfolding is_same
  is_found dt [] = false
  is_found dt (bit ∷ rest) = is_same bit dt || is_found dt rest

  unfoldable pub insert_or_update_proxy_info :
      GatewayProxyInfo F64 DateTimeNative
      → List (GatewayProxyInfo F64 DateTimeNative)
      → List (GatewayProxyInfo F64 DateTimeNative)
  unfolding update_each is_found
  insert_or_update_proxy_info dt proxy_list =
      if is_found dt proxy_list
      then update_each dt proxy_list
      else update_each dt proxy_list ++ dt ∷ []

  abbrev pub name_of : GatewayProxyInfo F64 DateTimeNative → Text
  name_of dt = elim dt.app_name [ none ↦ [] | some name ↦ name ]

  unfoldable pub add_proxy_info :
      GatewayProxyInfo F64 DateTimeNative
      → Dict (GatewayProxyManagement F64 DateTimeNative)
      → Dict (GatewayProxyManagement F64 DateTimeNative)
  unfolding insert_or_update_proxy_info
  add_proxy_info dt proxy_map = elim (Dict.get (name_of dt) proxy_map) [
    | none ↦
        Dict.insert (name_of dt) (record { app_name = name_of dt; proxy_list = dt ∷ [] }) proxy_map
    | some g ↦
        Dict.insert (name_of dt)
          (record g { proxy_list = insert_or_update_proxy_info dt g.proxy_list }) proxy_map
  ]
