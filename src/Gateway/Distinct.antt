-- ===== src/Gateway/Distinct.antt =====
-- The registry of src/utils/gpt_sdk.rs lists no proxy twice, and what was added last is in it.
use mathlib.Core.Option.{some-injective}
use chimes_utils.Base.{
  ◌≡◌, ◌⊎◌, refl, ◌∙◌, inl, inr, true, false, Option, none, some, List, [], ◌∷◌, ◌++◌, All,
  if◌then◌else◌, Bool-cases, Option-cases, subst, arith,
}
use chimes_utils.Base.Text.{Text, text_eq, text_eq_iff, text_eq_refl}
use chimes_utils.Base.Dict
use chimes_utils.Base.Dict.{Dict, get-insert, get-insert_self}
use chimes_utils.Gateway.{
  GatewayProxyInfo, GatewayProxyManagement, option_eq, is_same, update_each, is_found,
  insert_or_update_proxy_info, name_of, add_proxy_info,
}

text_eq_sym : (s t : Text) → text_eq s t ≡ text_eq t s
text_eq_sym s t = ground (arith, text_eq_iff s t, text_eq_iff t s)

option_eq_sym : (s t : Option Text) → option_eq s t ≡ option_eq t s
unfolding option_eq
option_eq_sym none none = refl
option_eq_sym none (some t) = refl
option_eq_sym (some s) none = refl
option_eq_sym (some s) (some t) = text_eq_sym s t

option_eq_refl : (s : Option Text) → option_eq s s ≡ true
unfolding option_eq
option_eq_refl none = refl
option_eq_refl (some s) = text_eq_refl s

module _ {F64 DateTimeNative : Type 0} where
  -- No proxy of the list has the name and address of `dt`.
  abbrev pub Absent :
      GatewayProxyInfo F64 DateTimeNative → List (GatewayProxyInfo F64 DateTimeNative) → Type 0
  Absent dt = All (λ bit. is_same bit dt ≡ false)

  abbrev pub IsDistinct : List (GatewayProxyInfo F64 DateTimeNative) → Type 0
  IsDistinct [] = Unit
  IsDistinct (bit ∷ rest) = Absent bit rest × IsDistinct rest

  is_same_sym : (a b : GatewayProxyInfo F64 DateTimeNative) → is_same a b ≡ is_same b a
  unfolding is_same
  is_same_sym a b =
      rw (option_eq_sym a.app_name b.app_name, option_eq_sym a.proxy_address b.proxy_address) refl

  update_each-Absent :
      (dt x : GatewayProxyInfo F64 DateTimeNative) (l : List (GatewayProxyInfo F64 DateTimeNative))
      → Absent x l
      → Absent x (update_each dt l)
  unfolding update_each
  update_each-Absent dt x [] h = tt
  update_each-Absent dt x (bit ∷ rest) (h, hs) =
      (ground (arith, h), update_each-Absent dt x rest hs)

  -- An update of a proxy keeps its name and address.
  stays :
      (dt bit : GatewayProxyInfo F64 DateTimeNative)
      (l : List (GatewayProxyInfo F64 DateTimeNative))
      → Absent bit l
      → Absent
          (if is_same bit dt
            then record bit {
              health_status = dt.health_status;
              load_avg = dt.load_avg;
              proxy_token = dt.proxy_token;
            }
            else bit)
          l
  unfolding is_same
  stays dt bit l h = elim (Bool-cases (is_same bit dt)) [
    | inl e ↦ rw (is_same, e) h
    | inr e ↦ rw (is_same, e) h
  ]

  update_each-IsDistinct :
      (dt : GatewayProxyInfo F64 DateTimeNative) (l : List (GatewayProxyInfo F64 DateTimeNative))
      → IsDistinct l
      → IsDistinct (update_each dt l)
  unfolding update_each
  update_each-IsDistinct dt [] h = tt
  update_each-IsDistinct dt (bit ∷ rest) (h, hs) = (
    stays dt bit (update_each dt rest) (update_each-Absent dt bit rest h),
    update_each-IsDistinct dt rest hs,
  )

  is_found-Absent :
      (dt : GatewayProxyInfo F64 DateTimeNative) (l : List (GatewayProxyInfo F64 DateTimeNative))
      → is_found dt l ≡ false
      → Absent dt l
  unfolding is_found
  is_found-Absent dt [] h = tt
  is_found-Absent dt (bit ∷ rest) h =
      (ground (arith, h), is_found-Absent dt rest (ground (arith, h)))

  Absent-append :
      (x dt : GatewayProxyInfo F64 DateTimeNative) (l : List (GatewayProxyInfo F64 DateTimeNative))
      → Absent x l
      → is_same dt x ≡ false
      → Absent x (l ++ (dt ∷ []))
  Absent-append x dt [] h n = (n, tt)
  Absent-append x dt (bit ∷ rest) (h, hs) n = (h, Absent-append x dt rest hs n)

  append-IsDistinct :
      (dt : GatewayProxyInfo F64 DateTimeNative) (l : List (GatewayProxyInfo F64 DateTimeNative))
      → IsDistinct l
      → Absent dt l
      → IsDistinct (l ++ (dt ∷ []))
  append-IsDistinct dt [] h n = (tt, tt)
  append-IsDistinct dt (bit ∷ rest) (h, hs) (n, ns) =
      (Absent-append bit dt rest h (is_same_sym dt bit ∙ n), append-IsDistinct dt rest hs ns)

  insert_or_update_proxy_info-IsDistinct :
      (dt : GatewayProxyInfo F64 DateTimeNative) (l : List (GatewayProxyInfo F64 DateTimeNative))
      → IsDistinct l
      → IsDistinct (insert_or_update_proxy_info dt l)
  unfolding insert_or_update_proxy_info
  insert_or_update_proxy_info-IsDistinct dt l h =
      let u = update_each-IsDistinct dt l h in
      elim (Bool-cases (is_found dt l)) [
        | inl e ↦ rw (insert_or_update_proxy_info, e) u
        | inr e ↦
            rw (insert_or_update_proxy_info, e)
              (append-IsDistinct dt (update_each dt l) u
                (update_each-Absent dt dt l (is_found-Absent dt l e)))
      ]

  -- What is reported of the proxy stands in the list, under its name and address.
  abbrev pub Reports :
      GatewayProxyInfo F64 DateTimeNative → List (GatewayProxyInfo F64 DateTimeNative) → Type 0
  Reports dt [] = ⊥
  Reports dt (bit ∷ rest) =
      ((is_same bit dt ≡ true)
        × (bit.health_status ≡ dt.health_status)
        × (bit.load_avg ≡ dt.load_avg)
        × (bit.proxy_token ≡ dt.proxy_token))
      ⊎ Reports dt rest

  -- The list of every application lists no name and address twice.
  abbrev pub IsRegistry : Dict (GatewayProxyManagement F64 DateTimeNative) → Type 0
  IsRegistry m =
      (key : Text) (g : GatewayProxyManagement F64 DateTimeNative)
      → Dict.get key m ≡ some g
      → IsDistinct g.proxy_list

  is_same_refl : (dt : GatewayProxyInfo F64 DateTimeNative) → is_same dt dt ≡ true
  unfolding is_same
  is_same_refl dt = rw (option_eq_refl dt.app_name, option_eq_refl dt.proxy_address) refl

  update_each-Reports :
      (dt : GatewayProxyInfo F64 DateTimeNative) (l : List (GatewayProxyInfo F64 DateTimeNative))
      → is_found dt l ≡ true
      → Reports dt (update_each dt l)
  unfolding update_each is_found is_same
  update_each-Reports dt [] h = cc h
  update_each-Reports dt (bit ∷ rest) h = elim (Bool-cases (is_same bit dt)) [
    | inl e ↦ rw (is_same, e) (inl (e, refl, refl, refl))
    | inr e ↦ rw (is_same, e) (inr (update_each-Reports dt rest (ground (arith, h, e))))
  ]

  append-Reports :
      (dt : GatewayProxyInfo F64 DateTimeNative) (l : List (GatewayProxyInfo F64 DateTimeNative))
      → Reports dt (l ++ (dt ∷ []))
  append-Reports dt [] = inl (is_same_refl dt, refl, refl, refl)
  append-Reports dt (bit ∷ rest) = inr (append-Reports dt rest)

  insert_or_update_proxy_info-Reports :
      (dt : GatewayProxyInfo F64 DateTimeNative) (l : List (GatewayProxyInfo F64 DateTimeNative))
      → Reports dt (insert_or_update_proxy_info dt l)
  unfolding insert_or_update_proxy_info
  insert_or_update_proxy_info-Reports dt l = elim (Bool-cases (is_found dt l)) [
    | inl e ↦ rw (insert_or_update_proxy_info, e) (update_each-Reports dt l e)
    | inr e ↦ rw (insert_or_update_proxy_info, e) (append-Reports dt (update_each dt l))
  ]

  insert-IsRegistry :
      (k : Text) (v : GatewayProxyManagement F64 DateTimeNative)
      (m : Dict (GatewayProxyManagement F64 DateTimeNative))
      → IsDistinct v.proxy_list
      → IsRegistry m
      → IsRegistry (Dict.insert k v m)
  insert-IsRegistry k v m d h key g e =
      let e' = rw (get-insert k key v m) at e in
      elim (Bool-cases (text_eq k key)) [
        | inl q ↦
            subst (λ (x : GatewayProxyManagement F64 DateTimeNative). IsDistinct x.proxy_list)
              (some-injective v g (rw q at e')) d
        | inr q ↦ h key g (rw q at e')
      ]

  -- Adding a proxy keeps a registry in which no application lists a name and address twice; and
  -- the application of the proxy then lists it with the status, the load and the token that were
  -- reported.
  pub add_proxy_info-IsRegistry :
      (dt : GatewayProxyInfo F64 DateTimeNative)
      (m : Dict (GatewayProxyManagement F64 DateTimeNative))
      → IsRegistry m
      → IsRegistry (add_proxy_info dt m)
        × (g : GatewayProxyManagement F64 DateTimeNative) × (Dict.get
              (name_of dt)
              (add_proxy_info dt m)
            ≡ some g)
        × Reports dt g.proxy_list
  unfolding add_proxy_info
  add_proxy_info-IsRegistry dt m h = elim (Option-cases (Dict.get (name_of dt) m)) [
    | inl n ↦
        let v : GatewayProxyManagement F64 DateTimeNative = record {
          app_name = name_of dt;
          proxy_list = dt ∷ [];
        } in
        rw (add_proxy_info, n)
          (
            insert-IsRegistry (name_of dt) v m (tt, tt) h,
            v,
            get-insert_self (name_of dt) v m,
            append-Reports dt [],
          )
    | inr (g, n) ↦
        let v : GatewayProxyManagement F64 DateTimeNative = record g {
          proxy_list = insert_or_update_proxy_info dt g.proxy_list;
        } in
        rw (add_proxy_info, n)
          (
            insert-IsRegistry (name_of dt) v m
                (insert_or_update_proxy_info-IsDistinct dt g.proxy_list (h (name_of dt) g n)) h,
            v,
            get-insert_self (name_of dt) v m,
            insert_or_update_proxy_info-Reports dt g.proxy_list,
          )
  ]
