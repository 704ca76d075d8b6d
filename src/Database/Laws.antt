-- ===== src/Database/Laws.antt =====
-- Every address of src/utils/mod.rs is linked once, and its connection is kept.
use chimes_utils.Base.{
  ◌≡◌, ◌≢◌, refl, sym, ap, ◌∙◌, inl, inr, Bool-cases, Option-cases, none, some, List, [], ◌∷◌, ◌++◌,
  All, All-append,
}
use chimes_utils.Base.Text.{Text, text_eq, text_eq_iff}
use chimes_utils.Base.Dict
use chimes_utils.Base.Dict.{Dict, get-insert, get-insert_self}
use chimes_utils.Database.{RbatisCrate, Connections, no_connections, get_multiple_rbatis}

-- No address stands twice in the list.
abbrev pub IsDistinct : List Text → Type 0
IsDistinct [] = Unit
IsDistinct (url ∷ rest) = All (λ u. u ≢ url) rest × IsDistinct rest

IsDistinct-append :
    (us : List Text) (url : Text)
    → IsDistinct us
    → All (λ u. u ≢ url) us
    → IsDistinct (us ++ url ∷ [])
IsDistinct-append [] url d n = (tt, tt)
IsDistinct-append (u ∷ us) url (a, d) (n, ns) =
    (All-append (λ v. v ≢ u) us (url ∷ []) a ((λ e. n (sym e)), tt), IsDistinct-append us url d ns)

module _ (crate_ : RbatisCrate) where
  -- Calls for these addresses, one after the other.
  abbrev pub get_all : List Text → Connections crate_ → Connections crate_
  get_all [] s = s
  get_all (url ∷ rest) s = get_all rest (get_multiple_rbatis crate_ url s).1

  -- The addresses that were linked are distinct, and have a connection in the map.
  pub record IsLinked (s : Connections crate_) : Type 0 where
    pub distinct : IsDistinct s.linked
    pub kept : All (λ url. Dict.get url s.map ≢ none) s.linked

  known :
      (url : Text) (rb : crate_.Rbatis) (s : Connections crate_)
      → Dict.get url s.map ≡ some rb
      → get_multiple_rbatis crate_ url s ≡ (rb, s)
  unfolding get_multiple_rbatis
  known url rb s h = rw (get_multiple_rbatis, h) refl

  -- What a call leaves of a connection that is there.
  get-keeps :
      (url other : Text) (rb : crate_.Rbatis) (s : Connections crate_)
      → Dict.get url s.map ≡ some rb
      → Dict.get url (get_multiple_rbatis crate_ other s).1.map ≡ some rb
  unfolding get_multiple_rbatis
  get-keeps url other rb s h = elim (Option-cases (Dict.get other s.map)) [
    | inr (ro, e) ↦ rw (get_multiple_rbatis, e) h
    | inl e ↦
        let new = crate_.add_sql_intercept (crate_.link other crate_.new) in
        rw (get_multiple_rbatis, e)
          (get-insert other url new s.map ∙ elim (Bool-cases (text_eq other url)) [
            | inl y ↦
                let same = ap (λ u. Dict.get u s.map) ((text_eq_iff other url).0 y) in
                cc (e, h, same)
            | inr n ↦ rw n h
          ])
  ]

  kept-new :
      (urls : List Text) (other : Text) (s : Connections crate_)
      → All (λ url. Dict.get url s.map ≢ none) urls
      → Dict.get other s.map ≡ none
      → All (λ u. u ≢ other) urls
  kept-new [] other s k e = tt
  kept-new (url ∷ urls) other s (k, ks) e =
      ((λ h. k (ap (λ u. Dict.get u s.map) h ∙ e)), kept-new urls other s ks e)

  kept-insert :
      (urls : List Text) (other : Text) (rb : crate_.Rbatis) (m : Dict crate_.Rbatis)
      → All (λ url. Dict.get url m ≢ none) urls
      → All (λ url. Dict.get url (Dict.insert other rb m) ≢ none) urls
  kept-insert [] other rb m k = tt
  kept-insert (url ∷ urls) other rb m (k, ks) = (
    rw (get-insert other url rb m)
        (elim (Bool-cases (text_eq other url)) [ inl y ↦ rw y (λ h. cc h) | inr n ↦ rw n k ]),
    kept-insert urls other rb m ks,
  )

  get-IsLinked :
      (other : Text) (s : Connections crate_)
      → IsLinked s
      → IsLinked (get_multiple_rbatis crate_ other s).1
  unfolding get_multiple_rbatis
  get-IsLinked other s i = elim (Option-cases (Dict.get other s.map)) [
    | inr (ro, e) ↦ rw (get_multiple_rbatis, e) i
    | inl e ↦
        let new = crate_.add_sql_intercept (crate_.link other crate_.new) in
        let there : Dict.get other (Dict.insert other new s.map) ≢ none =
          rw (get-insert_self other new s.map) (λ h. cc h) in
        rw (get_multiple_rbatis, e)
          (record {
            distinct =
                IsDistinct-append s.linked other i.distinct (kept-new s.linked other s i.kept e);
            kept =
                All-append (λ url. Dict.get url (Dict.insert other new s.map) ≢ none) s.linked
                  (other ∷ []) (kept-insert s.linked other new s.map i.kept) (there, tt);
          })
  ]

  get_all-IsLinked :
      (urls : List Text) (s : Connections crate_) → IsLinked s → IsLinked (get_all urls s)
  get_all-IsLinked [] s i = i
  get_all-IsLinked (url ∷ urls) s i =
      get_all-IsLinked urls (get_multiple_rbatis crate_ url s).1 (get-IsLinked url s i)

  get_all-keeps :
      (urls : List Text) (url : Text) (rb : crate_.Rbatis) (s : Connections crate_)
      → Dict.get url s.map ≡ some rb
      → Dict.get url (get_all urls s).map ≡ some rb
  get_all-keeps [] url rb s h = h
  get_all-keeps (other ∷ urls) url rb s h =
      get_all-keeps urls url rb (get_multiple_rbatis crate_ other s).1 (get-keeps url other rb s h)

  found :
      (url : Text) (s : Connections crate_)
      → Dict.get url (get_multiple_rbatis crate_ url s).1.map
        ≡ some (get_multiple_rbatis crate_ url s).0
  unfolding get_multiple_rbatis
  found url s = elim (Option-cases (Dict.get url s.map)) [
    | inr (ro, e) ↦ rw (get_multiple_rbatis, e) e
    | inl e ↦
        rw (get_multiple_rbatis, e)
          (get-insert_self url (crate_.add_sql_intercept (crate_.link url crate_.new)) s.map)
  ]

  -- Calls of `get_multiple_rbatis` that follow each other from the start, for any addresses, link
  -- no address twice; and after a call for an address, and any further calls, a call for the same
  -- address gives the same connection and links nothing, even if the connection could not be
  -- linked.
  pub get_multiple_rbatis-IsDistinct :
      (before after : List Text) (url : Text)
      → let first = get_multiple_rbatis crate_ url (get_all before (no_connections crate_)) in
        IsDistinct (get_all after first.1).linked
        × (get_multiple_rbatis crate_ url (get_all after first.1)
            ≡ (first.0, get_all after first.1))
  get_multiple_rbatis-IsDistinct before after url =
      let s = get_all before (no_connections crate_) in
      let i =
        get_all-IsLinked before (no_connections crate_) (record { distinct = tt; kept = tt }) in
      let first = get_multiple_rbatis crate_ url s in
      let j = get_all-IsLinked after first.1 (get-IsLinked url s i) in
      (
        j.distinct,
        known url first.0 (get_all after first.1)
            (get_all-keeps after url first.0 first.1 (found url s)),
      )
