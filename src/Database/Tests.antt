-- ===== src/Database/Tests.antt =====
-- Connections of src/utils/mod.rs at concrete addresses.
use chimes_utils.Base.{◌≡◌, refl, List, [], ◌∷◌}
use chimes_utils.Base.Text.{Text, codes, text_eq}
use chimes_utils.Base.Dict
use chimes_utils.Database.{RbatisCrate, no_connections, get_multiple_rbatis}
use chimes_utils.Database.Laws.{IsDistinct, get_all, get_multiple_rbatis-IsDistinct}

-- A connection is the address that it was linked to.
abbrev crate_ : RbatisCrate
crate_ = record { Rbatis = Text; new = []; link = λ url rb. url; add_sql_intercept = λ rb. rb }

abbrev two : List Text
two = codes "a" ∷ codes "b" ∷ []

get_multiple_rbatis-IsDistinct_example :
    let first =
      get_multiple_rbatis crate_ (codes "b") (get_all crate_ two (no_connections crate_)) in
    IsDistinct (get_all crate_ two first.1).linked
    × (get_multiple_rbatis crate_ (codes "b") (get_all crate_ two first.1)
        ≡ (first.0, get_all crate_ two first.1))
get_multiple_rbatis-IsDistinct_example = get_multiple_rbatis-IsDistinct crate_ two two (codes "b")

linked_twice : (get_all crate_ two (get_all crate_ two (no_connections crate_))).linked ≡ two
unfolding get_multiple_rbatis Dict.get Dict.insert text_eq
linked_twice = refl
