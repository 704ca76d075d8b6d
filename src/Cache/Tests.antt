-- ===== src/Cache/Tests.antt =====
-- Tests of the cache.
use chimes_utils.Base.{
  ◌<◌, ◌≡◌, refl, ◌&&◌, none, some, List, [], ◌∷◌, length, ltb, if◌then◌else◌, arith,
}
use chimes_utils.Base.Text.{Text, text_eq, codes}
use chimes_utils.Base.Dict
use chimes_utils.Base.Dict.{Dict}
use chimes_utils.Cache
use chimes_utils.Cache.{ValuePaire, done, blocked}
use chimes_utils.Cache.Entries.{IsKeyed, due}
use chimes_utils.Cache.Laws
use chimes_utils.Cache.Laws.{free}

abbrev one : Dict ValuePaire
one = (codes "k", record { value = codes "v"; key = codes "k"; timestamp = 5; expired = 10 }) ∷ []

abbrev eleven : List Text
eleven =
    codes "0"
    ∷ codes "1"
    ∷ codes "2"
    ∷ codes "3"
    ∷ codes "4"
    ∷ codes "5"
    ∷ codes "6"
    ∷ codes "7"
    ∷ codes "8"
    ∷ codes "9"
    ∷ codes "x"
    ∷ []

abbrev keyed : List Text → Dict ValuePaire
keyed [] = []
keyed (k ∷ ks) = (k, record { value = codes "v"; key = k; timestamp = 5; expired = 10 }) ∷ keyed ks

eleven-IsKeyed : IsKeyed (keyed eleven)
unfolding Dict.get text_eq
eleven-IsKeyed = (
  refl,
  refl,
  (
    refl,
    refl,
    (
      refl,
      refl,
      (
        refl,
        refl,
        (
          refl,
          refl,
          (refl, refl, (refl, refl, (refl, refl, (refl, refl, (refl, refl, (refl, refl, tt)))))),
        ),
      ),
    ),
  ),
)

one-IsKeyed : IsKeyed one
unfolding Dict.get
one-IsKeyed = (refl, refl, tt)

resizing_lem_example :
    (m' : Dict ValuePaire) × (Cache.global_app_data_resizing 20 (free (keyed eleven))
      ≡ done (free m'))
    × IsKeyed m'
    × ((j : Text)
        → Dict.get j m' ≡ (
            if ltb 10 (length (keyed eleven)) && due 20 (Dict.get j (keyed eleven))
            then none
            else Dict.get j (keyed eleven)))
resizing_lem_example = Laws.resizing_lem 20 (keyed eleven) eleven-IsKeyed

get_stale_example : Cache.global_app_data_get (codes "k") 16 (free one) ≡ blocked
unfolding Dict.get text_eq
get_stale_example =
    Laws.get_stale (codes "k") 16 one
      (record { value = codes "v"; key = codes "k"; timestamp = 5; expired = 10 }) refl
      (omega arith) (omega arith) (omega arith)

get-insert_live_example :
    (m' : Dict ValuePaire) × (Cache.global_app_data_insert_with_expire
        (codes "a")
        (codes "b")
        60
        100
        100
        (free one)
      ≡ done (free m'))
    × IsKeyed m'
    × (Cache.global_app_data_get (codes "a") 160 (free m') ≡ done (some (codes "b"), free m'))
get-insert_live_example =
    Laws.get-insert_live (codes "a") (codes "b") 60 100 100 one one-IsKeyed 160 (omega arith)
      (omega arith) (omega arith)

many_inserted :
    10 < length (Laws.inserted (codes "a") (codes "b") 0 100 100 (keyed eleven) eleven-IsKeyed)
unfolding Dict.insert text_eq
many_inserted = omega arith
