-- ===== src/Dmhy/Cache/Tests.antt =====
-- A page looked up in the cache after it was stored.
use takuhai.Base.{Bytes, Int64, Option, [], arith, none, some, ◌∷◌, ◌≡◌, ◌⊎◌}
use takuhai.Dmhy.Cache.{wrap}
use takuhai.Dmhy.Cache.Latest.{Stored, latest, served, cache_of, wrap-latest}

abbrev first_page : Stored
first_page = record { sort_id = 2; page = 1; body = 65 ∷ []; at = 100 }

abbrev no_upstream : Int64 → Int64 → Option Bytes
no_upstream sort_id page = none

wrap-latest_example :
    ((body : Bytes) × (served 10 105 (latest 2 1 (first_page ∷ [])) ≡ some body)
      × (wrap 10 105 106 no_upstream 2 1 (cache_of 10 (first_page ∷ []))
          ≡ (cache_of 10 (first_page ∷ []), some body)))
    ⊎ (((served 10 105 (latest 2 1 (first_page ∷ [])) ≡ none)
          × (no_upstream 2 1 ≡ none)
          × (wrap 10 105 106 no_upstream 2 1 (cache_of 10 (first_page ∷ []))
              ≡ (cache_of 10 (first_page ∷ []), none)))
        ⊎ ((body : Bytes) × (served 10 105 (latest 2 1 (first_page ∷ [])) ≡ none)
            × (no_upstream 2 1 ≡ some body)
            × (wrap 10 105 106 no_upstream 2 1 (cache_of 10 (first_page ∷ [])) ≡ (
              cache_of 10
                  (record { sort_id = 2; page = 1; body = body; at = 106 } ∷ first_page ∷ []),
              some body,
            ))))
wrap-latest_example =
    wrap-latest 10 105 2 1 (omega arith) (omega arith) 106 no_upstream (first_page ∷ [])
      ((omega arith, (omega arith, omega arith)), tt)
