-- ===== src/Store/Listing/Pages.antt =====
-- The size of a page, what is in it, and when it has a cursor.
use takuhai.Base.{
  Bool-cases, Int64, List, arith, inl, inr, length, length-map, length-take, ltb, ltb-false, subst,
  take, ℕ, ◌+◌, ◌≡◌, ◌≤◌,
}
use takuhai.Errors.{ok, >>=-eq-ok, guard-eq-ok, ok-injective, database_failure}
use takuhai.Cursor.Token.{Codec}
use takuhai.Store.{Db, Release, Faults, run_query}
use takuhai.Store.Listing.{
  ReleaseQuery, ReleasePage, releases_limit, list_release_rows, release_item, page_of, seek_cursor,
  check_ref, list_releases, max_releases_limit,
}

releases_limit-le : (n : Int64) → releases_limit n ≤ max_releases_limit
unfolding releases_limit
releases_limit-le n = ground arith

length-page :
    (codec : Codec) (q : ReleaseQuery) (limit : ℕ) (keyed : List Release)
    → length (page_of codec q limit keyed).releases ≤ limit
unfolding page_of
length-page codec q limit keyed = elim (Bool-cases (ltb limit (length keyed))) [
  | inl more ↦
      rw more (omega (arith, length-map release_item (take limit keyed), length-take limit keyed))
  | inr all ↦
      rw all (omega (arith, length-map release_item keyed, ltb-false limit (length keyed) all))
]

-- A page that is served has at most as many releases as the query's limit, and never more than 500.
list_releases_bound :
    (codec : Codec) (fails : Faults) (q : ReleaseQuery) (db : Db) (page : ReleasePage)
    → list_releases codec fails q db ≡ ok page
    → (length page.releases ≤ releases_limit q.limit) × (length page.releases ≤ max_releases_limit)
unfolding list_releases
list_releases_bound codec fails q db page e =
    let (_, _, e0) = >>=-eq-ok (check_ref q.ref) _ e in
    let (seek, _, e1) = >>=-eq-ok (seek_cursor codec q) _ e0 in
    let same = ok-injective (guard-eq-ok (fails run_query) database_failure _ e1).1 in
    let small : length page.releases ≤ releases_limit q.limit =
      subst (λ p. length p.releases ≤ releases_limit q.limit) same
        (length-page codec q (releases_limit q.limit)
          (list_release_rows q seek (releases_limit q.limit + 1) db.releases)) in
    (small, omega (arith, small, releases_limit-le q.limit))
