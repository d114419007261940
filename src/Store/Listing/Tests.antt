-- ===== src/Store/Listing/Tests.antt =====
-- Runs of a listing.
use takuhai.Base.{
  All, Bytes, List, [], ap, arith, bytes_eq, codes, false, map, none, refl, select, some, true, ◌∷◌,
  ◌≡◌,
}
use mathlib.Core.List.{Perm}
use takuhai.Errors.{ok}
use takuhai.Cursor.Ref.{tvdb-valid}
use takuhai.Cursor.Token.{catalog}
use takuhai.Store.Invariant.{Inv}
use takuhai.Store.Listing.Sorted.{Sorted}
use takuhai.Store.Listing.Follow.{Readable, follow, follow_complete}
use takuhai.Cursor.Token.Tests.{small_codec, small_cursor}
use takuhai.Store.{Db, Release, is_canonical_infohash, MatchStatus, healthy}
use takuhai.Store.Claim.{sort_by, insert_by}
use takuhai.Store.Claim.Tests.{free_row, one_row, zeros_hash}
use takuhai.Store.Listing.{
  cursor_at, row_key, row_before, ReleaseQuery, ReleasePage, releases_limit, query_path, has_ref,
  is_since, is_past, is_listed, list_release_rows, release_item, page_of, seek_cursor, check_ref,
  list_releases,
}

abbrev matched_row : Release
matched_row = record free_row {
  match_status = MatchStatus.matched;
  ref = some (codes "tvdb:1");
  first_matched_at = some 9;
}

abbrev everything : ReleaseQuery
everything = record { ref = []; since = none; limit = 1; cursor = [] }

abbrev one_page : ReleasePage
one_page = record { releases = release_item matched_row ∷ []; next_cursor = [] }

one_page-run : list_releases small_codec healthy everything (one_row matched_row) ≡ ok one_page
unfolding list_releases check_ref seek_cursor page_of list_release_rows is_listed has_ref is_since
    is_past query_path releases_limit sort_by insert_by
one_page-run = refl

-- Two matched releases, and a query for all, one to a page.
abbrev ones_hash : Bytes
ones_hash = codes "1111111111111111111111111111111111111111"

abbrev two_rows : Db
two_rows = record (one_row matched_row) {
  releases = matched_row ∷ record matched_row { infohash = ones_hash; published_at = 6 } ∷ [];
}

two_rows-Inv : Inv 3 two_rows
unfolding is_canonical_infohash
two_rows-Inv = record {
  keys = ((λ e. let h : false ≡ true = ap (λ x. bytes_eq x zeros_hash) e in cc h, tt), (tt, tt));
  rows = (
    ((codes "tvdb:1", 9, refl, tvdb-valid, refl, refl, refl, omega arith), refl),
    (((codes "tvdb:1", 9, refl, tvdb-valid, refl, refl, refl, omega arith), refl), tt),
  );
}

two_rows-Readable : All (Readable small_codec everything) two_rows.releases
unfolding cursor_at row_key query_path
two_rows-Readable = (small_cursor 5 matched_row.infohash, (small_cursor 6 ones_hash, tt))

follow_complete_example :
    (rows : List Release) × (follow 3 small_codec everything two_rows
      ≡ some (ok (map release_item rows)))
    × Sorted (row_before catalog) rows
    × Perm rows (select (is_listed everything none) two_rows.releases)
unfolding check_ref query_path
follow_complete_example =
    follow_complete small_codec 3 everything two_rows two_rows-Inv refl two_rows-Readable refl
