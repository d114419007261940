-- ===== src/Dmhy/Server.antt =====
-- sources/dmhy/server.go and crawl.go: the URLs of the archive and the crawler that is served.
pub mod Interstitial
mod Tests
use takuhai.Base.{
  Bytes, Int64, Option, Time, [], bytes_eq, codes, if◌then◌else◌, is_nonpos, refl, some, ℕ, ◌&&◌,
  ◌++◌, ◌==◌, ◌∷◌, ◌≡◌,
}
use takuhai.Stdlib.Decimal.{itoa}
use takuhai.Crawl.Server.{Fetcher, fetch_page}
use takuhai.Crawl.Walk.{Config}
use takuhai.Dmhy.Cache.{Items, wrap}
use takuhai.Dmhy.Html.{parse_archive_page}

-- strings.TrimRight(s, "/")
unfoldable pub trim_slashes : Bytes → Bytes
trim_slashes [] = []
trim_slashes (c ∷ s) =
    let rest = trim_slashes s in if c == b'/' && bytes_eq rest [] then [] else c ∷ rest

-- archivePageURL
pub archive_page_url : Bytes → Int64 → Int64 → Bytes
unfolding trim_slashes
archive_page_url base sort_id page =
    let b = trim_slashes base in
    if is_nonpos sort_id
    then b ++ (codes "/topics/list/page/" ++ itoa page)
    else b ++ (codes "/topics/list/sort_id/" ++ (itoa sort_id ++ (codes "/page/" ++ itoa page)))

abbrev pub threshold : Int64
threshold = 2

-- shared: the crawler over the pages of one sort_id.
unfoldable pub shared :
    (Bytes → ℕ → Option Int64) → (Int64 → Int64 → Option Bytes) → Int64 → Time → Config Bytes
shared scale fetch sort_id now = record {
  fetch = fetch sort_id;
  parse = parse_archive_page scale;
  threshold = threshold;
  now = now;
}

-- The fetcher that the server is wired with, over a limiter, files and a client.
pub page_fetcher : Bytes → Int64 → Fetcher → Fetcher
unfolding archive_page_url
page_fetcher base sort_id f = record f {
  build_url = λ page. some (archive_page_url base sort_id page);
}

-- A page as the crawler gets it: through the cache if its entries live for a time, whose clock reads
-- are given, else from the fetcher itself.
pub page_source :
    Bytes → Fetcher → Int64 → Time → Time → Int64 → Int64 → Items → Items × Option Bytes
unfolding page_fetcher
page_source base f ttl at_get at_put sort_id page items =
    let fetch : Int64 → Int64 → Option Bytes =
      λ _ number. (fetch_page (page_fetcher base sort_id f) number).page_body in
    if is_nonpos ttl
    then (items, fetch sort_id page)
    else wrap ttl at_get at_put fetch sort_id page items

urls :
    (archive_page_url (codes "http://a/") 2 3 ≡ codes "http://a/topics/list/sort_id/2/page/3")
    × (archive_page_url (codes "http://a//") 0 3 ≡ codes "http://a/topics/list/page/3")
unfolding archive_page_url itoa
urls = (refl, refl)
