-- ===== src/Nyaa/Server.antt =====
-- sources/nyaa/server.go and crawl.go: the URLs of the listing and the crawler that is served.
pub mod Offline
mod Tests
use takuhai.Base.{
  Bytes, Int64, Option, Time, [], bytes_eq, codes, has_prefix, if◌then◌else◌, map_option, some, ℕ,
  ◌++◌,
}
use takuhai.Stdlib.Decimal.{itoa}
use takuhai.Crawl.Server.{Fetcher, fetch_page}
use takuhai.Crawl.Walk.{Config}
use takuhai.Dmhy.Server.{trim_slashes}
use takuhai.Nyaa.Html.{parse_listing_page}

-- What the code uses of package net/url.
pub record UrlPackage : Type 1 where
  pub Url : Type 0
  pub Values : Type 0
  pub parse : Bytes → Option Url
  pub path : Url → Bytes
  pub with_path : Bytes → Url → Url
  pub query : Url → Values
  pub set : Bytes → Bytes → Values → Values
  pub encode : Values → Bytes
  pub with_raw_query : Bytes → Url → Url
  pub text : Url → Bytes

-- The search that the server is configured with.
pub record Search : Type 0 where
  pub query : Bytes
  pub category : Bytes
  pub filter : Bytes

abbrev pub threshold : Int64
threshold = 2

module _ (net : UrlPackage) where
  open net use {Url, Values}

  -- A parameter that is empty is left out.
  pub set_present : Bytes → Bytes → Values → Values
  set_present key value q = if bytes_eq value [] then q else net.set key value q

  pub listing_query : Search → Int64 → Values → Values
  unfolding set_present
  listing_query s page q = set_present (codes "f") s.filter (
      set_present (codes "c") s.category
        (set_present (codes "q") s.query (net.set (codes "p") (itoa page) q)))

  pub listing_url : Search → Int64 → Url → Bytes
  unfolding listing_query
  listing_url s page u =
      let rooted = if bytes_eq (net.path u) [] then net.with_path (codes "/") u else u in
      net.text (net.with_raw_query (net.encode (listing_query s page (net.query rooted))) rooted)

  abbrev pub page_file : Bytes → Int64 → Bytes
  page_file base page = trim_slashes base ++ (codes "/page-" ++ (itoa page ++ codes ".html"))

  -- listingPageURL
  pub listing_page_url : Bytes → Search → Int64 → Option Bytes
  unfolding listing_url
  listing_page_url base s page =
      if has_prefix (codes "file://") base
      then some (page_file base page)
      else map_option (listing_url s page) (net.parse (trim_slashes base))

  -- The fetcher that the server is wired with, over a limiter, files and a client.
  pub page_fetcher : Bytes → Search → Fetcher → Fetcher
  unfolding listing_page_url
  page_fetcher base s f = record f { build_url = listing_page_url base s }

  -- shared, over the fetcher
  pub shared :
      (Bytes → Bytes) → (Bytes → ℕ → Option Int64) → Bytes → Search → Fetcher → Time → Config Bytes
  unfolding page_fetcher
  shared unescape scale base s f now = record {
    fetch = λ page. (fetch_page (page_fetcher base s f) page).page_body;
    parse = parse_listing_page unescape scale;
    threshold = threshold;
    now = now;
  }
