-- ===== src/Nyaa/Server/Tests.antt =====
-- Pages of Nyaa, saved and not.
use takuhai.Base.{Bytes, [], codes, false, none, refl, some, true, ◌++◌, ◌∷◌, ◌≡◌}
use takuhai.Crawl.Server.{Fetcher}
use takuhai.Dmhy.Server.{trim_slashes}
use takuhai.Nyaa.Server.{
  UrlPackage, Search, listing_page_url, listing_url, listing_query, set_present,
}
use takuhai.Stdlib.Decimal.{itoa}

-- URLs as texts, whose query is a text of pairs.
abbrev plain_urls : UrlPackage
plain_urls = record {
  Url = Bytes;
  Values = Bytes;
  parse = λ s. some s;
  path = λ u. [];
  with_path = λ p u. u ++ p;
  query = λ u. [];
  set = λ k v q. q ++ (k ++ (b'=' ∷ (v ++ codes "&")));
  encode = λ q. q;
  with_raw_query = λ q u. u ++ (b'?' ∷ q);
  text = λ u. u;
}

abbrev anime : Search
anime = record { query = []; category = codes "1_0"; filter = codes "0" }

listing :
    listing_page_url plain_urls (codes "http://n/") anime 12
    ≡ some (codes "http://n/?p=12&c=1_0&f=0&")
unfolding listing_page_url listing_url listing_query set_present trim_slashes itoa
listing = refl

abbrev disk : Fetcher
disk = record {
  waits = λ page. true;
  build_url = λ page. none;
  read_file = λ path. some path;
  builds = λ target. false;
  get = λ target. none;
}
