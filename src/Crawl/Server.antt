-- ===== src/Crawl/Server.antt =====
-- pkg/crawl/server.go: the handler of POST /crawl, and the fetch of a page over HTTP or from a file.
pub mod Window
pub mod Fetch
pub mod Tests
use takuhai.Base.{
  Bool, Bytes, Int64, Option, codes, cut_prefix, false, if◌then◌else◌, length, map_option, none,
  not, some, true, up_to_byte, ℕ, ◌==◌,
}
use takuhai.Errors.{Result, Error, ok, err, crawl_parse, ◌>>=◌}
use takuhai.Crawl.Cursor.{parse_cursor}
use takuhai.Crawl.Lookback.{parse_lookback}
use takuhai.Crawl.Walk.{Config, CrawlRequest, CrawlResponse, crawl}

-- The result under which a crawl is recorded.
pub data CrawlResult : Type 0 where
  bad_request fetch_error parse_error encode_error crawled : CrawlResult

-- The answer: its status, its body where there is one, and what Metrics.Crawl is told.
pub record Reply : Type 0 where
  pub status : ℕ
  pub body : Option CrawlResponse
  pub result : CrawlResult
  pub post_count : ℕ

pub rejected : ℕ → Reply
rejected status = record { status = status; body = none; result = bad_request; post_count = 0 }

-- errors.Is(err, ErrCrawlParse)
pub failure_result : Error → CrawlResult
failure_result crawl_parse = parse_error
failure_result _ = fetch_error

pub failed : Error → Reply
unfolding failure_result
failed e = record { status = 502; body = none; result = failure_result e; post_count = 0 }

-- `encodes` tells whether a response can be encoded.
pub served : (CrawlResponse → Bool) → CrawlResponse → Reply
served encodes r =
    if encodes r
    then record { status = 200; body = some r; result = crawled; post_count = length r.posts }
    else record { status = 500; body = none; result = encode_error; post_count = length r.posts }

pub reply_to : (CrawlResponse → Bool) → Result CrawlResponse → Reply
unfolding served failed
reply_to encodes (err e) = failed e
reply_to encodes (ok r) = served encodes r

module _ (scaled : ℕ → ℕ → ℕ → ℕ) (encodes : CrawlResponse → Bool) where
  -- The checks on the request, before the walk.
  pub check_params : CrawlRequest → Result Int64
  check_params req = parse_lookback scaled req.lookback >>= λ lookback.
      parse_cursor req.cursor >>= λ _. ok lookback

  pub serve_request : {Body : Type 0} → Config Body → CrawlRequest → Option Reply
  unfolding reply_to rejected
  serve_request c req = elim (check_params req) [
    | err e ↦ some (rejected 400)
    | ok lookback ↦ map_option (reply_to encodes) (crawl c req lookback)
  ]

  -- ServeHTTP, on whether the method is POST, and on the request if the body decodes. There is
  -- no reply if the fuel of the crawl runs out.
  pub serve_http : {Body : Type 0} → Config Body → Bool → Option CrawlRequest → Option Reply
  unfolding rejected serve_request
  serve_http c false body = some (rejected 405)
  serve_http c true none = some (rejected 400)
  serve_http c true (some req) = serve_request c req

-- A response of the outside to GET: its status, and its body if that can be read.
pub record HttpAnswer : Type 0 where
  pub status_code : ℕ
  pub content : Option Bytes

-- What an HTTPFetcher is wired with: whether the limiter lets the page pass, the URL of a page,
-- the files, whether a request can be built for a URL, and what the client receives.
pub record Fetcher : Type 0 where
  pub waits : Int64 → Bool
  pub build_url : Int64 → Option Bytes
  pub read_file : Bytes → Option Bytes
  pub builds : Bytes → Bool
  pub get : Bytes → Option HttpAnswer

-- The bytes of a page, and whether Metrics.Fetch is told ok; none where it is not called.
pub record Fetched : Type 0 where
  pub page_body : Option Bytes
  pub recorded : Option Bool

pub is_some {ℓ} : {A : Type ℓ} → Option A → Bool
is_some none = false
is_some (some a) = true

-- A fetch that came as far as the metrics: ok is recorded exactly with a body.
unfoldable pub fetched : Option Bytes → Fetched
unfolding is_some
fetched o = record { page_body = o; recorded = some (is_some o) }

-- ReadFileURL: the path up to a question mark.
unfoldable pub read_file_url : Fetcher → Bytes → Option Bytes
read_file_url f path = f.read_file (up_to_byte b'?' path)

pub http_body : HttpAnswer → Option Bytes
http_body a = if not (a.status_code == 200) then none else a.content

pub http_get : Fetcher → Bytes → Option Bytes
unfolding http_body
http_get f target =
    if not (f.builds target)
    then none
    else elim (f.get target) [ none ↦ none | some a ↦ http_body a ]

unfoldable pub fetch_target : Fetcher → Bytes → Option Bytes
unfolding read_file_url http_get
fetch_target f target = elim (cut_prefix (codes "file://") target) [
  | some path ↦ read_file_url f path
  | none ↦ http_get f target
]

unfoldable pub fetch_page : Fetcher → Int64 → Fetched
unfolding fetch_target fetched
fetch_page f page =
    if not (f.waits page)
    then record { page_body = none; recorded = none }
    else elim (f.build_url page) [
      | none ↦ fetched none
      | some target ↦ fetched (fetch_target f target)
    ]
