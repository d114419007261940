-- ===== src/Crawl/Server/Tests.antt =====
-- Runs of POST /crawl over a small archive, and fetches of its pages.
use takuhai.Base.{
  Bool, Bytes, [], arith, bytes_eq, codes, if◌then◌else◌, none, refl, some, true, ◌-◌, ◌∷◌, ◌≡◌,
  ◌⊎◌,
}
use takuhai.Errors.{ok}
use takuhai.Stdlib.Decimal.{itoa}
use takuhai.Crawl.Cursor.{parse-format}
use takuhai.Crawl.Lookback.{parse_lookback}
use takuhai.Crawl.Lookback.Print.{lookback-itoa}
use takuhai.Crawl.Lookback.Tests.{no_fractions}
use takuhai.Crawl.Walk.{CrawlRequest, CrawlResponse, clamp_page_size}
use takuhai.Crawl.Walk.Tests.{archive, request, answer, archive-crawl}
use takuhai.Crawl.Walk.Budget.{IsSound}
use takuhai.Crawl.Server.{
  Reply, served, reply_to, check_params, serve_request, serve_http, crawled, Fetcher, fetch_page,
  fetched, fetch_target, read_file_url,
}
use takuhai.Crawl.Server.Window.{Answered, serve_valid, serve_window}
use takuhai.Crawl.Server.Fetch.{fetch_page-ok, FromFile, FromHttp}

-- Twenty weeks of lookback.
abbrev pub window_request : CrawlRequest
window_request = record request { lookback = codes "20w0d0h" }

abbrev pub all_encode : CrawlResponse → Bool
all_encode r = true

abbrev window_reply : Reply
window_reply = record { status = 200; body = some answer; result = crawled; post_count = 2 }

pub window-lookback : parse_lookback no_fractions (codes "20w0d0h") ≡ ok 12_096_000_000_000_000
unfolding itoa
window-lookback = lookback-itoa no_fractions 20 0 0 (omega arith)

window-run :
    serve_http no_fractions all_encode archive true (some window_request) ≡ some window_reply
unfolding serve_http serve_request check_params reply_to served
window-run =
    rw
      (
        serve_request,
        check_params,
        window-lookback,
        parse-format 2 1 (omega arith) (omega arith),
        archive-crawl,
      )
      refl

serve_window_example :
    IsSound (some (50_000_000_000_000_000 - 12_096_000_000_000_000)) (clamp_page_size 2) answer
unfolding itoa
serve_window_example =
    serve_window no_fractions all_encode archive window_request 20 0 0 window_reply answer refl
      (omega arith) (omega arith) window-run refl

serve_valid_example : Answered no_fractions all_encode archive window_request 12_096_000_000_000_000
serve_valid_example =
    serve_valid no_fractions all_encode archive window_request 12_096_000_000_000_000 (2, 1)
      window-lookback (parse-format 2 1 (omega arith) (omega arith))

-- Page 1 is a file of one byte.
abbrev files : Fetcher
files = record {
  waits = λ page. true;
  build_url = λ page. some (codes "file:///tmp/a?page=1");
  read_file = λ path. if bytes_eq path (codes "/tmp/a") then some (65 ∷ []) else none;
  builds = λ target. true;
  get = λ target. none;
}

fetch_page-ok_example :
    (target : Bytes) × (true ≡ true)
    × (some (codes "file:///tmp/a?page=1") ≡ some target)
    × (FromFile files target (65 ∷ []) ⊎ FromHttp files target (65 ∷ []))
    × ((fetch_page files 1).recorded ≡ some true)
unfolding fetch_page fetch_target read_file_url fetched
fetch_page-ok_example = fetch_page-ok files 1 (65 ∷ []) refl
