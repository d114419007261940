-- ===== src/Dmhy/Server/Interstitial.antt =====
-- A page that is no archive page is not taken for the end of the archive.
use takuhai.Base.{Bool, Bytes, Int64, Option, Time, contains, false, none, some, true, ℕ, ◌≡◌}
use takuhai.Errors.{ok, err, crawl_parse}
use takuhai.Crawl.Cursor.{parse_cursor}
use takuhai.Crawl.Lookback.{parse_lookback}
use takuhai.Crawl.Walk.{CrawlRequest, CrawlResponse, start, page_rows}
use takuhai.Crawl.Walk.Failure.{crawl-first, page_rows-unparsed}
use takuhai.Crawl.Server.{parse_error, serve_http}
use takuhai.Crawl.Server.Window.{serve_unparsed}
use takuhai.Dmhy.Patterns.{list_table}
use takuhai.Dmhy.Html.Rows.{count_rows, parse_archive_page-none}
use takuhai.Dmhy.Server.{shared}

-- A POST /crawl with a lookback and a cursor that parse, whose first page comes without content rows
-- and without the table of the listing, is answered with 502 and no body, and recorded as a
-- parse_error.
pub interstitial_refused :
    (scaled : ℕ → ℕ → ℕ → ℕ) (encodes : CrawlResponse → Bool) (scale : Bytes → ℕ → Option Int64)
    (fetch : Int64 → Int64 → Option Bytes) (sort_id : Int64) (now : Time) (req : CrawlRequest)
    (lookback : Int64) (position : Int64 × Int64) (body : Bytes)
    → parse_lookback scaled req.lookback ≡ ok lookback
    → parse_cursor req.cursor ≡ ok position
    → fetch sort_id (start (shared scale fetch sort_id now) position).page ≡ some body
    → count_rows body ≡ 0
    → contains list_table body ≡ false
    → serve_http scaled encodes (shared scale fetch sort_id now) true (some req)
      ≡ some (record { status = 502; body = none; result = parse_error; post_count = 0 })
unfolding shared
interstitial_refused scaled encodes scale fetch sort_id now req lookback position body first second
      found none_there bare =
    let c = shared scale fetch sort_id now in
    let refused : page_rows c (start c position).page ≡ err crawl_parse =
      page_rows-unparsed c (start c position).page body found
        (parse_archive_page-none scale body none_there bare) in
    serve_unparsed scaled encodes c req lookback position first second
      (crawl-first c req lookback position crawl_parse second refused)
