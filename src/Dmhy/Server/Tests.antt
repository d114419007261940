-- ===== src/Dmhy/Server/Tests.antt =====
-- A busy page in the place of the archive.
use takuhai.Base.{Bytes, Int64, Option, arith, codes, none, refl, some, true, ℕ, ◌≡◌}
use takuhai.Crawl.Cursor.{parse-format}
use takuhai.Crawl.Lookback.Tests.{no_fractions}
use takuhai.Crawl.Server.{parse_error, serve_http}
use takuhai.Crawl.Server.Tests.{window_request, window-lookback, all_encode}
use takuhai.Dmhy.Server.{shared}
use takuhai.Dmhy.Server.Interstitial.{interstitial_refused}
use takuhai.Rows.{count_openings}
use takuhai.Dmhy.Html.Rows.{count_rows}

abbrev busy : Int64 → Int64 → Option Bytes
busy sort_id page = some (codes "busy")

abbrev unscaled : Bytes → ℕ → Option Int64
unscaled number mult = none

no_rows : count_rows (codes "busy") ≡ 0
unfolding count_openings
no_rows = refl

interstitial_refused_example :
    serve_http no_fractions all_encode (shared unscaled busy 2 9) true (some window_request)
    ≡ some (record { status = 502; body = none; result = parse_error; post_count = 0 })
interstitial_refused_example =
    interstitial_refused no_fractions all_encode unscaled busy 2 9 window_request
      12_096_000_000_000_000 (2, 1) (codes "busy") window-lookback
      (parse-format 2 1 (omega arith) (omega arith)) refl no_rows refl
