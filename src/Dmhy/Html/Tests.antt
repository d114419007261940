-- ===== src/Dmhy/Html/Tests.antt =====
-- Runs on pages of one content row.
use takuhai.Base.{Bytes, Int64, Option, codes, none, refl, ℕ, ◌≡◌}
use takuhai.Rows.{split_at}
use takuhai.Dmhy.Html.{parse_archive_page, page_posts}
use takuhai.Dmhy.Html.Rows.{Parsed, parse_archive_page_lem}

abbrev no_scale : Bytes → ℕ → Option Int64
no_scale number mult = none

abbrev small_page : Bytes
small_page = codes "<p><tr class=\"\">a"

parse_archive_page_lem_example : Parsed no_scale small_page (parse_archive_page no_scale small_page)
parse_archive_page_lem_example = parse_archive_page_lem no_scale small_page

interstitial : parse_archive_page no_scale (codes "<p>busy") ≡ none
unfolding parse_archive_page split_at page_posts
interstitial = refl
