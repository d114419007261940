-- ===== src/Nyaa/Html/Tests.antt =====
-- Runs on listing pages.
use takuhai.Base.{Bytes, Int64, Option, codes, none, refl, ℕ, ◌≡◌}
use takuhai.Stdlib.Decimal.{atoi}
use takuhai.Stdlib.Trim.{trim_space}
use takuhai.Stdlib.Regexp.{
  find, find_all, groups, delete_all, between, match_at, match_one, match_many, match_few, not_char,
  any_char, is_blank, is_word, is_ahead, or_else,
}
use takuhai.Nyaa.Patterns.{is_name}
use takuhai.Nyaa.Html.{
  row_title, anchor_title, title_in, attr_value, value_of, match_groups, parse_listing_page,
  row_published_at, published_of,
}
use takuhai.Nyaa.Html.Posts.{Parsed, parse_listing_page_lem}

abbrev no_scale : Bytes → ℕ → Option Int64
no_scale number mult = none

abbrev plain : Bytes → Bytes
plain s = s

abbrev small_page : Bytes
small_page = codes "<table class=\"table torrent-list\">"

parse_listing_page_lem_example :
    Parsed plain no_scale small_page (parse_listing_page plain no_scale small_page)
parse_listing_page_lem_example = parse_listing_page_lem plain no_scale small_page

abbrev row : Bytes
row = codes "<td><a href=\"/view/42\" title=\"Show - 01\">Show</a></td><td data-timestamp=\"60\">"

row-title : row_title plain no_scale row ≡ (codes "42", codes "Show - 01")
unfolding row_title anchor_title title_in attr_value value_of match_groups trim_space find find_all
    groups delete_all between match_at match_one match_many match_few not_char any_char is_blank
    is_word is_name is_ahead or_else
row-title = refl

row-date : row_published_at row ≡ 62_167_219_260_000_000_000
unfolding row_published_at published_of match_groups atoi find groups between match_at match_one
    match_many match_few is_ahead or_else
row-date = refl
