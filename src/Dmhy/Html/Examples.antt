-- ===== src/Dmhy/Html/Examples.antt =====
-- A content row as DMHY writes it.
use takuhai.Base.{Bytes, codes, refl, ◌*◌, ◌+◌, ◌≡◌}
use takuhai.Stdlib.Trim.{trim_space}
use takuhai.Stdlib.Calendar.{parse_in_location}
use takuhai.Stdlib.Regexp.{
  find, find_all, groups, between, match_at, match_one, match_many, match_few, find_all, not_char,
  any_char, is_blank, or_else,
}
use takuhai.Dmhy.Html.{row_magnet, row_title, row_published_at, first_group, title_of}

abbrev row : Bytes
row =
    codes
      "<tr class=\"\"><td>now<span style=\"display: none;\">2026/06/20 22:25</span></td><td class=\"title\"><a href=\"/topics/list/team_id/1\">T</a> <a href=\"/topics/view/7_x.html\" >Show</a></td><td align=\"center\">3.6GB</td><a class=\"download-arrow arrow-magnet\" title=\"m\" href=\"magnet:?xt=1\">"

row-magnet : row_magnet row ≡ codes "magnet:?xt=1"
unfolding row_magnet first_group find groups between match_at match_one match_many match_few
    not_char any_char is_blank or_else
row-magnet = refl

-- The year 2026 begins 739,982 days after the year 0, the 20th of June 170 days later.
row-date : row_published_at row ≡ ((740_152 * 24 + 14) * 60 + 25) * 60_000_000_000
unfolding row_published_at first_group parse_in_location trim_space find groups between match_at
    match_one match_many match_few not_char any_char is_blank or_else
row-date = refl

row-title : row_title row ≡ (codes "/topics/view/7_x.html", codes "[T] Show")
unfolding row_title title_of first_group trim_space find_all find groups between match_at match_one
    match_many match_few not_char any_char is_blank or_else
row-title = refl
