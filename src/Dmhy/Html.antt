-- ===== src/Dmhy/Html.antt =====
-- sources/dmhy/html.go: the posts of an archive page.
pub mod Rows
pub mod SourceId
mod Tests
mod Examples
use takuhai.Base.{
  Bool, Bytes, Int64, List, Option, Time, [], any_if, bytes_eq, codes, contains, cut_prefix,
  has_prefix, if◌then◌else◌, length, map, none, some, up_to_byte, zero_time, ℕ, ◌++◌, ◌==◌, ◌∷◌,
}
use takuhai.Rows.{split_at}
use takuhai.RawPost.{RawPost}
use takuhai.Stdlib.Trim.{trim_space}
use takuhai.Stdlib.Calendar.{parse_in_location}
use takuhai.Stdlib.Regexp.{Piece, Match, find, find_all, groups, or_else}
use takuhai.Dmhy.Patterns.{
  archive_row, list_table, title_cell, anchor, data_magnet, arrow_magnet, size_cell, hidden_date,
}
use takuhai.Dmhy.Size.{parse_size}

-- The first group of the leftmost match.
first_of : List Bytes → Option Bytes
first_of [] = none
first_of (g ∷ gs) = some g

pub first_group : List Piece → Bytes → Option Bytes
unfolding first_of
first_group ps s = elim (find ps s) [
  | none ↦ none
  | some (borders, rest) ↦ first_of (groups borders)
]

-- The content rows, each up to the next.
abbrev pub opens_row : Bytes → Bool
opens_row = has_prefix archive_row

-- rowMagnet: a match begins with magnet:, so an empty one stands for none.
pub row_magnet : Bytes → Bytes
row_magnet row = elim (or_else (first_group arrow_magnet row) (first_group data_magnet row)) [
  | none ↦ []
  | some m ↦ m
]

-- The loop of rowTitle over the anchors of the title cell, with the team met so far.
pub title_of : Bytes → List (List Bytes) → Bytes × Bytes
title_of team [] = ([], [])
title_of team ([] ∷ anchors) = title_of team anchors
title_of team ((href ∷ []) ∷ anchors) = title_of team anchors
title_of team ((href ∷ content ∷ more) ∷ anchors) =
    let with_team = title_of (trim_space content) anchors in
    let rest = title_of team anchors in
    let title = trim_space content in
    if contains (codes "/topics/list/team_id/") href
    then with_team
    else if contains (codes "/topics/view/") href
    then (href, if bytes_eq team [] then title else codes "[" ++ (team ++ (codes "] " ++ title)))
    else rest

pub row_title : Bytes → Bytes × Bytes
unfolding title_of
row_title row = elim (first_group title_cell row) [
  | none ↦ ([], [])
  | some cell ↦ title_of [] (map (λ (m : Match). groups m.0) (find_all (length cell) anchor cell))
]

abbrev pub view_marker : Bytes
view_marker = codes "/topics/view/"

-- What stands behind the first occurrence of a text.
pub behind : Bytes → Bytes → Option Bytes
unfolding or_else
behind sep [] = cut_prefix sep []
behind sep (c ∷ s) = let later = behind sep s in or_else (cut_prefix sep (c ∷ s)) later

-- The part up to an underscore, or else up to a point.
pub id_part : Bytes → Bytes
id_part rest = up_to_byte (if any_if (λ c. c == b'_') rest then b'_' else b'.') rest

pub row_source_id : Bytes → Bytes
unfolding id_part
row_source_id href = elim (behind view_marker href) [
  | none ↦ trim_space href
  | some rest ↦ id_part rest
]

-- The zone is eight hours east of UTC.
pub row_published_at : Bytes → Time
row_published_at row = elim (first_group hidden_date row) [
  | none ↦ zero_time
  | some date ↦ elim (parse_in_location 480 (trim_space date)) [ none ↦ zero_time | some t ↦ t ]
]

module _ (scale : Bytes → ℕ → Option Int64) where
  pub row_size : Bytes → Int64
  row_size row = elim (first_group size_cell row) [
    | none ↦ 0
    | some size ↦ elim (parse_size scale size) [ none ↦ 0 | some n ↦ n ]
  ]

  -- The body of the loop over the rows.
  pub row_post : Bytes → RawPost
  unfolding row_title row_magnet row_source_id row_published_at row_size
  row_post row =
      let (href, title) = row_title row in
      record {
        title = title;
        magnet = row_magnet row;
        source = codes "dmhy";
        source_id = row_source_id href;
        url = href;
        published_at = row_published_at row;
        size_bytes = row_size row;
      }

  -- No content row is an empty page if the table of the listing is there, else a failure.
  unfoldable pub page_posts : Bytes → List Bytes → Option (List RawPost)
  unfolding row_post
  page_posts body [] = if contains list_table body then some [] else none
  page_posts body (row ∷ rows) = some (map row_post (row ∷ rows))

  unfoldable pub parse_archive_page : Bytes → Option (List RawPost)
  unfolding page_posts
  parse_archive_page body = page_posts body (split_at opens_row body).1
