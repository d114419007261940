-- ===== src/Nyaa/Html.antt =====
-- sources/nyaa/parse.go: the posts of a listing page.
pub mod Posts
mod Tests
use takuhai.Base.{
  Bytes, Int64, List, Option, Time, [], bytes_eq, codes, if◌then◌else◌, length, map, none, not,
  some, zero_time, ℕ, ◌&&◌, ◌*◌, ◌++◌, ◌+◌, ◌∷◌,
}
use takuhai.Rows.{split_at}
use takuhai.RawPost.{RawPost}
use takuhai.Stdlib.Decimal.{atoi}
use takuhai.Stdlib.Trim.{trim_space}
use takuhai.Stdlib.Regexp.{Piece, Match, find, find_all, groups, delete_all}
use takuhai.Nyaa.Patterns.{
  has_list_table, opens_row, no_results, matches_in, view_anchor, attribute, magnet_link, size_cell,
  timestamp, tag,
}
use takuhai.Nyaa.Size.{parse_size}

-- The groups of the leftmost match, none where there is no match.
pub match_groups : List Piece → Bytes → List Bytes
match_groups ps s = elim (find ps s) [ none ↦ [] | some m ↦ groups m.0 ]

-- 1970-01-01T00:00:00Z in seconds.
abbrev pub unix_epoch : ℕ
unix_epoch = 62_167_219_200

-- time.Unix, but for timestamps so large that the seconds of time.Time wrap.
pub published_of : List Bytes → Time
published_of [] = zero_time
published_of (digits ∷ gs) = elim (atoi digits) [
  | none ↦ zero_time
  | some seconds ↦ (unix_epoch + seconds) * 1_000_000_000
]

pub row_published_at : Bytes → Time
unfolding match_groups published_of
row_published_at row = published_of (match_groups timestamp row)

-- `unescape` is html.UnescapeString, `scale` the product of a size.
module _ (unescape : Bytes → Bytes) (scale : Bytes → ℕ → Option Int64) where
  -- The loop of attrValue over the attributes.
  pub value_of : Bytes → List (List Bytes) → Bytes
  value_of name [] = []
  value_of name ([] ∷ attributes) = value_of name attributes
  value_of name ((n ∷ []) ∷ attributes) = value_of name attributes
  value_of name ((n ∷ v ∷ more) ∷ attributes) =
      let rest = value_of name attributes in if bytes_eq n name then unescape v else rest

  pub attr_value : Bytes → Bytes → Bytes
  unfolding value_of
  attr_value attrs name =
      value_of name (map (λ (m : Match). groups m.0) (find_all (length attrs) attribute attrs))

  pub title_in : Bytes → Bytes → Bytes
  unfolding attr_value
  title_in attrs content =
      let named = attr_value attrs (codes "title") in
      if bytes_eq named [] then trim_space (delete_all (length content) tag content) else named

  -- The id and the title, from the groups of the anchor of a row.
  pub anchor_title : List Bytes → Bytes × Bytes
  unfolding title_in
  anchor_title (ahead ∷ id ∷ behind ∷ content ∷ []) =
      (id, unescape (trim_space (title_in (ahead ++ behind) content)))
  anchor_title _ = ([], [])

  pub row_title : Bytes → Bytes × Bytes
  unfolding anchor_title match_groups
  row_title row = anchor_title (match_groups view_anchor row)

  pub magnet_of : List Bytes → Bytes
  magnet_of [] = []
  magnet_of (m ∷ gs) = unescape m

  pub row_magnet : Bytes → Bytes
  unfolding magnet_of match_groups
  row_magnet row = magnet_of (match_groups magnet_link row)

  pub size_of : List Bytes → Int64
  size_of [] = 0
  size_of (size ∷ gs) = elim (parse_size scale size) [ none ↦ 0 | some n ↦ n ]

  pub row_size : Bytes → Int64
  unfolding size_of match_groups
  row_size row = size_of (match_groups size_cell row)

  -- The body of the loop over the rows: a row without an id is passed over.
  pub row_post : Bytes → Option RawPost
  unfolding row_title row_magnet row_published_at row_size
  row_post row =
      let (id, title) = row_title row in
      if bytes_eq id []
      then none
      else some (record {
        title = title;
        magnet = row_magnet row;
        source = codes "nyaa";
        source_id = id;
        url = codes "https://nyaa.si/view/" ++ id;
        published_at = row_published_at row;
        size_bytes = row_size row;
      })

  pub row_posts : List Bytes → List RawPost
  unfolding row_post
  row_posts [] = []
  row_posts (row ∷ rows) = elim (row_post row) [
    | none ↦ row_posts rows
    | some post ↦ post ∷ row_posts rows
  ]

  pub page_posts : Bytes → List Bytes → Option (List RawPost)
  unfolding row_posts
  page_posts page [] =
      if not (has_list_table page) && not (matches_in no_results page) then none else some []
  page_posts page (row ∷ rows) = some (row_posts (row ∷ rows))

  pub parse_listing_page : Bytes → Option (List RawPost)
  unfolding page_posts
  parse_listing_page page = page_posts page (split_at opens_row page).1
