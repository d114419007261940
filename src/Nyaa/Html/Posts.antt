-- ===== src/Nyaa/Html/Posts.antt =====
-- What a listing page gives: the posts of its rows, each with its own id and URL.
use takuhai.Base.{
  All, Bool-cases, Bytes, Int64, List, Option, Option-cases, [], ap, arith, bytes_eq, codes, false,
  inl, inr, length, none, refl, some, subst, sym, true, ℕ, ◌++◌, ◌<◌, ◌∷◌, ◌≡◌, ◌≢◌, ◌≤◌, ◌⊎◌,
}
use takuhai.Rows.{split_at, count_openings, length-split_at}
use takuhai.RawPost.{RawPost}
use takuhai.Nyaa.Patterns.{opens_row, has_list_table, matches_in, no_results}
use takuhai.Nyaa.Html.{row_post, row_posts, row_title, page_posts, parse_listing_page}

module _ (unescape : Bytes → Bytes) (scale : Bytes → ℕ → Option Int64) where
  -- A post of a row: its id is not empty and its URL ends in the id.
  abbrev pub Named : RawPost → Type 0
  Named p =
      (p.source_id ≢ [])
      × (p.url ≡ codes "https://nyaa.si/view/" ++ p.source_id)
      × (p.source ≡ codes "nyaa")

  abbrev Given : Option RawPost → Type 0
  Given none = Unit {0}
  Given (some p) = Named p

  row_post-Given : (row : Bytes) → Given (row_post unescape scale row)
  unfolding row_post
  row_post-Given row = elim (Bool-cases (bytes_eq (row_title unescape scale row).0 [])) [
    | inl q ↦ rw (row_post, q) tt
    | inr q ↦ rw (row_post, q) ((λ e. ground (arith, q, ap (λ x. bytes_eq x []) e)), refl, refl)
  ]

  row_posts-Named :
      (rows : List Bytes)
      → All Named (row_posts unescape scale rows)
        × (length (row_posts unescape scale rows) ≤ length rows)
  unfolding row_posts
  row_posts-Named [] = (tt, omega arith)
  row_posts-Named (row ∷ rows) =
      let (named, few) = row_posts-Named rows in
      elim (Option-cases (row_post unescape scale row)) [
        | inl q ↦ rw (row_posts, q) (named, omega (arith, few))
        | inr (p, q) ↦
            let given : Named p = subst Given q (row_post-Given row) in
            rw (row_posts, q) ((given, named), omega (arith, few))
      ]

  -- The outcome of a page.
  abbrev pub Parsed : Bytes → Option (List RawPost) → Type 0
  Parsed page out =
      ((0 < count_openings opens_row page)
        × (posts : List RawPost) × (out ≡ some posts)
        × (length posts ≤ count_openings opens_row page)
        × All Named posts)
      ⊎ (((count_openings opens_row page ≡ 0)
            × ((has_list_table page ≡ true) ⊎ (matches_in no_results page ≡ true))
            × (out ≡ some []))
          ⊎ ((count_openings opens_row page ≡ 0)
              × (has_list_table page ≡ false)
              × (matches_in no_results page ≡ false)
              × (out ≡ none)))

  page_posts-Parsed :
      (page : Bytes) (rows : List Bytes)
      → length rows ≡ count_openings opens_row page
      → Parsed page (page_posts unescape scale page rows)
  unfolding page_posts
  page_posts-Parsed page [] n = elim (Bool-cases (has_list_table page)) [
    | inl e ↦ inr (inl (sym n, inl e, rw (page_posts, e) refl))
    | inr e ↦ elim (Bool-cases (matches_in no_results page)) [
      | inl e' ↦ inr (inl (sym n, inr e', rw (page_posts, e, e') refl))
      | inr e' ↦ inr (inr (sym n, e, e', rw (page_posts, e, e') refl))
    ]
  ]
  page_posts-Parsed page (row ∷ rows) n =
      let (named, few) = row_posts-Named (row ∷ rows) in
      inl (
        omega (arith, n),
        row_posts unescape scale (row ∷ rows),
        refl,
        omega (arith, n, few),
        named,
      )

  -- A listing page with rows gives at most one post for each, and every post has nyaa as source, an
  -- id and the URL of that id. A page without rows is empty if it holds the table of the listing or says that there are
  -- no results, and else a failure.
  pub parse_listing_page_lem : (page : Bytes) → Parsed page (parse_listing_page unescape scale page)
  unfolding parse_listing_page
  parse_listing_page_lem page =
      page_posts-Parsed page (split_at opens_row page).1 (length-split_at opens_row page)
