-- ===== src/Dmhy/Html/Rows.antt =====
-- Every content row of a page gives one post, and the rows are the page from the first of them on.
use takuhai.Base.{
  All, Bool-cases, Bytes, Int64, List, Option, [], ap, arith, contains, false, has_prefix, inl, inr,
  length, map, none, refl, some, suc, sym, true, zero, ℕ, ◌++◌, ◌<◌, ◌∙◌, ◌∷◌, ◌≡◌, ◌≤◌, ◌⊎◌,
}
use takuhai.RawPost.{RawPost}
use takuhai.Dmhy.Patterns.{archive_row, list_table}
use takuhai.Rows.{split_at, count_openings, joined, split_at-joined, length-split_at}
use takuhai.Dmhy.Html.{opens_row, page_posts, parse_archive_page, row_post}

-- How often the opening of a content row occurs.
abbrev pub count_rows : Bytes → ℕ
count_rows = count_openings opens_row

has_prefix-append :
    (front s : Bytes) → has_prefix front s ≡ true → (rest : Bytes) × (s ≡ front ++ rest)
has_prefix-append [] s e = (s, refl)
has_prefix-append (p ∷ front) [] e = cc e
has_prefix-append (p ∷ front) (c ∷ s) e =
    let same : p ≡ c = ground (arith, e) in
    let (rest, q) = has_prefix-append front s (ground (arith, e)) in
    (rest, ap (λ t. c ∷ t) q ∙ ap (λ d. d ∷ front ++ rest) (sym same))

-- A row keeps its opening: no other row opens inside of it.
row_opens :
    (s t : Bytes)
    → s ≡ archive_row ++ t
    → All (λ row. has_prefix archive_row row ≡ true) (split_at opens_row t).1
    → All (λ row. has_prefix archive_row row ≡ true) (split_at opens_row s).1
unfolding split_at
row_opens s t e h = rw e (refl, h)

rows-opens_row :
    (n : ℕ) (s : Bytes)
    → length s ≤ n
    → All (λ row. has_prefix archive_row row ≡ true) (split_at opens_row s).1
unfolding split_at
rows-opens_row n [] room = tt
rows-opens_row zero (c ∷ s) room = absurd (omega (arith, room))
rows-opens_row (suc n) (c ∷ s) room = elim (Bool-cases (has_prefix archive_row (c ∷ s))) [
  | inl e ↦
      let (t, q) = has_prefix-append archive_row (c ∷ s) e in
      row_opens (c ∷ s) t q (rows-opens_row n t (omega (arith, room, ap length q)))
  | inr e ↦ rw e (rows-opens_row n s (omega (arith, room)))
]

-- The outcome of a page.
abbrev pub Parsed : (Bytes → ℕ → Option Int64) → Bytes → Option (List RawPost) → Type 0
Parsed scale body out =
    ((0 < count_rows body)
      × (front : Bytes) × (rows : List Bytes) × (out ≡ some (map (row_post scale) rows))
      × (length rows ≡ count_rows body)
      × (front ++ joined rows ≡ body)
      × All (λ row. has_prefix archive_row row ≡ true) rows)
    ⊎ (((count_rows body ≡ 0) × (contains list_table body ≡ true) × (out ≡ some []))
        ⊎ ((count_rows body ≡ 0) × (contains list_table body ≡ false) × (out ≡ none)))

page_posts-Parsed :
    (scale : Bytes → ℕ → Option Int64) (body front : Bytes) (rows : List Bytes)
    → length rows ≡ count_rows body
    → front ++ joined rows ≡ body
    → All (λ row. has_prefix archive_row row ≡ true) rows
    → Parsed scale body (page_posts scale body rows)
unfolding page_posts
page_posts-Parsed scale body front [] n whole opens = elim (Bool-cases (contains list_table body)) [
  | inl e ↦ inr (inl (sym n, e, rw e refl))
  | inr e ↦ inr (inr (sym n, e, rw e refl))
]
page_posts-Parsed scale body front (row ∷ rows) n whole opens =
    inl (omega (arith, n), front, row ∷ rows, refl, n, whole, opens)

-- A page that is parsed gives one post for each of its content rows, in their order: each row opens
-- as a content row does, and the rows follow each other from the first of them to the end of the
-- page. A page without content rows is empty if it holds the table of the listing, and else a failure.
pub parse_archive_page_lem :
    (scale : Bytes → ℕ → Option Int64) (body : Bytes)
    → Parsed scale body (parse_archive_page scale body)
unfolding parse_archive_page
parse_archive_page_lem scale body =
    page_posts-Parsed scale body (split_at opens_row body).0 (split_at opens_row body).1
      (length-split_at opens_row body) (split_at-joined opens_row body)
      (rows-opens_row (length body) body (omega arith))

pub parse_archive_page-none :
    (scale : Bytes → ℕ → Option Int64) (body : Bytes)
    → count_rows body ≡ 0
    → contains list_table body ≡ false
    → parse_archive_page scale body ≡ none
parse_archive_page-none scale body empty bare = elim (parse_archive_page_lem scale body) [
  | inl r ↦ absurd (omega (arith, r.0, empty))
  | inr (inl (_, table, _)) ↦ cc (table, bare)
  | inr (inr (_, _, refused)) ↦ refused
]
