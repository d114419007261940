-- ===== src/Dmhy/Jsonl/Archive.antt =====
-- Saved pages of the archive give the rows that the crawler walks through.
use takuhai.Base.{
  Bool, Bytes, Int64, List, Option, Option-cases, Time, [], add64, ap, false, inl, inr, map_option,
  none, refl, some, some-injective, suc, sym, zero, ℕ, ◌++◌, ◌||◌, ◌∙◌, ◌∷◌, ◌≡◌,
}
use takuhai.RawPost.{RawPost}
use takuhai.Crawl.Walk.{page_rows}
use takuhai.Crawl.Walk.Stream.{pages, rows_of, rows_of-ok}
use takuhai.Dmhy.Html.{parse_archive_page}
use takuhai.Dmhy.Jsonl.{ParseCmd, Outside, is_stdin, read_input, parse_file, run}
use takuhai.Dmhy.Jsonl.Written.{posts_of, run-ok}
use takuhai.Dmhy.Server.{shared}

-- The names of n saved pages from the given one on.
abbrev pub saved_files : (Int64 → Bytes) → ℕ → Int64 → List Bytes
saved_files name zero page = []
saved_files name (suc n) page = name page ∷ saved_files name n (add64 page 1)

-- Posts of several files are those of the first and those of the others.
posts_of-split :
    (scale : Bytes → ℕ → Option Int64) (w : Outside) (drained : Bool) (name : Bytes)
    (files : List Bytes) (all : List RawPost)
    → posts_of scale w drained (name ∷ files) ≡ some all
    → (posts : List RawPost) × (rest : List RawPost) × (parse_file scale w drained name
        ≡ some posts)
      × (posts_of scale w (drained || is_stdin name) files ≡ some rest)
      × (posts ++ rest ≡ all)
unfolding posts_of
posts_of-split scale w drained name files all e =
    elim (Option-cases (parse_file scale w drained name)) [
      | inl n ↦
          let e' : ◌≡◌ {A = Option (List RawPost)} none (some all) = rw (n, posts_of) at e in cc e'
      | inr (posts, q) ↦
          let e1 : map_option (λ rest. posts ++ rest)
                (posts_of scale w (drained || is_stdin name) files)
              ≡ some all =
            rw (q, posts_of) at e in
          elim (Option-cases (posts_of scale w (drained || is_stdin name) files)) [
            | inl n ↦ let e' : ◌≡◌ {A = Option (List RawPost)} none (some all) = rw n at e1 in cc e'
            | inr (rest, r) ↦ (posts, rest, q, r, some-injective (rw r at e1))
          ]
    ]

module _ (scale : Bytes → ℕ → Option Int64) (w : Outside) (fetch : Int64 → Int64 → Option Bytes)
    (sort_id : Int64) (now : Time) (name : Int64 → Bytes)
    (named : (page : Int64) → is_stdin (name page) ≡ false)
    (saved : (page : Int64) → w.read_file (name page) ≡ fetch sort_id page) where
  parse_file-rows :
      (page : Int64) (posts : List RawPost)
      → parse_file scale w false (name page) ≡ some posts
      → rows_of (shared scale fetch sort_id now) page ≡ posts
  unfolding parse_file read_input shared page_rows
  parse_file-rows page posts e =
      let html : read_input w false (name page) ≡ fetch sort_id page =
        rw (named page, read_input) (saved page) in
      elim (Option-cases (fetch sort_id page)) [
        | inl n ↦
            let e' : ◌≡◌ {A = Option (List RawPost)} none (some posts) =
              rw (html, n, parse_file) at e in
            cc e'
        | inr (body, q) ↦
            let e' : parse_archive_page scale body ≡ some posts = rw (html, q, parse_file) at e in
            rows_of-ok (shared scale fetch sort_id now) page posts (rw (q, page_rows, e') refl)
      ]

  posts_of-pages :
      (n : ℕ) (page : Int64) (posts : List RawPost)
      → posts_of scale w false (saved_files name n page) ≡ some posts
      → pages (shared scale fetch sort_id now) n page ≡ posts
  unfolding posts_of pages
  posts_of-pages zero page posts e = some-injective e
  posts_of-pages (suc n) page posts e =
      let (first, rest, p, q, whole) =
        posts_of-split scale w false (name page) (saved_files name n (add64 page 1)) posts e in
      let q' : posts_of scale w false (saved_files name n (add64 page 1)) ≡ some rest =
        rw (named page) at q in
      rw (parse_file-rows page first p, posts_of-pages n (add64 page 1) rest q') whole

  -- With the pages of the archive saved as files, none of them named -: the command that ends without
  -- an error on n of them writes exactly the rows that a crawl walks through on these pages.
  pub archive_output :
      (c : ParseCmd) (n : ℕ) (page : Int64)
      → c.files ≡ saved_files name n page
      → (run scale w c).1 ≡ none
      → (run scale w c).0 ≡ pages (shared scale fetch sort_id now) n page
  archive_output c n page same h =
      let (posts, found, text) = run-ok scale w c h in
      text ∙ sym (posts_of-pages n page posts (ap (posts_of scale w false) (sym same) ∙ found))
