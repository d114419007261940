-- ===== src/Crawl/Walk/Stream.antt =====
-- The rows of a source's archive as the crawler reaches them, page after page.
use takuhai.Base.{
  Int64, List, [], add64, ap, append-nil, arith, drop, false, if◌then◌else◌, length, length-append,
  length-drop, min, refl, suc, sym, zero, ℕ, ◌++◌, ◌+◌, ◌<◌, ◌==◌, ◌∙◌, ◌∷◌, ◌≡◌, ◌≤◌,
}
use takuhai.Errors.{ok, err}
use takuhai.RawPost.{RawPost}
use takuhai.Crawl.Walk.{Config, State, page_rows, start}
use takuhai.Crawl.Walk.Round.{drop-min}

drop-add : (m n : ℕ) (rows : List RawPost) → drop (m + n) rows ≡ drop n (drop m rows)
drop-add zero n rows = let e : 0 + n ≡ n = omega arith in ap (λ k. drop k rows) e
drop-add (suc m) zero [] =
    let e : suc m + 0 ≡ suc m = omega arith in ap (λ k. drop {A = RawPost} k []) e
drop-add (suc m) (suc n) [] =
    let e : suc m + suc n ≡ suc (m + suc n) = omega arith in ap (λ k. drop {A = RawPost} k []) e
drop-add (suc m) n (p ∷ rows) =
    let e : suc m + n ≡ suc (m + n) = omega arith in
    ap (λ k. drop k (p ∷ rows)) e ∙ drop-add m n rows

drop-append : (xs ys : List RawPost) → drop (length xs) (xs ++ ys) ≡ ys
drop-append [] ys = refl
drop-append (x ∷ xs) ys = drop-append xs ys

-- What is left of a page behind the rows taken.
pub drop_taken :
    (skip : ℕ) (rows taken rest : List RawPost)
    → drop skip rows ≡ taken ++ rest
    → (drop (min skip (length rows) + length taken) rows ≡ rest)
      × (min skip (length rows) + length taken ≤ length rows)
drop_taken skip rows taken rest e = (
  drop-add (min skip (length rows)) (length taken) rows
      ∙ (ap (drop (length taken)) (drop-min skip rows ∙ e) ∙ drop-append taken rest),
  omega (arith, ap length e, length-append taken rest, length-drop skip rows),
)

module _ {Body : Type 0} (c : Config Body) where
  -- The rows of a page, none where it cannot be fetched or parsed.
  unfoldable pub rows_of : Int64 → List RawPost
  rows_of page = elim (page_rows c page) [ ok rows ↦ rows | err e ↦ [] ]

  -- The rows of n pages from the given one on.
  unfoldable pub pages : ℕ → Int64 → List RawPost
  pages zero page = []
  pages (suc n) page = rows_of page ++ pages n (add64 page 1)

  -- The rows of the page of a position, without those that it skips, and of n further pages.
  pub stream : ℕ → State → List RawPost
  stream n s = drop s.skip (rows_of s.page) ++ pages n (add64 s.page 1)

  pub rows_of-ok :
      (page : Int64) (rows : List RawPost) → page_rows c page ≡ ok rows → rows_of page ≡ rows
  unfolding rows_of
  rows_of-ok page rows q = rw (q, rows_of)

  pub pages-add :
      (n m : ℕ) (page : Int64) → m ≡ suc n → pages m page ≡ rows_of page ++ pages n (add64 page 1)
  unfolding pages
  pages-add n m page e = ap (λ k. pages k page) e

  pub start_used :
      (n : ℕ) (page : Int64)
      → stream n (start c (page, 0)) ≡ rows_of (add64 page 1) ++ pages n (add64 (add64 page 1) 1)
  unfolding stream start
  start_used n page = refl

  pub start_within :
      (n offset : ℕ) (page : Int64)
      → 0 < offset
      → stream n (start c (page, offset)) ≡ drop offset (rows_of page) ++ pages n (add64 page 1)
  unfolding stream start
  start_within n zero page h = absurd (omega arith)
  start_within n (suc offset) page h =
      let e : (suc offset == 0) ≡ false = ground arith in
      ap
        (λ b.
          drop (suc offset) (rows_of (if b then add64 page 1 else page))
          ++ pages n (add64 (if b then add64 page 1 else page) 1))
        e

  pub stream_split :
      (n : ℕ) (s : State) {d : List RawPost}
      → drop s.skip (rows_of s.page) ≡ d
      → stream n s ≡ d ++ pages n (add64 s.page 1)
  unfolding stream
  stream_split n s e = ap (λ d. d ++ pages n (add64 s.page 1)) e

  pub stream_next :
      (n : ℕ) (s : State) {page : Int64}
      → s.page ≡ page
      → s.skip ≡ 0
      → stream n s ≡ rows_of page ++ pages n (add64 page 1)
  unfolding stream
  stream_next n s e z =
      ap (λ k. drop k (rows_of s.page) ++ pages n (add64 s.page 1)) z
      ∙ ap (λ p. rows_of p ++ pages n (add64 p 1)) e

  -- Behind a page that was used up the rows go on with the ones of the next round.
  pub stream_round :
      (n : ℕ) (s s' : State) (rows : List RawPost)
      → page_rows c s.page ≡ ok rows
      → s'.page ≡ add64 s.page 1
      → s'.skip ≡ 0
      → stream (n + 1) s ≡ drop s.skip rows ++ stream n s'
  stream_round n s s' rows q next fresh =
      stream_split (n + 1) s (ap (drop s.skip) (rows_of-ok s.page rows q))
      ∙ ap (λ t. drop s.skip rows ++ t)
          (pages-add n (n + 1) (add64 s.page 1) (omega arith) ∙ sym (stream_next n s' next fresh))

  pub stream_first :
      (s : State) (rows : List RawPost)
      → page_rows c s.page ≡ ok rows
      → stream 0 s ≡ drop s.skip rows
  unfolding pages
  stream_first s rows q =
      stream_split 0 s (ap (drop s.skip) (rows_of-ok s.page rows q)) ∙ append-nil (drop s.skip rows)
