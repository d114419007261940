-- ===== src/Crawl/Walk/Round.antt =====
-- What one round of the loop over the pages does.
use takuhai.Base.{
  All, Bool-cases, Int64, List, [], add64, ap, append-nil, arith, drop, false, inl, inr, length,
  min, refl, subst, suc, sym, true, zero, ℕ, ◌++◌, ◌+◌, ◌<◌, ◌∙◌, ◌∷◌, ◌≡◌, ◌≤◌, ◌⊎◌,
}
use takuhai.RawPost.{RawPost}
use takuhai.Crawl.Cursor.{format_cursor}
use takuhai.Crawl.Walk.{
  Cutoff, Rows, exhausted, boundary, budget, State, Turn, done, again, CrawlResponse,
  lookback_boundary, page_budget, archive_floor, response, reached, after_rows, turn,
}
use takuhai.Crawl.Walk.Page.{InWindow, OutOfWindow, Taken, take_rows_lem}

pub drop-nil : (n : ℕ) → drop {A = RawPost} n [] ≡ []
drop-nil zero = refl
drop-nil (suc n) = refl

pub drop-min : (n : ℕ) (rows : List RawPost) → drop (min n (length rows)) rows ≡ drop n rows
drop-min zero rows = let e : min zero (length rows) ≡ 0 = omega arith in ap (λ k. drop k rows) e
drop-min (suc n) [] = drop-nil (min (suc n) 0)
drop-min (suc n) (p ∷ rows) =
    let e : min (suc n) (suc (length rows)) ≡ suc (min n (length rows)) = omega arith in
    ap (λ k. drop k (p ∷ rows)) e ∙ drop-min n rows

module _ (threshold : Int64) (cutoff : Cutoff) (page_size : ℕ) where
  -- The archive floor was reached on an empty page.
  pub record AtFloor (s : State) (rows : List RawPost) (r : CrawlResponse) : Type 0 where
    pub empty : rows ≡ []
    pub full_run : reached (s.empties + 1) threshold ≡ true
    pub answer : r ≡ response s s.posts [] false archive_floor

  -- A post before the cutoff was met.
  pub record AtBoundary (s : State) (rows : List RawPost) (r : CrawlResponse) : Type 0 where
    pub taken : List RawPost
    pub rest : List RawPost
    pub old : RawPost
    pub split : drop s.skip rows ≡ taken ++ old ∷ rest
    pub inside : All (InWindow cutoff page_size) taken
    pub outside : OutOfWindow cutoff page_size old
    pub room : length (s.posts ++ taken) ≤ page_size
    pub answer : r ≡ response s (s.posts ++ taken) [] false lookback_boundary

  -- The budget was filled, and the cursor names what is left of the page.
  pub record AtBudget (s : State) (rows : List RawPost) (r : CrawlResponse) : Type 0 where
    pub taken : List RawPost
    pub rest : List RawPost
    pub offset : ℕ
    pub split : drop s.skip rows ≡ taken ++ rest
    pub inside : All (InWindow cutoff page_size) taken
    pub full : length (s.posts ++ taken) ≡ page_size
    pub resume :
        ((rest ≡ []) × (offset ≡ 0))
        ⊎ ((offset ≡ min s.skip (length rows) + length taken)
            × (0 < length taken)
            × (0 < length rest))
    pub answer : r ≡ response s (s.posts ++ taken) (format_cursor s.page offset) true page_budget

  -- The page was used up and the walk goes on.
  pub record GoesOn (s : State) (rows : List RawPost) (s' : State) : Type 0 where
    pub page : s'.page ≡ add64 s.page 1
    pub skip : s'.skip ≡ 0
    pub fetched : s'.fetched ≡ s.fetched + 1
    pub posts : s'.posts ≡ s.posts ++ drop s.skip rows
    pub inside : All (InWindow cutoff page_size) (drop s.skip rows)
    pub room : length s'.posts < page_size
    pub run :
        ((rows ≡ []) × (s'.empties ≡ s.empties + 1) × (reached (s.empties + 1) threshold ≡ false))
        ⊎ ((0 < length rows) × (s'.empties ≡ 0))

  abbrev pub Turned : State → List RawPost → Turn → Type 0
  Turned s rows (done r) = AtFloor s rows r ⊎ (AtBoundary s rows r ⊎ AtBudget s rows r)
  Turned s rows (again s') = GoesOn s rows s'

  after_rows_lem :
      (s : State) (p : RawPost) (rows : List RawPost) (t : Rows)
      → Taken cutoff page_size
          (min s.skip (length (p ∷ rows)))
          (drop (min s.skip (length (p ∷ rows))) (p ∷ rows))
          s.posts
          t
      → Turned s (p ∷ rows) (after_rows s t)
  unfolding after_rows
  after_rows_lem s p rows (exhausted ps) (e, a, l) =
      let same = drop-min s.skip (p ∷ rows) in
      record {
        page = refl;
        skip = refl;
        fetched = refl;
        posts = e ∙ ap (λ d. s.posts ++ d) same;
        inside = subst (All (InWindow cutoff page_size)) same a;
        room = l;
        run = inr (omega arith, refl);
      }
  after_rows_lem s p rows (boundary ps) (taken, rest, q, er, e, a, o, l) = inr (
      inl record {
        taken = taken;
        rest = rest;
        old = q;
        split = sym (drop-min s.skip (p ∷ rows)) ∙ er;
        inside = a;
        outside = o;
        room = subst (λ z. length z ≤ page_size) e l;
        answer = ap (λ z. response s z [] false lookback_boundary) e;
      })
  after_rows_lem s p rows (budget ps offset) (taken, rest, er, e, a, l, o) = inr (
      inr record {
        taken = taken;
        rest = rest;
        offset = offset;
        split = sym (drop-min s.skip (p ∷ rows)) ∙ er;
        inside = a;
        full = subst (λ z. length z ≡ page_size) e l;
        resume = o;
        answer = ap (λ z. response s z (format_cursor s.page offset) true page_budget) e;
      })

  -- Every round ends the crawl in one of three ways or goes on to the next page.
  pub turn_lem :
      (s : State) (rows : List RawPost)
      → length s.posts < page_size
      → Turned s rows (turn threshold cutoff page_size s rows)
  unfolding turn
  turn_lem s [] l = elim (Bool-cases (reached (s.empties + 1) threshold)) [
    | inl full ↦ rw full (inl (record { empty = refl; full_run = full; answer = refl }))
    | inr short ↦ rw short record {
      page = refl;
      skip = refl;
      fetched = refl;
      posts = sym (append-nil s.posts) ∙ ap (λ d. s.posts ++ d) (sym (drop-nil s.skip));
      inside = subst (All (InWindow cutoff page_size)) (sym (drop-nil s.skip)) tt;
      room = l;
      run = inl (refl, refl, short);
    }
  ]
  turn_lem s (p ∷ rows) l = after_rows_lem s p rows _ (
      take_rows_lem cutoff page_size (min s.skip (length (p ∷ rows)))
        (drop (min s.skip (length (p ∷ rows))) (p ∷ rows)) s.posts l)
