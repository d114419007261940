-- ===== src/Crawl/Walk/Resume.antt =====
-- Following next_cursor: consecutive crawls return the rows of the archive one after the other,
-- with no row lost and none repeated.
use takuhai.Base.{
  Int64, List, [], add64, ap, append-nil, append_assoc, arith, drop, inl, inr, length,
  length-append, max_int, min, refl, some, subst, sym, true, ℕ, ◌++◌, ◌+◌, ◌<◌, ◌∙◌, ◌≡◌, ◌≤◌,
}
use takuhai.Errors.{ok, ok-injective}
use takuhai.RawPost.{RawPost}
use takuhai.Crawl.Cursor.{parse_cursor, format_cursor, parse-format}
use takuhai.Crawl.Walk.{
  Config, Cutoff, State, CrawlRequest, CrawlResponse, clamp_page_size, response, page_rows, walk,
  cutoff_for, start, enough_fuel, crawl,
}
use takuhai.Crawl.Walk.Round.{AtBudget}
use takuhai.Crawl.Walk.Rule.{Ends, Continues, walk_rule}
use takuhai.Crawl.Walk.Budget.{crawl-eq-ok, clamp_bounds}
use takuhai.Crawl.Walk.Stream.{
  drop_taken, rows_of, rows_of-ok, pages, pages-add, stream, start_used, start_within, stream_split,
  stream_round, stream_first,
}

-- A page and an offset, as a cursor names them.
abbrev pub Position : Type 0
Position = Int64 × Int64

module _ {Body : Type 0} (c : Config Body) where
  -- The answer's posts are the rows between a position and the one that its cursor names.
  record Resumes (s : State) (r : CrawlResponse) : Type 0 where
    page : Int64
    offset : ℕ
    steps : ℕ
    taken : List RawPost
    cursor : r.next_cursor ≡ format_cursor page offset
    gathered : r.posts ≡ s.posts ++ taken
    joined : (n : ℕ) → stream c (n + steps) s ≡ taken ++ stream c n (start c (page, offset))
    settled :
        stream c 0 (start c (page, offset)) ≡ []
        → (n : ℕ) × (steps ≡ n + 1) × (stream c n s ≡ taken)
    page_fits :
        s.page + r.pages_fetched ≤ max_int + s.fetched
        → (page ≤ max_int) × (page + s.fetched + 1 ≤ s.page + r.pages_fetched)
    offset_fits : offset ≤ length (rows_of c page)

  module _ (cutoff : Cutoff) (page_size : ℕ) (s : State) (rows : List RawPost) (r : CrawlResponse)
      (q : page_rows c s.page ≡ ok rows) where
    used_Resumes :
        (b : AtBudget c.threshold cutoff page_size s rows r)
        → b.rest ≡ []
        → b.offset ≡ 0
        → Resumes s r
    unfolding response
    used_Resumes b nothing zero_offset = record {
      page = s.page;
      offset = 0;
      steps = 1;
      taken = b.taken;
      cursor = ap (λ z. z.next_cursor) b.answer ∙ ap (format_cursor s.page) zero_offset;
      gathered = ap (λ z. z.posts) b.answer;
      joined = λ n.
          stream_split c (n + 1) s (
            ap (drop s.skip) (rows_of-ok c s.page rows q)
            ∙ (b.split ∙ (ap (λ t. b.taken ++ t) nothing ∙ append-nil b.taken)))
          ∙ ap (λ t. b.taken ++ t)
              (pages-add c n (n + 1) (add64 s.page 1) (omega arith) ∙ sym (start_used c n s.page));
      settled = λ h. (
        0,
        refl,
        stream_first c s rows q ∙ (b.split ∙ (ap (λ t. b.taken ++ t) nothing ∙ append-nil b.taken)),
      );
      page_fits = λ h. let n = ap (λ z. z.pages_fetched) b.answer in (omega arith, omega arith);
      offset_fits = omega arith;
    }

    within_Resumes :
        (b : AtBudget c.threshold cutoff page_size s rows r)
        → b.offset ≡ min s.skip (length rows) + length b.taken
        → 0 < length b.taken
        → 0 < length b.rest
        → Resumes s r
    unfolding response
    within_Resumes b somewhere some_taken some_left =
        let known = rows_of-ok c s.page rows q in
        let (left, fits) = drop_taken s.skip rows b.taken b.rest b.split in
        let same : drop b.offset (rows_of c s.page) ≡ b.rest =
          ap (drop b.offset) known ∙ (ap (λ k. drop k rows) somewhere ∙ left) in
        record {
          page = s.page;
          offset = b.offset;
          steps = 0;
          taken = b.taken;
          cursor = ap (λ z. z.next_cursor) b.answer;
          gathered = ap (λ z. z.posts) b.answer;
          joined = λ n.
              let e : n + 0 ≡ n = omega arith in
              ap (λ m. stream c m s) e
              ∙ (stream_split c n s (ap (drop s.skip) known ∙ b.split)
                  ∙ (append_assoc b.taken b.rest (pages c n (add64 s.page 1))
                      ∙ ap (λ t. b.taken ++ t)
                          (sym (
                            start_within c n b.offset s.page (omega arith)
                            ∙ ap (λ t. t ++ pages c n (add64 s.page 1)) same))));
          settled = λ h.
              let first =
                start_within c 0 b.offset s.page (omega arith)
                ∙ ap (λ t. t ++ pages c 0 (add64 s.page 1)) same in
              absurd (
                omega (
                  arith,
                  ap length (sym first ∙ h),
                  length-append b.rest (pages c 0 (add64 s.page 1)),
                  some_left,
                ));
          page_fits = λ h. let n = ap (λ z. z.pages_fetched) b.answer in (omega arith, omega arith);
          offset_fits = omega (arith, fits, ap length known);
        }

    last_Resumes : Ends c cutoff page_size s rows r → r.has_more ≡ true → Resumes s r
    unfolding response
    last_Resumes (inl f) h = absurd (ground (arith, ap (λ z. z.has_more) f.answer))
    last_Resumes (inr (inl b)) h = absurd (ground (arith, ap (λ z. z.has_more) b.answer))
    last_Resumes (inr (inr b)) h = elim b.resume [
      | inl (nothing, zero_offset) ↦ used_Resumes b nothing zero_offset
      | inr (somewhere, some_taken, some_left) ↦ within_Resumes b somewhere some_taken some_left
    ]

    before_Resumes :
        (s' : State) → Continues c cutoff page_size s rows s' → Resumes s' r → Resumes s r
    before_Resumes s' g h = record {
      page = h.page;
      offset = h.offset;
      steps = h.steps + 1;
      taken = drop s.skip rows ++ h.taken;
      cursor = h.cursor;
      gathered =
          h.gathered
          ∙ (ap (λ t. t ++ h.taken) g.posts ∙ append_assoc s.posts (drop s.skip rows) h.taken);
      joined = λ n.
          let e : n + (h.steps + 1) ≡ n + h.steps + 1 = omega arith in
          ap (λ k. stream c k s) e
          ∙ (stream_round c (n + h.steps) s s' rows q g.page g.skip
              ∙ (ap (λ t. drop s.skip rows ++ t) (h.joined n)
                  ∙ sym (append_assoc (drop s.skip rows) h.taken _)));
      settled = λ none_left.
          let (n, counted, all_taken) = h.settled none_left in
          (
            n + 1,
            ap (λ k. k + 1) counted,
            stream_round c n s s' rows q g.page g.skip ∙ ap (λ t. drop s.skip rows ++ t) all_taken,
          );
      page_fits = λ b.
          let (fits, below) = h.page_fits (omega (arith, g.page, g.fetched)) in
          (fits, omega (arith, g.page, g.fetched));
      offset_fits = h.offset_fits;
    }

  walk-Resumes :
      (cutoff : Cutoff) (page_size fuel : ℕ) (s : State) (r : CrawlResponse)
      → length s.posts < page_size
      → walk c fuel cutoff page_size s ≡ some (ok r)
      → r.has_more ≡ true
      → Resumes s r
  walk-Resumes cutoff page_size fuel s r l e =
      walk_rule c cutoff page_size (λ s r. r.has_more ≡ true → Resumes s r)
        (λ s rows r q. last_Resumes cutoff page_size s rows r q)
        (λ s rows s' r q g h m. before_Resumes cutoff page_size s rows r q s' g (h m)) fuel s r l e

  module _ (req : CrawlRequest) (lookback : Int64) (r : CrawlResponse) (from : Position)
      (run : crawl c req lookback ≡ some (ok r)) (more : r.has_more ≡ true)
      (p : parse_cursor req.cursor ≡ ok from) where
    run_Resumes : Resumes (start c from) r
    unfolding start
    run_Resumes =
        let (from', p', run) = crawl-eq-ok c req lookback r run in
        let same : from' ≡ from = ok-injective (sym p' ∙ p) in
        let size = clamp_page_size req.page_size in
        walk-Resumes (cutoff_for c lookback) size (enough_fuel c size) (start c from) r
          (omega (arith, clamp_bounds req.page_size))
          (subst
            (λ z.
              walk c (enough_fuel c size) (cutoff_for c lookback) size (start c z) ≡ some (ok r))
            same run)
          more

    -- The position where the next crawl goes on, and how far it is.
    pub crawl_next :
        from.0 + r.pages_fetched < max_int
        → ((page : Int64) → length (rows_of c page) ≤ max_int)
        → (to : Position) × (steps : ℕ) × (parse_cursor r.next_cursor ≡ ok to)
          × (to.0 ≤ from.0 + r.pages_fetched)
          × (stream c 0 (start c to) ≡ []
              → (n : ℕ) × (steps ≡ n + 1) × (stream c n (start c from) ≡ r.posts))
          × ((n : ℕ) → stream c (n + steps) (start c from) ≡ r.posts ++ stream c n (start c to))
    unfolding start
    crawl_next bound short =
        let h = run_Resumes in
        let (page_fits, near) = h.page_fits (ground arith) in
        (
          (h.page, h.offset),
          h.steps,
          ap parse_cursor h.cursor
              ∙ parse-format h.page h.offset page_fits (omega (arith, h.offset_fits, short h.page)),
          ground (arith, near),
          λ none_left.
              let (n, counted, all_taken) = h.settled none_left in
              (n, counted, all_taken ∙ sym h.gathered),
          λ n. h.joined n ∙ ap (λ t. t ++ stream c n (start c (h.page, h.offset))) (sym h.gathered),
        )

  -- An answer with has_more names a position, such that the rows of the archive from the request's
  -- position on are the posts of the answer followed by the rows from that position on. Pages and
  -- offsets stay below 2 ^ 63.
  pub crawl_resumes :
      (req : CrawlRequest) (lookback : Int64) (r : CrawlResponse) (from : Position)
      → crawl c req lookback ≡ some (ok r)
      → r.has_more ≡ true
      → parse_cursor req.cursor ≡ ok from
      → from.0 + r.pages_fetched < max_int
      → ((page : Int64) → length (rows_of c page) ≤ max_int)
      → (to : Position) × (steps : ℕ) × (parse_cursor r.next_cursor ≡ ok to)
        × ((n : ℕ) → stream c (n + steps) (start c from) ≡ r.posts ++ stream c n (start c to))
  crawl_resumes req lookback r from e more p bound short =
      let (to, steps, named, near, settled, joined) =
        crawl_next req lookback r from e more p bound short in
      (to, steps, named, joined)
