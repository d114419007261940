-- ===== src/Crawl/Walk/Complete.antt =====
-- pkg/crawl/crawl.go: what is left of the archive where a crawl answers without has_more.
use takuhai.Base.{
  Int64, List, [], ap, append-nil, append_assoc, arith, drop, false, inl, inr, length, max_int,
  refl, some, subst, suc, sym, true, zero, ℕ, ◌++◌, ◌+◌, ◌<◌, ◌∙◌, ◌∷◌, ◌≡◌, ◌≤◌, ◌⊎◌,
}
use takuhai.Errors.{ok, ok-injective}
use takuhai.RawPost.{RawPost}
use takuhai.Crawl.Walk.{
  Config, Cutoff, State, CrawlResponse, out_of_window, response, reached, page_rows, walk,
  clamp_page_size, cutoff_for, start, enough_fuel, crawl, CrawlRequest,
}
use takuhai.Crawl.Cursor.{parse_cursor}
use takuhai.Crawl.Walk.Budget.{crawl-eq-ok, clamp_bounds}
use takuhai.Crawl.Walk.Resume.{Position}
use takuhai.Crawl.Walk.Round.{AtFloor, AtBoundary, drop-nil}
use takuhai.Crawl.Walk.Rule.{Ends, Continues, walk_rule}
use takuhai.Crawl.Walk.Stream.{stream, stream_first, stream_round}

module _ {Body : Type 0} (c : Config Body) where
  -- From the round on there are no rows but those taken, through the pages of a full empty run.
  abbrev FloorRun : State → List RawPost → Type 0
  FloorRun s taken =
      ((taken ≡ []) × ((k : ℕ) → k + s.empties < c.threshold → stream c k s ≡ []))
      ⊎ ((n : ℕ) × ((k : ℕ) → k ≤ c.threshold → stream c (n + k) s ≡ taken))

  -- Behind the rows taken comes one from before the cutoff.
  abbrev pub MeetsBoundary : Cutoff → State → List RawPost → Type 0
  MeetsBoundary cutoff s taken =
      (n : ℕ) × (old : RawPost) × (rest : List RawPost) × (stream c n s ≡ taken ++ old ∷ rest)
      × (out_of_window old.published_at cutoff ≡ true)

  record Completes (cutoff : Cutoff) (s : State) (r : CrawlResponse) : Type 0 where
    taken : List RawPost
    gathered : r.posts ≡ s.posts ++ taken
    ending : FloorRun s taken ⊎ MeetsBoundary cutoff s taken

  module _ (cutoff : Cutoff) (page_size : ℕ) (s : State) (rows : List RawPost) (r : CrawlResponse)
      (q : page_rows c s.page ≡ ok rows) (sane : c.threshold ≤ max_int) where
    floor_Completes : AtFloor c.threshold cutoff page_size s rows r → Completes cutoff s r
    unfolding response reached
    floor_Completes f = record {
      taken = [];
      gathered = ap (λ z. z.posts) f.answer ∙ sym (append-nil s.posts);
      ending = inl (
          inl (
            refl,
            λ k h.
                let e : k ≡ 0 = ground (arith, f.full_run) in
                ap (λ k. stream c k s) e
                ∙ (stream_first c s rows q ∙ (ap (drop s.skip) f.empty ∙ drop-nil s.skip)),
          ));
    }

    boundary_Completes : AtBoundary c.threshold cutoff page_size s rows r → Completes cutoff s r
    unfolding response
    boundary_Completes b = record {
      taken = b.taken;
      gathered = ap (λ z. z.posts) b.answer;
      ending = inr (0, b.old, b.rest, stream_first c s rows q ∙ b.split, b.outside);
    }

    last_Completes : Ends c cutoff page_size s rows r → r.has_more ≡ false → Completes cutoff s r
    unfolding response
    last_Completes (inl f) h = floor_Completes f
    last_Completes (inr (inl b)) h = boundary_Completes b
    last_Completes (inr (inr b)) h = absurd (ground (arith, ap (λ z. z.has_more) b.answer))

    module _ (s' : State) (g : Continues c cutoff page_size s rows s') where
      next_round : (n k : ℕ) → k ≡ n + 1 → stream c k s ≡ drop s.skip rows ++ stream c n s'
      next_round n k e = ap (λ k. stream c k s) e ∙ stream_round c n s s' rows q g.page g.skip

      later_Floor :
          (taken : List RawPost) (n : ℕ)
          → ((k : ℕ) → k ≤ c.threshold → stream c (n + k) s' ≡ taken)
          → FloorRun s (drop s.skip rows ++ taken)
      later_Floor taken n run = inr (
        n + 1,
        λ k h.
            next_round (n + k) (n + 1 + k) (omega arith)
            ∙ ap (λ t. drop s.skip rows ++ t) (run k h),
      )

      bare_Floor :
          drop s.skip rows ≡ []
          → ((k : ℕ) → k + (s.empties + 1) < c.threshold → stream c k s' ≡ [])
          → (k : ℕ) → k + s.empties < c.threshold
          → stream c k s ≡ []
      bare_Floor bare run zero h = stream_first c s rows q ∙ bare
      bare_Floor bare run (suc j) h =
          next_round j (suc j) (omega arith)
          ∙ (ap (λ t. t ++ stream c j s') bare ∙ run j (omega (arith, h)))

      used_Floor :
          ((k : ℕ) → k < c.threshold → stream c k s' ≡ [])
          → (k : ℕ) → k ≤ c.threshold
          → stream c (0 + k) s ≡ drop s.skip rows ++ []
      used_Floor run zero h = stream_first c s rows q ∙ sym (append-nil (drop s.skip rows))
      used_Floor run (suc j) h =
          next_round j (0 + suc j) (omega arith)
          ∙ ap (λ t. drop s.skip rows ++ t) (run j (omega (arith, h)))

      none_Floor :
          ((k : ℕ) → k + s'.empties < c.threshold → stream c k s' ≡ [])
          → FloorRun s (drop s.skip rows ++ [])
      none_Floor run = elim g.run [
        | inl (empty, counted, short) ↦
            let bare = ap (drop s.skip) empty ∙ drop-nil s.skip in
            inl (ap (λ t. t ++ []) bare, bare_Floor bare (λ k h. run k (omega (arith, counted, h))))
        | inr (some_rows, counted) ↦ inr (0, used_Floor (λ k h. run k (omega (arith, counted, h))))
      ]

      before_ending :
          (taken : List RawPost)
          → FloorRun s' taken ⊎ MeetsBoundary cutoff s' taken
          → FloorRun s (drop s.skip rows ++ taken)
            ⊎ MeetsBoundary cutoff s (drop s.skip rows ++ taken)
      before_ending taken (inl (inl (nothing, run))) =
          inl (subst (λ t. FloorRun s (drop s.skip rows ++ t)) (sym nothing) (none_Floor run))
      before_ending taken (inl (inr (n, run))) = inl (later_Floor taken n run)
      before_ending taken (inr (n, old, rest, split, outside)) = inr (
        n + 1,
        old,
        rest,
        next_round n (n + 1) refl
            ∙ (ap (λ t. drop s.skip rows ++ t) split
                ∙ sym (append_assoc (drop s.skip rows) taken (old ∷ rest))),
        outside,
      )

      before_Completes : Completes cutoff s' r → Completes cutoff s r
      before_Completes h = record {
        taken = drop s.skip rows ++ h.taken;
        gathered =
            h.gathered
            ∙ (ap (λ t. t ++ h.taken) g.posts ∙ append_assoc s.posts (drop s.skip rows) h.taken);
        ending = before_ending h.taken h.ending;
      }

  walk-Completes :
      (cutoff : Cutoff) (page_size fuel : ℕ) (s : State) (r : CrawlResponse)
      → c.threshold ≤ max_int
      → length s.posts < page_size
      → walk c fuel cutoff page_size s ≡ some (ok r)
      → r.has_more ≡ false
      → Completes cutoff s r
  walk-Completes cutoff page_size fuel s r sane l e =
      walk_rule c cutoff page_size (λ s r. r.has_more ≡ false → Completes cutoff s r)
        (λ s rows r q. last_Completes cutoff page_size s rows r q sane)
        (λ s rows s' r q g h m. before_Completes cutoff page_size s rows r q sane s' g (h m)) fuel s
        r l e

  -- The archive has no rows from a position on but the given ones, through as many pages without
  -- rows as the threshold counts.
  abbrev pub EndsAtFloor : Position → List RawPost → Type 0
  EndsAtFloor from posts =
      ((posts ≡ []) × ((k : ℕ) → k < c.threshold → stream c k (start c from) ≡ []))
      ⊎ ((n : ℕ) × ((k : ℕ) → k ≤ c.threshold → stream c (n + k) (start c from) ≡ posts))

  -- The rows of the archive from a position on, up to its floor or to the first one before the
  -- cutoff.
  abbrev pub IsRest : Cutoff → Position → List RawPost → Type 0
  IsRest cutoff from posts = EndsAtFloor from posts ⊎ MeetsBoundary cutoff (start c from) posts

  pub crawl-IsRest :
      (req : CrawlRequest) (lookback : Int64) (r : CrawlResponse) (from : Position)
      → c.threshold ≤ max_int
      → crawl c req lookback ≡ some (ok r)
      → r.has_more ≡ false
      → parse_cursor req.cursor ≡ ok from
      → IsRest (cutoff_for c lookback) from r.posts
  unfolding start
  crawl-IsRest req lookback r from sane e no_more p =
      let (from', p', run) = crawl-eq-ok c req lookback r e in
      let same : from' ≡ from = ok-injective (sym p' ∙ p) in
      let size = clamp_page_size req.page_size in
      let h =
        walk-Completes (cutoff_for c lookback) size (enough_fuel c size) (start c from) r sane
          (omega (arith, clamp_bounds req.page_size))
          (subst
            (λ z.
              walk c (enough_fuel c size) (cutoff_for c lookback) size (start c z) ≡ some (ok r))
            same run)
          no_more in
      subst (IsRest (cutoff_for c lookback) from) (sym h.gathered) (elim h.ending [
        | inl (inl (nothing, run)) ↦ inl (inl (nothing, λ k l. run k (omega (arith, l))))
        | inl (inr run) ↦ inl (inr run)
        | inr old ↦ inr old
      ])
