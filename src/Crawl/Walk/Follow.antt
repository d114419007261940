-- ===== src/Crawl/Walk/Follow.antt =====
-- pkg/crawl/crawl.go: a caller of Crawl that follows next_cursor until an answer has no has_more.
use takuhai.Base.{
  All, All-append, Int64, List, [], ap, append-nil, append_assoc, arith, false, inl, inr, length,
  max_int, some, subst, suc, sym, true, zero, ℕ, ◌++◌, ◌+◌, ◌<◌, ◌∙◌, ◌∷◌, ◌≡◌, ◌≤◌,
}
use takuhai.Errors.{ok}
use takuhai.RawPost.{RawPost}
use takuhai.Crawl.Walk.{
  Config, CrawlRequest, CrawlResponse, Cutoff, crawl, cutoff_for, start, clamp_page_size,
}
use takuhai.Crawl.Walk.Page.{InWindow}
use takuhai.Crawl.Walk.Budget.{crawl-IsSound}
use takuhai.Crawl.Cursor.{parse_cursor}
use takuhai.Crawl.Walk.Resume.{Position, crawl_next}
use takuhai.Crawl.Walk.Complete.{IsRest, EndsAtFloor, MeetsBoundary, crawl-IsRest}
use takuhai.Crawl.Walk.Stream.{rows_of, stream}

module _ {Body : Type 0} (c : Config Body) (lookback : Int64) where
  -- The posts of all answers from a request on, each further one with the cursor of the answer
  -- before, and the pages that were fetched for them.
  pub data Follows : CrawlRequest → List RawPost → ℕ → Type 0 where
    last :
        (req : CrawlRequest) (r : CrawlResponse)
        → crawl c req lookback ≡ some (ok r)
        → r.has_more ≡ false
        → Follows req r.posts r.pages_fetched
    next :
        (req : CrawlRequest) (r : CrawlResponse) (posts : List RawPost) (fetched : ℕ)
        → crawl c req lookback ≡ some (ok r)
        → r.has_more ≡ true
        → Follows (record req { cursor = r.next_cursor }) posts fetched
        → Follows req (r.posts ++ posts) (r.pages_fetched + fetched)

module _ {Body : Type 0} (c : Config Body) where
  module _ (from to : Position) (steps : ℕ) (posts : List RawPost)
      (joined : (n : ℕ) → stream c (n + steps) (start c from) ≡ posts ++ stream c n (start c to))
      (settled : stream c 0 (start c to) ≡ []
        → (n : ℕ) × (steps ≡ n + 1) × (stream c n (start c from) ≡ posts))
      (counts : 0 < c.threshold) where
    from_settled :
        ((k : ℕ) → k < c.threshold → stream c k (start c to) ≡ [])
        → (n : ℕ) → steps ≡ n + 1
        → stream c n (start c from) ≡ posts
        → (k : ℕ) → k ≤ c.threshold
        → stream c (n + k) (start c from) ≡ posts ++ []
    from_settled run n e all zero h =
        let same : n + 0 ≡ n = omega arith in
        ap (λ m. stream c m (start c from)) same ∙ (all ∙ sym (append-nil posts))
    from_settled run n e all (suc j) h =
        let same : n + suc j ≡ j + steps = omega (arith, e) in
        ap (λ m. stream c m (start c from)) same
        ∙ (joined j ∙ ap (λ t. posts ++ t) (run j (omega (arith, h))))

    far_Floor : (rest : List RawPost) → EndsAtFloor c to rest → EndsAtFloor c from (posts ++ rest)
    far_Floor rest (inl (nothing, run)) =
        let (n, e, all) = settled (run 0 counts) in
        subst (λ t. EndsAtFloor c from (posts ++ t)) (sym nothing)
          (inr (n, from_settled run n e all))
    far_Floor rest (inr (n, run)) = inr (
      n + steps,
      λ k h.
          let e : n + steps + k ≡ n + k + steps = omega arith in
          ap (λ m. stream c m (start c from)) e ∙ (joined (n + k) ∙ ap (λ t. posts ++ t) (run k h)),
    )

    far_Boundary :
        (cutoff : Cutoff) (rest : List RawPost)
        → MeetsBoundary c cutoff (start c to) rest
        → MeetsBoundary c cutoff (start c from) (posts ++ rest)
    far_Boundary cutoff rest (n, old, later, split, outside) = (
      n + steps,
      old,
      later,
      joined n ∙ (ap (λ t. posts ++ t) split ∙ sym (append_assoc posts rest (old ∷ later))),
      outside,
    )

    far_IsRest :
        (cutoff : Cutoff) (rest : List RawPost)
        → IsRest c cutoff to rest
        → IsRest c cutoff from (posts ++ rest)
    far_IsRest cutoff rest (inl floor) = inl (far_Floor rest floor)
    far_IsRest cutoff rest (inr old) = inr (far_Boundary cutoff rest old)

  -- The posts of a run of crawls that follows next_cursor to its end, at one reading of the clock,
  -- are the rows of the archive from the first request's position on: all of them, each once and
  -- in their order, up to the first row from before the lookback cutoff or up to a floor of as
  -- many pages without rows as the threshold counts. None of them is from before the cutoff. The
  -- threshold is positive, the first cursor parses, and pages and offsets stay below 2 ^ 63.
  pub follow-IsRest :
      (lookback : Int64) (req : CrawlRequest) (posts : List RawPost) (fetched : ℕ) (from : Position)
      → 0 < c.threshold
      → c.threshold ≤ max_int
      → ((page : Int64) → length (rows_of c page) ≤ max_int)
      → Follows c lookback req posts fetched
      → parse_cursor req.cursor ≡ ok from
      → from.0 + fetched < max_int
      → IsRest c (cutoff_for c lookback) from posts
        × All (InWindow (cutoff_for c lookback) (clamp_page_size req.page_size)) posts
  follow-IsRest lookback _ _ _ from counts sane short (last req r run no_more) p bound = (
    crawl-IsRest c req lookback r from sane run no_more p,
    (crawl-IsSound c req lookback r run).0.inside,
  )
  follow-IsRest lookback _ _ _ from counts sane short (next req r posts fetched run more h) p
        bound =
      let (to, steps, named, near, settled, joined) =
        crawl_next c req lookback r from run more p (omega (arith, bound)) short in
      let (rest, inside) =
        follow-IsRest lookback (record req { cursor = r.next_cursor }) posts fetched to counts sane
          short h named (omega (arith, near, bound)) in
      (
        far_IsRest from to steps r.posts joined settled counts (cutoff_for c lookback) posts rest,
        All-append (InWindow (cutoff_for c lookback) (clamp_page_size req.page_size)) r.posts posts
            (crawl-IsSound c req lookback r run).0.inside inside,
      )
