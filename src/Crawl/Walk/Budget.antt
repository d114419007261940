-- ===== src/Crawl/Walk/Budget.antt =====
-- What every answer of a crawl satisfies.
use takuhai.Base.{
  All, All-append, Int64, List, Option, [], arith, drop, false, inl, inr, length, refl, some, subst,
  sym, true, ℕ, ◌<◌, ◌≡◌, ◌≢◌, ◌≤◌, ◌⊎◌,
}
use takuhai.Errors.{Result, ok, err, Result-cases}
use takuhai.RawPost.{RawPost}
use takuhai.Crawl.Cursor.{parse_cursor}
use takuhai.Crawl.Walk.{
  Config, Cutoff, State, CrawlRequest, CrawlResponse, page_budget, clamp_page_size, response, walk,
  cutoff_for, start, enough_fuel, crawl,
}
use takuhai.Crawl.Walk.Page.{InWindow}
use takuhai.Crawl.Walk.Rule.{Ends, Continues, walk_rule}

-- The answer keeps to the budget and the window, and has a cursor exactly if there may be more, in
-- which case the budget is filled.
pub record IsSound (cutoff : Cutoff) (page_size : ℕ) (r : CrawlResponse) : Type 0 where
  pub room : length r.posts ≤ page_size
  pub inside : All (InWindow cutoff page_size) r.posts
  pub ending :
      ((r.has_more ≡ true) × (length r.posts ≡ page_size) × (r.stop_reason ≡ page_budget))
      ⊎ ((r.has_more ≡ false) × (r.next_cursor ≡ []) × (r.stop_reason ≢ page_budget))

pub clamp_bounds : (n : Int64) → (1 ≤ clamp_page_size n) × (clamp_page_size n ≤ 200)
unfolding clamp_page_size
clamp_bounds n = ground arith

module _ {Body : Type 0} (c : Config Body) (cutoff : Cutoff) (page_size : ℕ) where
  abbrev Sound : State → CrawlResponse → Type 0
  Sound s r =
      All (InWindow cutoff page_size) s.posts
      → length s.posts < page_size
      → IsSound cutoff page_size r

  last_Sound :
      (s : State) (rows : List RawPost) (r : CrawlResponse)
      → Ends c cutoff page_size s rows r
      → Sound s r
  unfolding response
  last_Sound s rows r (inl f) a l = rw f.answer (record {
    room = omega arith;
    inside = a;
    ending = inr (refl, refl, λ h. absurd (ground arith));
  })
  last_Sound s rows r (inr (inl b)) a l = rw b.answer (record {
    room = b.room;
    inside = All-append (InWindow cutoff page_size) s.posts b.taken a b.inside;
    ending = inr (refl, refl, λ h. absurd (ground arith));
  })
  last_Sound s rows r (inr (inr b)) a l = rw b.answer (record {
    room = omega (arith, b.full);
    inside = All-append (InWindow cutoff page_size) s.posts b.taken a b.inside;
    ending = inl (refl, b.full, refl);
  })

  before_Sound :
      (s : State) (rows : List RawPost) (s' : State) (r : CrawlResponse)
      → Continues c cutoff page_size s rows s'
      → Sound s' r
      → Sound s r
  before_Sound s rows s' r g h a l =
      h
        (subst (All (InWindow cutoff page_size)) (sym g.posts)
          (All-append (InWindow cutoff page_size) s.posts (drop s.skip rows) a g.inside))
        g.room

  walk-IsSound :
      (fuel : ℕ) (s : State) (r : CrawlResponse)
      → All (InWindow cutoff page_size) s.posts
      → length s.posts < page_size
      → walk c fuel cutoff page_size s ≡ some (ok r)
      → IsSound cutoff page_size r
  walk-IsSound fuel s r a l e =
      walk_rule c cutoff page_size Sound (λ s rows r _. last_Sound s rows r)
        (λ s rows s' r _. before_Sound s rows s' r) fuel s r l e a l

-- Inversion of a crawl that answers.
pub crawl-eq-ok :
    {Body : Type 0} (c : Config Body) (req : CrawlRequest) (lookback : Int64) (r : CrawlResponse)
    → crawl c req lookback ≡ some (ok r)
    → (position : Int64 × Int64) × (parse_cursor req.cursor ≡ ok position)
      × (walk c
            (enough_fuel c (clamp_page_size req.page_size))
            (cutoff_for c lookback)
            (clamp_page_size req.page_size)
            (start c position)
          ≡ some (ok r))
unfolding crawl
crawl-eq-ok c req lookback r e = elim (Result-cases (parse_cursor req.cursor)) [
  | inl (position, q) ↦ (position, q, rw (q, crawl) at e)
  | inr (x, q) ↦
      let e' : ◌≡◌ {A = Option (Result CrawlResponse)} (some (err x)) (some (ok r)) =
        rw (q, crawl) at e in
      cc e'
]

-- No answer holds more posts than the page size clamped to 1..200, nor a post before the lookback
-- cutoff; has_more is false with the empty cursor, or true with the budget filled.
pub crawl-IsSound :
    {Body : Type 0} (c : Config Body) (req : CrawlRequest) (lookback : Int64) (r : CrawlResponse)
    → crawl c req lookback ≡ some (ok r)
    → IsSound (cutoff_for c lookback) (clamp_page_size req.page_size) r × (length r.posts ≤ 200)
unfolding start
crawl-IsSound c req lookback r e =
    let ((page, offset), q, run) = crawl-eq-ok c req lookback r e in
    let size = clamp_page_size req.page_size in
    let bounds = clamp_bounds req.page_size in
    let sound =
      walk-IsSound c (cutoff_for c lookback) size (enough_fuel c size) (start c (page, offset)) r tt
        (omega (arith, bounds)) run in
    (sound, omega (arith, sound.room, bounds))
