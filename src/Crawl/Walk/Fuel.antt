-- ===== src/Crawl/Walk/Fuel.antt =====
-- A crawl ends: its fuel is enough for every source, threshold and cursor.
use takuhai.Base.{
  ==_iff, Bool-cases, Int64, List, Option, ap, arith, drop, false, if◌then◌else◌, inl, inr, is_neg,
  length, length-append, length-drop, refl, some, suc, zero, ℕ, ◌*◌, ◌+◌, ◌-◌, ◌<◌, ◌==◌, ◌∙◌, ◌≡◌,
  ◌≤◌, ◌⊎◌,
}
use takuhai.Errors.{Result, ok, err, Result-cases}
use takuhai.RawPost.{RawPost}
use takuhai.Crawl.Cursor.{parse_cursor}
use takuhai.Crawl.Walk.{
  Config, Cutoff, State, Turn, done, again, CrawlRequest, CrawlResponse, clamp_page_size, reached,
  finish, turn, page_rows, walk, cutoff_for, start, enough_fuel, crawl,
}
use takuhai.Crawl.Walk.Budget.{clamp_bounds}
use takuhai.Crawl.Walk.Round.{GoesOn, Turned, turn_lem}

scaled : (a b k : ℕ) → a < b → a * k + k ≤ b * k
scaled a b k h = grind arith

scaled_le : (a b k : ℕ) → a ≤ b → a * k ≤ b * k
scaled_le a b k h = grind arith

-- What is left to do before a crawl must end, for a threshold of n empty pages.
abbrev measure : ℕ → ℕ → State → ℕ
measure n page_size s =
    (page_size - length s.posts) * (n + 1) + (n - s.empties) + (if s.skip == 0 then 0 else 1)

-- Rows are skipped on the first page only, and a run of empty pages is shorter than the threshold.
abbrev Valid : ℕ → State → Type 0
Valid n s = ((s.skip ≡ 0) ⊎ (s.empties ≡ 0)) × (s.empties ≤ n)

module _ (threshold : Int64) (cutoff : Cutoff) (page_size : ℕ) where
  -- The threshold as a number.
  abbrev limit : ℕ
  limit = if is_neg threshold then 0 else threshold

  not_reached : (n : ℕ) → reached n threshold ≡ false → n < limit
  unfolding reached
  not_reached n h = ground arith

  Valid-GoesOn :
      (n : ℕ) (s : State) (rows : List RawPost) (s' : State)
      → (reached (s.empties + 1) threshold ≡ false → s.empties + 1 < n)
      → GoesOn threshold cutoff page_size s rows s'
      → Valid n s'
  Valid-GoesOn n s rows s' short g = (inl g.skip, ground (arith, g.run))

  length-posts :
      (s : State) (rows : List RawPost) (s' : State)
      → GoesOn threshold cutoff page_size s rows s'
      → length s'.posts ≡ length s.posts + length (drop s.skip rows)
  length-posts s rows s' g = ap length g.posts ∙ length-append s.posts (drop s.skip rows)

  measure-GoesOn :
      (n : ℕ) (s : State) (rows : List RawPost) (s' : State)
      → (reached (s.empties + 1) threshold ≡ false → s.empties + 1 < n)
      → GoesOn threshold cutoff page_size s rows s'
      → Valid n s
      → measure n page_size s' < measure n page_size s
  measure-GoesOn n s rows s' short g (v, w) =
      let l = length-posts s rows s' g in
      let d = length-drop s.skip rows in
      let less = scaled_le (page_size - length s'.posts) (page_size - length s.posts) (n + 1) in
      let fewer = scaled (page_size - length s'.posts) (page_size - length s.posts) (n + 1) in
      elim g.run [
        | inl (empty, next, r) ↦ ground (arith, short r, next, g.skip, less (omega arith), w)
        | inr (some_rows, next) ↦ elim v [
          | inl zero_skip ↦ ground (arith, next, g.skip, fewer (omega (arith, g.room)), w)
          | inr no_run ↦ elim (Bool-cases (s.skip == 0)) [
            | inl z ↦
                ground
                  (arith, next, g.skip, fewer (omega (arith, g.room, (==_iff s.skip 0).0 z)), w)
            | inr nz ↦ ground (arith, next, g.skip, less (omega arith), nz, no_run)
          ]
        ]
      ]

module _ {Body : Type 0} (c : Config Body) (cutoff : Cutoff) (page_size : ℕ) where
  abbrev Total : Option (Result CrawlResponse) → Type 0
  Total o = (r : Result CrawlResponse) × (o ≡ some r)

  short_run :
      (s : State)
      → reached (s.empties + 1) c.threshold ≡ false
      → s.empties + 1 < limit c.threshold cutoff page_size
  short_run s = not_reached c.threshold cutoff page_size (s.empties + 1)

  finish-Total :
      (rest : State → Option (Result CrawlResponse)) (s : State) (rows : List RawPost) (t : Turn)
      → Turned c.threshold cutoff page_size s rows t
      → ((s' : State) → GoesOn c.threshold cutoff page_size s rows s' → Total (rest s'))
      → Total (finish rest t)
  unfolding finish
  finish-Total rest s rows (done r) turned ih = (ok r, refl)
  finish-Total rest s rows (again s') turned ih = ih s' turned

  walk-Total :
      (fuel : ℕ) (s : State)
      → Valid (limit c.threshold cutoff page_size) s
      → length s.posts < page_size
      → measure (limit c.threshold cutoff page_size) page_size s < fuel
      → Total (walk c fuel cutoff page_size s)
  unfolding walk
  walk-Total zero s v l m = absurd (omega arith)
  walk-Total (suc fuel) s v l m = elim (Result-cases (page_rows c s.page)) [
    | inr (x, q) ↦ (err x, rw (q, walk))
    | inl (rows, q) ↦
        rw (q, walk)
          (finish-Total (walk c fuel cutoff page_size) s rows
            (turn c.threshold cutoff page_size s rows)
            (turn_lem c.threshold cutoff page_size s rows l)
            λ s' g.
              walk-Total fuel s'
                (Valid-GoesOn c.threshold cutoff page_size (limit c.threshold cutoff page_size) s
                  rows s' (short_run s) g)
                g.room
                (omega (
                  arith,
                  measure-GoesOn c.threshold cutoff page_size (limit c.threshold cutoff page_size) s
                      rows s' (short_run s) g v,
                )))
  ]

enough :
    (size t offset : ℕ)
    → (size - 0) * (t + 1) + (t - 0) + (if offset == 0 then 0 else 1) < size * (t + 1) + t + 2
enough size t offset = ground arith

-- Every crawl ends with an answer or an error: the fuel that its page size and threshold give is
-- enough, whatever the source returns.
pub crawl_total :
    {Body : Type 0} (c : Config Body) (req : CrawlRequest) (lookback : Int64)
    → (r : Result CrawlResponse) × (crawl c req lookback ≡ some r)
unfolding crawl start enough_fuel
crawl_total c req lookback = elim (Result-cases (parse_cursor req.cursor)) [
  | inr (x, q) ↦ (err x, rw (q, crawl))
  | inl ((page, offset), q) ↦
      let size = clamp_page_size req.page_size in
      let t = limit c.threshold (cutoff_for c lookback) size in
      rw (q, crawl)
        (walk-Total c (cutoff_for c lookback) size (enough_fuel c size) (start c (page, offset))
          (inr refl, omega arith) (omega (arith, clamp_bounds req.page_size))
          (enough size t offset))
]
