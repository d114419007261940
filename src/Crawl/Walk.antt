-- ===== src/Crawl/Walk.antt =====
-- pkg/crawl/crawl.go, Crawl: the walk over the pages of a source from a cursor, newest post first,
-- up to the page budget, the lookback boundary or the archive floor.
pub mod Page
pub mod Round
pub mod Rule
pub mod Budget
pub mod Fuel
pub mod Failure
pub mod Stream
pub mod Resume
pub mod Complete
pub mod Follow
pub mod Tests
use takuhai.Base.{
  Bool, Bytes, Int64, List, Option, Time, [], add64, drop, exceeds, false, if◌then◌else◌, is_neg,
  is_nonpos, leb, length, ltb, min, none, not, some, suc, true, zero, zero_time, ℕ, ◌&&◌, ◌*◌, ◌++◌,
  ◌+◌, ◌-◌, ◌==◌, ◌||◌, ◌∷◌,
}
use takuhai.Errors.{Result, ok, err, crawl_fetch, crawl_parse}
use takuhai.RawPost.{RawPost}
use takuhai.Crawl.Cursor.{parse_cursor, format_cursor}

-- What Config wires, without the metrics: the fetcher and the parser of the source, which may
-- fail, the threshold of empty pages and the clock's reading. One request asks for a page once, so
-- a fetch depends on the page alone.
pub record Config (Body : Type 0) : Type 0 where
  pub fetch : Int64 → Option Body
  pub parse : Body → Option (List RawPost)
  pub threshold : Int64
  pub now : Time

pub record CrawlRequest : Type 0 where
  pub page_size : Int64
  pub cursor : Bytes
  pub lookback : Bytes

-- `archive_floor` stands for the source's floor reason.
pub data StopReason : Type 0 where
  lookback_boundary page_budget archive_floor : StopReason

pub record CrawlResponse : Type 0 where
  pub posts : List RawPost
  pub next_cursor : Bytes
  pub has_more : Bool
  pub stop_reason : StopReason
  pub pages_fetched : ℕ
  pub last_page : Int64

-- The lookback boundary; none where there is no limit.
abbrev pub Cutoff : Type 0
Cutoff = Option Time

pub out_of_window : Time → Cutoff → Bool
out_of_window published_at none = false
out_of_window published_at (some cutoff) =
    not (published_at == zero_time) && ltb published_at cutoff

pub clamp_page_size : Int64 → ℕ
clamp_page_size n = if is_nonpos n then 1 else if exceeds n 200 then 200 else n

-- How the rows of one page were used: all taken, or an out of window post was met, or the budget
-- was filled, with the offset to resume at on this page (0 where the page is used up).
pub data Rows : Type 0 where
  exhausted : List RawPost → Rows
  boundary : List RawPost → Rows
  budget : List RawPost → ℕ → Rows

-- The budget is filled and the given rows remain on the page, the first with index i.
pub at_budget : Cutoff → ℕ → List RawPost → List RawPost → Rows
at_budget cutoff i [] posts = budget posts 0
at_budget cutoff i (q ∷ rest) posts =
    if out_of_window q.published_at cutoff then boundary posts else budget posts i

-- The loop over the rows of a page from index i on, with the posts gathered so far.
pub take_rows : Cutoff → ℕ → ℕ → List RawPost → List RawPost → Rows
take_rows cutoff page_size i [] posts = exhausted posts
take_rows cutoff page_size i (p ∷ rest) posts =
    let next = take_rows cutoff page_size (i + 1) rest (posts ++ p ∷ []) in
    if out_of_window p.published_at cutoff
    then boundary posts
    else if ltb (length posts + 1) page_size
    then next
    else at_budget cutoff (i + 1) rest (posts ++ p ∷ [])

-- The variables of the loop over the pages.
pub record State : Type 0 where
  pub page : Int64
  pub skip : ℕ
  pub posts : List RawPost
  pub empties : ℕ
  pub fetched : ℕ

-- One round of the loop ends the crawl or goes on to the next page.
pub data Turn : Type 0 where
  done : CrawlResponse → Turn
  again : State → Turn

pub response : State → List RawPost → Bytes → Bool → StopReason → CrawlResponse
response s posts cursor more reason = record {
  posts = posts;
  next_cursor = cursor;
  has_more = more;
  stop_reason = reason;
  pages_fetched = s.fetched + 1;
  last_page = s.page;
}

-- consecutiveEmpty >= threshold
pub reached : ℕ → Int64 → Bool
reached empties threshold = is_neg threshold || leb threshold empties

pub after_rows : State → Rows → Turn
unfolding response
after_rows s (boundary posts) = done (response s posts [] false lookback_boundary)
after_rows s (budget posts offset) =
    done (response s posts (format_cursor s.page offset) true page_budget)
after_rows s (exhausted posts) = again (record {
  page = add64 s.page 1;
  skip = 0;
  posts = posts;
  empties = 0;
  fetched = s.fetched + 1;
})

-- An empty page extends the run of empty pages, any other page ends it.
pub turn : Int64 → Cutoff → ℕ → State → List RawPost → Turn
unfolding response reached
turn threshold cutoff page_size s [] =
    if reached (s.empties + 1) threshold
    then done (response s s.posts [] false archive_floor)
    else again (record s {
      page = add64 s.page 1;
      skip = 0;
      empties = s.empties + 1;
      fetched = s.fetched + 1;
    })
turn threshold cutoff page_size s (p ∷ rows) =
    let start = min s.skip (length (p ∷ rows)) in
    after_rows s (take_rows cutoff page_size start (drop start (p ∷ rows)) s.posts)

-- What follows a round: the answer, or the rest of the loop.
pub finish : (State → Option (Result CrawlResponse)) → Turn → Option (Result CrawlResponse)
finish rest (done r) = some (ok r)
finish rest (again s) = rest s

module _ {Body : Type 0} (c : Config Body) where
  open c use {fetch, parse, threshold, now}

  -- A fetch, then parsePage.
  unfoldable pub page_rows : Int64 → Result (List RawPost)
  page_rows page = elim (fetch page) [
    | none ↦ err crawl_fetch
    | some body ↦ elim (parse body) [ none ↦ err crawl_parse | some rows ↦ ok rows ]
  ]

  -- The loop, with fuel; none means that the fuel ran out.
  pub walk : ℕ → Cutoff → ℕ → State → Option (Result CrawlResponse)
  walk zero cutoff page_size s = none
  walk (suc fuel) cutoff page_size s = elim (page_rows s.page) [
    | err e ↦ some (err e)
    | ok rows ↦ finish (walk fuel cutoff page_size) (turn threshold cutoff page_size s rows)
  ]

  unfoldable pub cutoff_for : Int64 → Cutoff
  cutoff_for lookback = if is_nonpos lookback then none else some (now - lookback)

  -- A cursor with offset 0 has used its page up.
  pub start : Int64 × Int64 → State
  start (page, offset) = record {
    page = if offset == 0 then add64 page 1 else page;
    skip = offset;
    posts = [];
    empties = 0;
    fetched = 0;
  }

  -- Rounds that are enough: a page with rows adds a post, and fewer than the threshold of empty
  -- pages stand between two such pages.
  pub enough_fuel : ℕ → ℕ
  enough_fuel page_size =
      let t = if is_neg threshold then 0 else threshold in page_size * (t + 1) + t + 2

  pub crawl : CrawlRequest → Int64 → Option (Result CrawlResponse)
  crawl req lookback = elim (parse_cursor req.cursor) [
    | err e ↦ some (err e)
    | ok position ↦
        let page_size = clamp_page_size req.page_size in
        walk (enough_fuel page_size) (cutoff_for lookback) page_size (start position)
  ]
