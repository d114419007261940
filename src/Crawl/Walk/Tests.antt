-- ===== src/Crawl/Walk/Tests.antt =====
-- Runs of a crawl of a small archive.
use takuhai.Base.{
  All, Int64, List, [], arith, codes, false, if_both, if◌then◌else◌, length, max_int, refl, some,
  true, ℕ, ◌++◌, ◌+◌, ◌==◌, ◌∷◌, ◌≡◌, ◌≤◌,
}
use takuhai.Errors.{Result, ok}
use takuhai.RawPost.{RawPost}
use takuhai.Crawl.Cursor.{parse_cursor, format_cursor, parse-format}
use takuhai.Crawl.Walk.{
  Config, CrawlRequest, CrawlResponse, page_budget, clamp_page_size, response, page_rows, walk,
  cutoff_for, start, enough_fuel, crawl, turn, after_rows, take_rows, at_budget, out_of_window,
  archive_floor, reached, finish,
}
use takuhai.Crawl.Walk.Budget.{IsSound, crawl-IsSound}
use takuhai.Crawl.Walk.Fuel.{crawl_total}
use takuhai.Crawl.Walk.Stream.{rows_of, stream}
use takuhai.Crawl.Walk.Page.{InWindow}
use takuhai.Crawl.Walk.Complete.{IsRest}
use takuhai.Crawl.Walk.Follow.{Follows, last, next, follow-IsRest}
use takuhai.Crawl.Walk.Resume.{crawl_resumes}

abbrev pub post : ℕ → RawPost
post n = record {
  title = codes "a";
  magnet = codes "b";
  source = codes "dmhy";
  source_id = n ∷ [];
  url = [];
  published_at = 40_000_000_000_000_000 + n;
  size_bytes = 0;
}

-- Page 2 has four posts, every other page is empty.
abbrev pub archive_page : Int64 → List RawPost
archive_page page = if page == 2 then post 4 ∷ post 3 ∷ post 2 ∷ post 1 ∷ [] else []

abbrev pub archive : Config Int64
archive = record {
  fetch = λ page. some page;
  parse = λ page. some (archive_page page);
  threshold = 2;
  now = 50_000_000_000_000_000;
}

-- Two posts from the second of page 2 on.
abbrev pub request : CrawlRequest
request = record { page_size = 2; cursor = format_cursor 2 1; lookback = [] }

abbrev pub answer : CrawlResponse
answer = record {
  posts = post 3 ∷ post 2 ∷ [];
  next_cursor = format_cursor 2 3;
  has_more = true;
  stop_reason = page_budget;
  pages_fetched = 1;
  last_page = 2;
}

-- The posts lie within a lookback of twenty weeks.
pub archive-crawl :
    crawl archive (record request { lookback = codes "20w0d0h" }) 12_096_000_000_000_000
    ≡ some (ok answer)
unfolding crawl walk start enough_fuel cutoff_for clamp_page_size page_rows turn after_rows
    take_rows at_budget out_of_window response finish
archive-crawl = rw (parse-format 2 1 (omega arith) (omega arith), crawl) refl

request-crawl : crawl archive request 0 ≡ some (ok answer)
unfolding crawl walk start enough_fuel cutoff_for clamp_page_size page_rows turn after_rows
    take_rows at_budget out_of_window response finish
request-crawl = rw (parse-format 2 1 (omega arith) (omega arith), crawl) refl

-- The last post, then two empty pages.
abbrev last_answer : CrawlResponse
last_answer = record {
  posts = post 1 ∷ [];
  next_cursor = [];
  has_more = false;
  stop_reason = archive_floor;
  pages_fetched = 3;
  last_page = 4;
}

last_crawl : crawl archive (record request { cursor = format_cursor 2 3 }) 0 ≡ some (ok last_answer)
unfolding crawl walk start enough_fuel cutoff_for clamp_page_size page_rows turn after_rows
    take_rows at_budget out_of_window response finish reached
last_crawl = rw (parse-format 2 3 (omega arith) (omega arith), crawl) refl

both_crawls : Follows archive 0 request (post 3 ∷ post 2 ∷ post 1 ∷ []) 4
both_crawls =
    next request answer (post 1 ∷ []) 3 request-crawl refl
      (last (record request { cursor = format_cursor 2 3 }) last_answer last_crawl refl)

short_pages : (page : Int64) → length (rows_of archive page) ≤ max_int
unfolding rows_of page_rows
short_pages page =
    if_both (λ rows. length rows ≤ max_int) (page == 2) (post 4 ∷ post 3 ∷ post 2 ∷ post 1 ∷ []) []
      (omega arith) (omega arith)

follow-IsRest_example :
    IsRest archive (cutoff_for archive 0) (2, 1) (post 3 ∷ post 2 ∷ post 1 ∷ [])
    × All (InWindow (cutoff_for archive 0) (clamp_page_size 2)) (post 3 ∷ post 2 ∷ post 1 ∷ [])
follow-IsRest_example =
    follow-IsRest archive 0 request (post 3 ∷ post 2 ∷ post 1 ∷ []) 4 (2, 1) (omega arith)
      (omega arith) short_pages both_crawls (parse-format 2 1 (omega arith) (omega arith))
      (omega arith)

crawl-IsSound_example :
    IsSound (cutoff_for archive 0) (clamp_page_size 2) answer × (length answer.posts ≤ 200)
crawl-IsSound_example = crawl-IsSound archive request 0 answer request-crawl

crawl_total_example : (r : Result CrawlResponse) × (crawl archive request 0 ≡ some r)
crawl_total_example = crawl_total archive request 0

crawl_resumes_example :
    (to : Int64 × Int64) × (steps : ℕ) × (parse_cursor (format_cursor 2 3) ≡ ok to)
    × ((n : ℕ)
        → stream archive (n + steps) (start archive (2, 1))
          ≡ (post 3 ∷ post 2 ∷ []) ++ stream archive n (start archive to))
crawl_resumes_example =
    crawl_resumes archive request 0 answer (2, 1) request-crawl refl
      (parse-format 2 1 (omega arith) (omega arith)) (omega arith) short_pages
