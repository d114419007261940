-- ===== src/Crawl/Server/Window.antt =====
-- What POST /crawl answers, and that its posts lie in the window that was asked for.
use takuhai.Base.{
  Bool, Bool-cases, Int64, Option, [], ap, arith, false, inl, inr, length, max_int, none, refl,
  some, some-injective, subst, sym, true, ℕ, ◌*◌, ◌++◌, ◌+◌, ◌-◌, ◌<◌, ◌∙◌, ◌∷◌, ◌≡◌, ◌≤◌, ◌⊎◌,
}
use takuhai.Errors.{crawl_fetch, crawl_parse, Result-cases, Error, ok, err}
use takuhai.Stdlib.Decimal.{itoa}
use takuhai.Crawl.Cursor.{parse_cursor}
use takuhai.Crawl.Lookback.{parse_lookback, hour}
use takuhai.Crawl.Lookback.Print.{lookback-itoa}
use takuhai.Crawl.Walk.{Config, CrawlRequest, CrawlResponse, crawl, cutoff_for, clamp_page_size}
use takuhai.Crawl.Walk.Fuel.{crawl_total}
use takuhai.Crawl.Walk.Failure.{Broken, crawl-Broken, page_rows-failed}
use takuhai.Crawl.Walk.Budget.{IsSound, crawl-IsSound}
use takuhai.Crawl.Server.{
  crawled, encode_error, fetch_error, parse_error, failure_result, Reply, rejected, failed, served,
  reply_to, check_params, serve_request, serve_http,
}

module _ (scaled : ℕ → ℕ → ℕ → ℕ) (encodes : CrawlResponse → Bool) {Body : Type 0} (c : Config Body)
    (req : CrawlRequest) where
  check_params-ok :
      (lookback : Int64) (position : Int64 × Int64)
      → parse_lookback scaled req.lookback ≡ ok lookback
      → parse_cursor req.cursor ≡ ok position
      → check_params scaled encodes req ≡ ok lookback
  unfolding check_params
  check_params-ok lookback position first second = rw (first, second) refl

  -- A request with a lookback and a cursor that parse is answered by the outcome of its crawl.
  serve_cases :
      (lookback : Int64) (position : Int64 × Int64)
      → parse_lookback scaled req.lookback ≡ ok lookback
      → parse_cursor req.cursor ≡ ok position
      → ((r : CrawlResponse) × (crawl c req lookback ≡ some (ok r))
          × (serve_http scaled encodes c true (some req) ≡ some (served encodes r)))
        ⊎ ((x : Error) × Broken c x
            × (crawl c req lookback ≡ some (err x))
            × (serve_http scaled encodes c true (some req) ≡ some (failed x)))
  unfolding serve_http serve_request reply_to
  serve_cases lookback position first second =
      let checked = check_params-ok lookback position first second in
      let (out, run) = crawl_total c req lookback in
      elim (Result-cases out) [
        | inl (r, q) ↦ inl (r, run ∙ ap some q, rw (serve_request, checked, run, q) refl)
        | inr (x, q) ↦ inr (
          x,
          crawl-Broken c req lookback position x second (run ∙ ap some q),
          run ∙ ap some q,
          rw (serve_request, checked, run, q) refl,
        )
      ]

  -- What a request is answered with, written out: 200 and the response of its crawl, or 500 without
  -- a body where that cannot be encoded; or 502 without a body for a page that cannot be fetched,
  -- or whose body cannot be parsed, and each is recorded as such.
  abbrev pub Answered : Int64 → Type 0
  Answered lookback =
      ((r : CrawlResponse) × (crawl c req lookback ≡ some (ok r))
        × (encodes r ≡ true)
        × (serve_http scaled encodes c true (some req)
            ≡ some (record {
              status = 200;
              body = some r;
              result = crawled;
              post_count = length r.posts;
            })))
      ⊎ (((r : CrawlResponse) × (crawl c req lookback ≡ some (ok r))
            × (encodes r ≡ false)
            × (serve_http scaled encodes c true (some req)
                ≡ some (record {
                  status = 500;
                  body = none;
                  result = encode_error;
                  post_count = length r.posts;
                })))
          ⊎ (((page : Int64) × (c.fetch page ≡ none)
                × (crawl c req lookback ≡ some (err crawl_fetch))
                × (serve_http scaled encodes c true (some req)
                    ≡ some (record {
                      status = 502;
                      body = none;
                      result = fetch_error;
                      post_count = 0;
                    })))
              ⊎ ((page : Int64) × (content : Body) × (c.fetch page ≡ some content)
                  × (c.parse content ≡ none)
                  × (crawl c req lookback ≡ some (err crawl_parse))
                  × (serve_http scaled encodes c true (some req)
                      ≡ some (record {
                        status = 502;
                        body = none;
                        result = parse_error;
                        post_count = 0;
                      })))))

  served-Answered :
      (lookback : Int64) (r : CrawlResponse)
      → crawl c req lookback ≡ some (ok r)
      → serve_http scaled encodes c true (some req) ≡ some (served encodes r)
      → Answered lookback
  unfolding served
  served-Answered lookback r run answer = elim (Bool-cases (encodes r)) [
    | inl e ↦ inl (r, run, e, rw e at answer)
    | inr e ↦ inr (inl (r, run, e, rw e at answer))
  ]

  failed-Answered :
      (lookback : Int64) (x : Error)
      → Broken c x
      → crawl c req lookback ≡ some (err x)
      → serve_http scaled encodes c true (some req) ≡ some (failed x)
      → Answered lookback
  unfolding failed failure_result
  failed-Answered lookback x (page, q) run answer = elim (page_rows-failed c page x q) [
    | inl (gone, same) ↦ inr (
        inr (
          inl (
            page,
            gone,
            run ∙ ap (λ y. some (err y)) same,
            answer ∙ ap (λ y. some (failed y)) same,
          )))
    | inr (content, found, refused, same) ↦ inr (
        inr (
          inr (
            page,
            content,
            found,
            refused,
            run ∙ ap (λ y. some (err y)) same,
            answer ∙ ap (λ y. some (failed y)) same,
          )))
  ]

  -- A request with a lookback and a cursor that parse is answered with 200 and the response of its
  -- crawl, or with 500 and no body where that response cannot be encoded; or else a page of the
  -- source could not be fetched or not be parsed, and the answer is 502 without a body, recorded as
  -- a fetch_error or a parse_error.
  pub serve_valid :
      (lookback : Int64) (position : Int64 × Int64)
      → parse_lookback scaled req.lookback ≡ ok lookback
      → parse_cursor req.cursor ≡ ok position
      → Answered lookback
  serve_valid lookback position first second = elim (serve_cases lookback position first second) [
    | inl (r, run, answer) ↦ served-Answered lookback r run answer
    | inr (x, broken, run, answer) ↦ failed-Answered lookback x broken run answer
  ]

  -- A crawl that fails is answered as a failure.
  serve_failed :
      (lookback : Int64) (position : Int64 × Int64) (x : Error)
      → parse_lookback scaled req.lookback ≡ ok lookback
      → parse_cursor req.cursor ≡ ok position
      → crawl c req lookback ≡ some (err x)
      → serve_http scaled encodes c true (some req) ≡ some (failed x)
  unfolding serve_http serve_request reply_to
  serve_failed lookback position x first second run =
      rw (serve_request, check_params-ok lookback position first second, run) refl

  pub serve_unparsed :
      (lookback : Int64) (position : Int64 × Int64)
      → parse_lookback scaled req.lookback ≡ ok lookback
      → parse_cursor req.cursor ≡ ok position
      → crawl c req lookback ≡ some (err crawl_parse)
      → serve_http scaled encodes c true (some req)
        ≡ some (record { status = 502; body = none; result = parse_error; post_count = 0 })
  unfolding failed failure_result
  serve_unparsed lookback position first second run =
      serve_failed lookback position crawl_parse first second run

  -- A lookback or a cursor that does not parse is answered with 400, whatever the source.
  pub serve_invalid :
      (x : Error)
      → (parse_lookback scaled req.lookback ≡ err x) ⊎ (parse_cursor req.cursor ≡ err x)
      → serve_http scaled encodes c true (some req) ≡ some (rejected 400)
  unfolding serve_http serve_request check_params
  serve_invalid x (inl bad) = rw (serve_request, check_params, bad) refl
  serve_invalid x (inr bad) = elim (Result-cases (parse_lookback scaled req.lookback)) [
    | inl (d, q) ↦ rw (serve_request, check_params, q, bad) refl
    | inr (y, q) ↦ rw (serve_request, check_params, q) refl
  ]

  served-body :
      (reply : Reply) (r r' : CrawlResponse)
      → some reply ≡ some (served encodes r')
      → reply.body ≡ some r
      → r' ≡ r
  unfolding served
  served-body reply r r' same body = elim (Bool-cases (encodes r')) [
    | inl e ↦
        let body' : ◌≡◌ {A = Option CrawlResponse} (some r') (some r) =
          rw e at (sym (ap (λ y. y.body) (some-injective same)) ∙ body) in
        some-injective body'
    | inr e ↦
        let body' : ◌≡◌ {A = Option CrawlResponse} none (some r) =
          rw e at (sym (ap (λ y. y.body) (some-injective same)) ∙ body) in
        cc body'
  ]

  positive_cutoff :
      (lookback : Int64)
      → 0 < lookback
      → lookback ≤ max_int
      → cutoff_for c lookback ≡ some (c.now - lookback)
  unfolding cutoff_for
  positive_cutoff lookback pos fits = ground (arith, pos, fits)

  -- A response body is that of a crawl with the lookback of the request.
  pub serve-crawl :
      (lookback : Int64) (reply : Reply) (r : CrawlResponse)
      → parse_lookback scaled req.lookback ≡ ok lookback
      → serve_http scaled encodes c true (some req) ≡ some reply
      → reply.body ≡ some r
      → crawl c req lookback ≡ some (ok r)
  unfolding rejected failed
  serve-crawl lookback reply r parsed run body = elim (Result-cases (parse_cursor req.cursor)) [
    | inr (x, q) ↦
        let same = some-injective (sym (serve_invalid x (inr q)) ∙ run) in
        cc (ap (λ y. y.body) same ∙ body)
    | inl (position, q) ↦ elim (serve_cases lookback position parsed q) [
      | inl (r', done, answer) ↦
          done ∙ ap (λ y. some (ok y)) (served-body reply r r' (sym run ∙ answer) body)
      | inr (x, broken, run', answer) ↦
          let same = some-injective (sym answer ∙ run) in cc (ap (λ y. y.body) same ∙ body)
    ]
  ]

  -- A body served for a lookback of w weeks, d days and h hours, in sum positive and within a
  -- time.Duration, holds no post older than that, but for posts without a date, and no more posts
  -- than the page size clamped to 1..200; it has has_more with that many posts, or no has_more and
  -- the empty cursor.
  pub serve_window :
      (w d h : ℕ) (reply : Reply) (r : CrawlResponse)
      → req.lookback ≡ itoa w ++ (b'w' ∷ (itoa d ++ (b'd' ∷ (itoa h ++ (b'h' ∷ [])))))
      → 0 < ((w * 7 + d) * 24 + h) * hour
      → ((w * 7 + d) * 24 + h) * hour ≤ max_int
      → serve_http scaled encodes c true (some req) ≡ some reply
      → reply.body ≡ some r
      → IsSound (some (c.now - ((w * 7 + d) * 24 + h) * hour)) (clamp_page_size req.page_size) r
  serve_window w d h reply r text pos fits run body =
      let lookback = ((w * 7 + d) * 24 + h) * hour in
      let parsed = ap (parse_lookback scaled) text ∙ lookback-itoa scaled w d h fits in
      subst (λ o. IsSound o (clamp_page_size req.page_size) r) (positive_cutoff lookback pos fits)
        (crawl-IsSound c req lookback r (serve-crawl lookback reply r parsed run body)).0
