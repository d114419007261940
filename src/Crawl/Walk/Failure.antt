-- ===== src/Crawl/Walk/Failure.antt =====
-- A crawl from a cursor that parses fails only if a page of the source fails.
use takuhai.Base.{
  Int64, Option, Option-cases, ap, arith, inl, inr, none, refl, some, suc, zero, ℕ, ◌<◌, ◌∙◌, ◌≡◌,
  ◌⊎◌,
}
use takuhai.Errors.{Result, Result-cases, Error, ok, err, crawl_parse, crawl_fetch}
use takuhai.Crawl.Cursor.{parse_cursor}
use takuhai.Crawl.Walk.{
  Config, CrawlRequest, CrawlResponse, Turn, done, again, State, page_rows, walk, finish, turn,
  crawl, Cutoff, enough_fuel, cutoff_for, clamp_page_size, start,
}

module _ {Body : Type 0} (c : Config Body) where
  -- A page that the source fails to give, or whose rows cannot be read.
  abbrev pub Broken : Error → Type 0
  Broken x = (page : Int64) × (page_rows c page ≡ err x)

  -- A page fails where it cannot be fetched or its body cannot be parsed.
  pub page_rows-failed :
      (page : Int64) (x : Error)
      → page_rows c page ≡ err x
      → ((c.fetch page ≡ none) × (x ≡ crawl_fetch))
        ⊎ ((body : Body) × (c.fetch page ≡ some body) × (c.parse body ≡ none) × (x ≡ crawl_parse))
  unfolding page_rows
  page_rows-failed page x e = elim (Option-cases (c.fetch page)) [
    | inl n ↦ let e' : err crawl_fetch ≡ err x = rw (n, page_rows) at e in inl (n, cc e')
    | inr (body, f) ↦ elim (Option-cases (c.parse body)) [
      | inl n ↦
          let e' : err crawl_parse ≡ err x = rw (f, n, page_rows) at e in inr (body, f, n, cc e')
      | inr (rows, q) ↦ let e' : ok rows ≡ err x = rw (f, q, page_rows) at e in cc e'
    ]
  ]

  pub page_rows-unparsed :
      (page : Int64) (body : Body)
      → c.fetch page ≡ some body
      → c.parse body ≡ none
      → page_rows c page ≡ err crawl_parse
  unfolding page_rows
  page_rows-unparsed page body found refused = rw (page_rows, found, refused) refl

  finish-Broken :
      (rest : State → Option (Result CrawlResponse)) (t : Turn) (x : Error)
      → ((s : State) → rest s ≡ some (err x) → Broken x)
      → finish rest t ≡ some (err x)
      → Broken x
  unfolding finish
  finish-Broken rest (done r) x ih e = cc e
  finish-Broken rest (again s) x ih e = ih s e

  walk-Broken :
      (cutoff : Cutoff) (page_size fuel : ℕ) (s : State) (x : Error)
      → walk c fuel cutoff page_size s ≡ some (err x)
      → Broken x
  unfolding walk
  walk-Broken cutoff page_size zero s x e = cc e
  walk-Broken cutoff page_size (suc fuel) s x e = elim (Result-cases (page_rows c s.page)) [
    | inr (y, q) ↦
        let e' : ◌≡◌ {A = Option (Result CrawlResponse)} (some (err y)) (some (err x)) =
          rw (q, walk) at e in
        let same : y ≡ x = cc e' in (s.page, q ∙ ap err same)
    | inl (rows, q) ↦
        finish-Broken (walk c fuel cutoff page_size) (turn c.threshold cutoff page_size s rows) x
          (λ s' e'. walk-Broken cutoff page_size fuel s' x e') (rw (q, walk) at e)
  ]

  pub crawl-Broken :
      (req : CrawlRequest) (lookback : Int64) (position : Int64 × Int64) (x : Error)
      → parse_cursor req.cursor ≡ ok position
      → crawl c req lookback ≡ some (err x)
      → Broken x
  unfolding crawl
  crawl-Broken req lookback position x parsed e =
      let size = clamp_page_size req.page_size in
      walk-Broken (cutoff_for c lookback) size (enough_fuel c size) (start c position) x
        (rw (parsed, crawl) at e)

  walk-first :
      (cutoff : Cutoff) (page_size fuel : ℕ) (s : State) (x : Error)
      → 0 < fuel
      → page_rows c s.page ≡ err x
      → walk c fuel cutoff page_size s ≡ some (err x)
  unfolding walk
  walk-first cutoff page_size zero s x pos e = absurd (omega (arith, pos))
  walk-first cutoff page_size (suc fuel) s x pos e = rw (walk, e) refl

  -- A crawl whose first page fails is that failure.
  pub crawl-first :
      (req : CrawlRequest) (lookback : Int64) (position : Int64 × Int64) (x : Error)
      → parse_cursor req.cursor ≡ ok position
      → page_rows c (start c position).page ≡ err x
      → crawl c req lookback ≡ some (err x)
  unfolding crawl enough_fuel
  crawl-first req lookback position x parsed e =
      let size = clamp_page_size req.page_size in
      rw (crawl, parsed)
        (walk-first (cutoff_for c lookback) size (enough_fuel c size) (start c position) x
          (omega arith) e)
