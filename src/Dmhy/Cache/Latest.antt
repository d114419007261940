-- ===== src/Dmhy/Cache/Latest.antt =====
-- The cache against its log: a page is served from the cache if its latest fetch has not expired.
use takuhai.Base.{
  All, Bool-cases, Bytes, Int64, List, Option, Option-cases, Time, [], add_time, ap, arith,
  bytes_eq_refl, bytes_ne, find_if, if◌then◌else◌, inl, inr, le→ltb_false, ltb, ltb-false,
  map_option, max_int, none, refl, some, some-injective, sym, ℕ, ◌&&◌, ◌==◌, ◌∙◌, ◌∷◌, ◌≡◌, ◌≢◌,
  ◌≤◌, ◌⊎◌,
}
use takuhai.Stdlib.Decimal.{itoa, atoi, atoi-itoa, itoa-IsDigit}
use takuhai.Crawl.Lookback.{span_digits}
use takuhai.Crawl.Lookback.Print.{span_digits-append}
use takuhai.Dmhy.Cache.{
  PageEntry, Items, no_items, page_cache_key, fresh, put_page, get_page, wrap, after_fetch,
}

-- A page that was fetched and stored, and when.
pub record Stored : Type 0 where
  pub sort_id : Int64
  pub page : Int64
  pub body : Bytes
  pub at : Time

-- The latest fetch of a page in a log, newest first.
abbrev pub latest : Int64 → Int64 → List Stored → Option Stored
latest sort_id page = find_if (λ s. s.sort_id == sort_id && s.page == page)

-- The cache after the stores of a log, in whichever order their callers took the lock.
pub cache_of : Int64 → List Stored → Items
cache_of ttl [] = no_items
cache_of ttl (s ∷ log) =
    put_page ttl s.at (page_cache_key s.sort_id s.page) s.body (cache_of ttl log)

abbrev pub Fits : Stored → Type 0
Fits s = (s.sort_id ≤ max_int) × (s.page ≤ max_int)

-- What a log serves at a time.
abbrev pub served : Int64 → Time → Option Stored → Option Bytes
served ttl now none = none
served ttl now (some s) = if ltb now (add_time s.at ttl) then some s.body else none

itoa-injective : (a b : ℕ) → a ≤ max_int → b ≤ max_int → itoa a ≡ itoa b → a ≡ b
itoa-injective a b ha hb e = some-injective (sym (atoi-itoa a ha) ∙ ap atoi e ∙ atoi-itoa b hb)

-- Pages with different numbers have different keys.
pub page_cache_key-injective :
    (a b c d : ℕ)
    → a ≤ max_int
    → b ≤ max_int
    → c ≤ max_int
    → d ≤ max_int
    → page_cache_key a b ≡ page_cache_key c d
    → (a ≡ c) × (b ≡ d)
unfolding page_cache_key
page_cache_key-injective a b c d ha hb hc hd e =
    let split : ◌≡◌ {A = Bytes × Bytes} (itoa a, b'|' ∷ itoa b) (itoa c, b'|' ∷ itoa d) =
      sym (span_digits-append (itoa a) (itoa b) b'|' (itoa-IsDigit a ha) refl)
      ∙ ap span_digits e
      ∙ span_digits-append (itoa c) (itoa d) b'|' (itoa-IsDigit c hc) refl in
    let tails : b'|' ∷ itoa b ≡ b'|' ∷ itoa d = ap (λ (x : Bytes × Bytes). x.1) split in
    let same : itoa b ≡ itoa d = cc tails in
    (
      itoa-injective a c ha hc (ap (λ (x : Bytes × Bytes). x.0) split),
      itoa-injective b d hb hd same,
    )

fresh-twice :
    (before now : Time) (o : Option PageEntry)
    → before ≤ now
    → fresh now (fresh before o) ≡ fresh now o
unfolding fresh
fresh-twice before now none h = refl
fresh-twice before now (some e) h = elim (Bool-cases (ltb before e.expires)) [
  | inl a ↦ rw (a, fresh) refl
  | inr b ↦
      rw (b, fresh, le→ltb_false now e.expires (omega (arith, h, ltb-false before e.expires b)))
        refl
]

module _ (ttl : Int64) (now : Time) (sort_id page : ℕ) (fits : sort_id ≤ max_int)
    (fits' : page ≤ max_int) where
  -- Every page was stored by now.
  abbrev pub Past : List Stored → Type 0
  Past = All (λ s. (s.at ≤ now) × Fits s)

  served-fresh :
      (s : Stored)
      → map_option
          (λ e. e.body)
          (fresh now (some (record { body = s.body; expires = add_time s.at ttl })))
        ≡ served ttl now (some s)
  unfolding fresh
  served-fresh s = elim (Bool-cases (ltb now (add_time s.at ttl))) [
    | inl a ↦ rw (a, fresh) refl
    | inr b ↦ rw (b, fresh) refl
  ]

  get_page-latest :
      (log : List Stored)
      → Past log
      → get_page now (page_cache_key sort_id page) (cache_of ttl log)
        ≡ served ttl now (latest sort_id page log)
  unfolding get_page put_page cache_of fresh
  get_page-latest [] past = refl
  get_page-latest (s ∷ log) past = elim (Bool-cases (s.sort_id == sort_id && s.page == page)) [
    | inl hit ↦
        let same : page_cache_key s.sort_id s.page ≡ page_cache_key sort_id page =
          ap (λ x. page_cache_key x s.page) (ground (arith, hit))
          ∙ ap (λ x. page_cache_key sort_id x) (ground (arith, hit)) in
        rw (hit, same, bytes_eq_refl (page_cache_key sort_id page)) (served-fresh s)
    | inr miss ↦
        let other : page_cache_key s.sort_id s.page ≢ page_cache_key sort_id page = λ e.
          let (same, same') =
            page_cache_key-injective s.sort_id s.page sort_id page past.0.1.0 past.0.1.1 fits fits'
              e in
          ground (arith, miss, same, same') in
        let older = cache_of ttl log (page_cache_key sort_id page) in
        rw
          (
            miss,
            bytes_ne (page_cache_key s.sort_id s.page) (page_cache_key sort_id page) other,
            fresh-twice s.at now older past.0.0,
          )
          (get_page-latest log past.1)
  ]

  -- Behind the cache, with its pages stored by now and all numbers below 2 ^ 63, a page is served
  -- from its latest fetch if that has not expired, and nothing changes. Else it is fetched: a failure
  -- is passed on and changes nothing, a success is served and becomes the latest fetch.
  pub wrap-latest :
      (at_put : Time) (fetch : Int64 → Int64 → Option Bytes) (log : List Stored)
      → Past log
      → ((body : Bytes) × (served ttl now (latest sort_id page log) ≡ some body)
          × (wrap ttl now at_put fetch sort_id page (cache_of ttl log)
              ≡ (cache_of ttl log, some body)))
        ⊎ (((served ttl now (latest sort_id page log) ≡ none)
              × (fetch sort_id page ≡ none)
              × (wrap ttl now at_put fetch sort_id page (cache_of ttl log)
                  ≡ (cache_of ttl log, none)))
            ⊎ ((body : Bytes) × (served ttl now (latest sort_id page log) ≡ none)
                × (fetch sort_id page ≡ some body)
                × (wrap ttl now at_put fetch sort_id page (cache_of ttl log) ≡ (
                  cache_of ttl
                      (record { sort_id = sort_id; page = page; body = body; at = at_put } ∷ log),
                  some body,
                ))))
  unfolding wrap after_fetch cache_of
  wrap-latest at_put fetch log past =
      let got = get_page-latest log past in
      elim (Option-cases (served ttl now (latest sort_id page log))) [
        | inr (body, q) ↦ inl (body, q, rw (wrap, got, q) refl)
        | inl q ↦ elim (Option-cases (fetch sort_id page)) [
          | inl gone ↦ inr (inl (q, gone, rw (wrap, got, q, gone) refl))
          | inr (body, found) ↦ inr (inr (body, q, found, rw (wrap, got, q, found) refl))
        ]
      ]
