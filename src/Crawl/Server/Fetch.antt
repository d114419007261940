-- ===== src/Crawl/Server/Fetch.antt =====
-- The bytes of a page are what a file or a response with status 200 held.
use takuhai.Base.{
  Bool-cases, Bytes, Int64, Option, Option-cases, [], ap, arith, codes, cut_prefix, inl, inr, none,
  refl, some, some-injective, sym, true, up_to_byte, ◌++◌, ◌==◌, ◌∙◌, ◌∷◌, ◌≡◌, ◌⊎◌,
}
use takuhai.Crawl.Server.{
  Fetcher, HttpAnswer, fetched, is_some, read_file_url, http_body, http_get, fetch_target,
  fetch_page,
}

-- Where the bytes of a target come from.
abbrev pub FromFile : Fetcher → Bytes → Bytes → Type 0
FromFile f target b =
    (path : Bytes) × (target ≡ codes "file://" ++ path)
    × (f.read_file (up_to_byte b'?' path) ≡ some b)

abbrev pub FromHttp : Fetcher → Bytes → Bytes → Type 0
FromHttp f target b =
    (a : HttpAnswer) × (f.get target ≡ some a) × (a.status_code ≡ 200) × (a.content ≡ some b)

cut_prefix-append : (front s rest : Bytes) → cut_prefix front s ≡ some rest → s ≡ front ++ rest
cut_prefix-append [] s rest e = some-injective e
cut_prefix-append (p ∷ front) [] rest e = cc e
cut_prefix-append (p ∷ front) (c ∷ s) rest e = elim (Bool-cases (p == c)) [
  | inl hit ↦
      let same : p ≡ c = ground (arith, hit) in
      let e' : cut_prefix front s ≡ some rest = rw hit at e in
      ap (λ t. c ∷ t) (cut_prefix-append front s rest e') ∙ ap (λ d. d ∷ front ++ rest) (sym same)
  | inr miss ↦ let e' : ◌≡◌ {A = Option Bytes} none (some rest) = rw miss at e in cc e'
]

http_body-ok :
    (a : HttpAnswer) (b : Bytes)
    → http_body a ≡ some b
    → (a.status_code ≡ 200) × (a.content ≡ some b)
unfolding http_body
http_body-ok a b e = elim (Bool-cases (a.status_code == 200)) [
  | inl hit ↦ (ground (arith, hit), rw hit at e)
  | inr miss ↦ let e' : ◌≡◌ {A = Option Bytes} none (some b) = rw miss at e in cc e'
]

http_get-ok : (f : Fetcher) (target b : Bytes) → http_get f target ≡ some b → FromHttp f target b
unfolding http_get
http_get-ok f target b e = elim (Bool-cases (f.builds target)) [
  | inr miss ↦ let e' : ◌≡◌ {A = Option Bytes} none (some b) = rw miss at e in cc e'
  | inl built ↦ elim (Option-cases (f.get target)) [
    | inl n ↦ let e' : ◌≡◌ {A = Option Bytes} none (some b) = rw (built, n) at e in cc e'
    | inr (a, q) ↦
        let e' : http_body a ≡ some b = rw (built, q) at e in
        let (status, content) = http_body-ok a b e' in (a, q, status, content)
  ]
]

fetch_target-ok :
    (f : Fetcher) (target b : Bytes)
    → fetch_target f target ≡ some b
    → FromFile f target b ⊎ FromHttp f target b
unfolding fetch_target read_file_url
fetch_target-ok f target b e = elim (Option-cases (cut_prefix (codes "file://") target)) [
  | inl n ↦ inr (http_get-ok f target b (rw (n, fetch_target) at e))
  | inr (path, q) ↦
      inl (path, cut_prefix-append (codes "file://") target path q, rw (q, fetch_target) at e)
]

-- A page that is fetched was let pass by the limiter and has a URL; its bytes are those of the file
-- that a file:// URL names, without its query, or the body of a response with status 200. It is
-- recorded as ok.
pub fetch_page-ok :
    (f : Fetcher) (page : Int64) (b : Bytes)
    → (fetch_page f page).page_body ≡ some b
    → (target : Bytes) × (f.waits page ≡ true)
      × (f.build_url page ≡ some target)
      × (FromFile f target b ⊎ FromHttp f target b)
      × ((fetch_page f page).recorded ≡ some true)
unfolding fetch_page fetched is_some
fetch_page-ok f page b e = elim (Bool-cases (f.waits page)) [
  | inr miss ↦ let e' : ◌≡◌ {A = Option Bytes} none (some b) = rw (miss, fetch_page) at e in cc e'
  | inl passed ↦ elim (Option-cases (f.build_url page)) [
    | inl n ↦
        let e' : ◌≡◌ {A = Option Bytes} none (some b) = rw (passed, n, fetch_page) at e in cc e'
    | inr (target, q) ↦
        let e' : fetch_target f target ≡ some b = rw (passed, q, fetch_page) at e in
        (target, passed, q, fetch_target-ok f target b e', rw (passed, q, fetch_page, e') refl)
  ]
]
