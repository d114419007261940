-- ===== src/Nyaa/Server/Offline.antt =====
-- A listing that is read from saved pages.
use takuhai.Base.{
  All, Bool, Bytes, Int64, [], any_if, ap, arith, bytes_eq, codes, false, max_int, refl, true,
  up_to_byte, ℕ, ◌++◌, ◌==◌, ◌∙◌, ◌∷◌, ◌≡◌, ◌≤◌,
}
use takuhai.Stdlib.Decimal.{itoa, IsDigit, itoa-IsDigit}
use takuhai.Crawl.Server.{Fetcher, fetch_page, fetch_target, fetched, read_file_url}
use takuhai.Dmhy.Server.{trim_slashes}
use takuhai.Nyaa.Server.{UrlPackage, Search, listing_page_url, page_fetcher}

bytes_eq-append : (front s : Bytes) → bytes_eq s [] ≡ false → bytes_eq (front ++ s) [] ≡ false
bytes_eq-append [] s h = h
bytes_eq-append (c ∷ front) s h = refl

trim_slashes-append :
    (front s : Bytes)
    → bytes_eq (trim_slashes s) [] ≡ false
    → trim_slashes (front ++ s) ≡ front ++ trim_slashes s
unfolding trim_slashes
trim_slashes-append [] s h = refl
trim_slashes-append (c ∷ front) s h =
    rw (trim_slashes-append front s h) (ground (arith, bytes_eq-append front (trim_slashes s) h))

abbrev pub has_byte : ℕ → Bytes → Bool
has_byte b = any_if (λ c. c == b)

has_byte-trim_slashes :
    (b : ℕ) (s : Bytes) → has_byte b s ≡ false → has_byte b (trim_slashes s) ≡ false
unfolding trim_slashes
has_byte-trim_slashes b [] h = refl
has_byte-trim_slashes b (c ∷ s) h = ground (arith, has_byte-trim_slashes b s)

up_to_byte-append :
    (b : ℕ) (s t : Bytes) → has_byte b s ≡ false → up_to_byte b (s ++ t) ≡ s ++ up_to_byte b t
up_to_byte-append b [] t h = refl
up_to_byte-append b (c ∷ s) t h = ground (arith, up_to_byte-append b s t)

digits-plain : (s : Bytes) → All IsDigit s → has_byte b'?' s ≡ false
digits-plain [] h = refl
digits-plain (c ∷ s) h = ground (arith, digits-plain s h.1)

-- The name of a saved page holds no question mark.
page_path-plain :
    (dir : Bytes) (page : Int64)
    → has_byte b'?' dir ≡ false
    → page ≤ max_int
    → up_to_byte b'?' (dir ++ (codes "/page-" ++ (itoa page ++ codes ".html")))
      ≡ dir ++ (codes "/page-" ++ (itoa page ++ codes ".html"))
page_path-plain dir page plain small =
    up_to_byte-append b'?' dir (codes "/page-" ++ (itoa page ++ codes ".html")) plain
    ∙ ap (λ t. dir ++ (codes "/page-" ++ t))
        (up_to_byte-append b'?' (itoa page) (codes ".html")
          (digits-plain (itoa page) (itoa-IsDigit page small)))

-- With a base of file:// and a directory, which is not empty once slashes at its end are dropped and
-- holds no question mark, a page that the limiter lets pass is what the file page-N.html of the
-- directory holds, whatever the network and package net/url do.
offline_page :
    (net : UrlPackage) (s : Search) (f : Fetcher) (dir : Bytes) (page : Int64)
    → bytes_eq (trim_slashes dir) [] ≡ false
    → has_byte b'?' dir ≡ false
    → page ≤ max_int
    → f.waits page ≡ true
    → (fetch_page (page_fetcher net (codes "file://" ++ dir) s f) page).page_body
      ≡ f.read_file (trim_slashes dir ++ (codes "/page-" ++ (itoa page ++ codes ".html")))
unfolding fetch_page page_fetcher listing_page_url fetched fetch_target read_file_url
offline_page net s f dir page some_dir plain small waits =
    rw (waits, trim_slashes-append (codes "file://") dir some_dir)
      (ap f.read_file
        (page_path-plain (trim_slashes dir) page (has_byte-trim_slashes b'?' dir plain) small))
