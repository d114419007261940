-- ===== src/Store/Listing/Follow.antt =====
-- A client that follows the cursors of the listing reads the whole listing, each release once.
use takuhai.Base.{
  All, All-select, Bool-cases, Bytes, List, Option, [], ap, arith, bytes_eq, count_if-le, false,
  if◌then◌else◌, inl, inr, length, length-select, length-take, le→ltb_false, ltb, ltb-false, ltb→lt,
  lt→ltb, map, map_option, none, refl, select, some, subst, suc, sym, take, take-all, take-split,
  take-take, true, zero, ℕ, ◌++◌, ◌+◌, ◌<◌, ◌∙◌, ◌∷◌, ◌≡◌, ◌≤◌,
}
use mathlib.Core.List.{append_assoc, map-append, Perm}
use takuhai.Errors.{Result, ok, err, ◌>>=◌}
use takuhai.Cursor.Token.{Codec, Cursor, encode, wire}
use takuhai.Cursor.Token.Binding.{decode-encode}
use takuhai.Store.{Db, Release, healthy}
use takuhai.Store.Rows.{UniqueKeys}
use takuhai.Store.Invariant.{Inv}
use takuhai.Store.Claim.Picked.{All-sort_by}
use takuhai.Store.Listing.{
  ReleaseQuery, ReleaseItem, ReleasePage, query_path, row_before, releases_limit, list_release_rows,
  release_item, page_of, next_cursor, seek_cursor, check_ref, list_releases, cursor_at, is_listed,
}
use takuhai.Store.Listing.Sorted.{
  All-middle, Sorted, sort_by-Sorted, sort_by-Perm, length-sort_by, Comparable-select,
}
use takuhai.Store.Listing.Seek.{
  listing, listing-seek, row_before-StrictOrder, UniqueKeys-Comparable,
}

-- What follows a page: nothing, or what the next cursor brings.
pub follow_page :
    (Bytes → Option (Result (List ReleaseItem))) → ReleasePage → Option (Result (List ReleaseItem))
follow_page rest page =
    if bytes_eq page.next_cursor []
    then some (ok page.releases)
    else map_option (λ out. out >>= λ more. ok (page.releases ++ more)) (rest page.next_cursor)

-- The pages of a query one after the other, with fuel for the pages; none if it runs out.
pub follow : ℕ → Codec → ReleaseQuery → Db → Option (Result (List ReleaseItem))
unfolding follow_page
follow zero codec q db = none
follow (suc fuel) codec q db = elim (list_releases codec healthy q db) [
  | err e ↦ some (err e)
  | ok page ↦ follow_page (λ next. follow fuel codec (record q { cursor = next }) db) page
]

-- The cursor of a row is read back from its text, which is not empty.
abbrev pub Readable : Codec → ReleaseQuery → Release → Type 0
Readable codec q r =
    let c = cursor_at q r in
    (bytes_eq (encode codec c) [] ≡ false)
    × (codec.unmarshal (encode codec c) ≡ some (wire codec c))
    × (codec.parse_time (codec.format_time c.key) ≡ some c.key)

next_cursor-last :
    (codec : Codec) (q : ReleaseQuery) (front : List Release) (r : Release)
    → next_cursor codec q (front ++ r ∷ []) ≡ encode codec (cursor_at q r)
unfolding next_cursor
next_cursor-last codec q [] r = refl
next_cursor-last codec q (x ∷ []) r = refl
next_cursor-last codec q (x ∷ y ∷ front) r = next_cursor-last codec q (y ∷ front) r

module _ (codec : Codec) (q : ReleaseQuery) where
  -- The page that holds all rows, and the page that does not.
  page_of-all :
      (limit : ℕ) (rows : List Release)
      → length rows ≤ limit
      → page_of codec q limit (take (limit + 1) rows)
        ≡ record { releases = map release_item rows; next_cursor = [] }
  unfolding page_of
  page_of-all limit rows h =
      let whole = take-all (limit + 1) rows (omega (arith, h)) in
      rw (whole, le→ltb_false limit (length rows) h) refl

  page_of-more :
      (limit : ℕ) (rows front : List Release) (r : Release)
      → limit < length rows
      → take limit rows ≡ front ++ r ∷ []
      → page_of codec q limit (take (limit + 1) rows) ≡ record {
        releases = map release_item (front ++ r ∷ []);
        next_cursor = encode codec (cursor_at q r);
      }
  unfolding page_of
  page_of-more limit rows front r h e =
      let more : ltb limit (length (take (limit + 1) rows)) ≡ true =
        lt→ltb limit (length (take (limit + 1) rows))
          (omega (arith, length-take (limit + 1) rows, h)) in
      rw (more, take-take limit (limit + 1) rows (omega arith), e, next_cursor-last codec q front r)
        refl

-- A page of a query with another cursor.
abbrev at_cursor : ReleaseQuery → Bytes → ReleaseQuery
at_cursor q k = record q { cursor = k }

releases_limit-pos : (n : ℕ) → 0 < releases_limit n
unfolding releases_limit
releases_limit-pos n = ground arith

module _ (codec : Codec) (q : ReleaseQuery) (db : Db) (keys : UniqueKeys db.releases)
    (checked : check_ref q.ref ≡ ok tt) (readable : All (Readable codec q) db.releases) where
  list_releases-page :
      (k : Bytes) (seek : Option Cursor) (rows : List Release)
      → seek_cursor codec (at_cursor q k) ≡ ok seek
      → listing q seek db.releases ≡ rows
      → list_releases codec healthy (at_cursor q k) db
        ≡ ok (
            page_of codec
              (at_cursor q k)
              (releases_limit q.limit)
              (take (releases_limit q.limit + 1) rows))
  unfolding list_releases list_release_rows is_listed
  list_releases-page k seek rows sought e = rw (list_releases, checked, sought, e) refl

  seek-next :
      (r : Release)
      → Readable codec q r
      → seek_cursor codec (at_cursor q (encode codec (cursor_at q r))) ≡ ok (some (cursor_at q r))
  unfolding seek_cursor cursor_at
  seek-next r (full, text, time) =
      rw (seek_cursor, full, decode-encode codec (cursor_at q r) text time) refl

  -- A row of the listing has a readable cursor.
  listed-Readable :
      (front : List Release) (r : Release) (back : List Release)
      → listing q none db.releases ≡ front ++ r ∷ back
      → Readable codec q r
  listed-Readable front r back e =
      let before = row_before (query_path q.since) in
      All-middle before (row_before-StrictOrder (query_path q.since)) (Readable codec q) front r
        back
        (subst (All (Readable codec q)) e (
          All-sort_by (Readable codec q) before (select (is_listed q none) db.releases)
            (All-select (Readable codec q) (is_listed q none) db.releases readable)))

  -- What is left behind a cursor is read to its end.
  follow-rest :
      (fuel : ℕ) (k : Bytes) (seek : Option Cursor) (front rows : List Release)
      → length rows < fuel
      → seek_cursor codec (at_cursor q k) ≡ ok seek
      → listing q seek db.releases ≡ rows
      → listing q none db.releases ≡ front ++ rows
      → follow fuel codec (at_cursor q k) db ≡ some (ok (map release_item rows))
  unfolding follow follow_page cursor_at
  follow-rest zero k seek front rows room sought e whole = absurd (omega (arith, room))
  follow-rest (suc fuel) k seek front rows room sought e whole =
      let limit = releases_limit q.limit in
      let page = list_releases-page k seek rows sought e in
      elim (Bool-cases (ltb limit (length rows))) [
        | inr few ↦
            rw
              (
                follow,
                page,
                page_of-all codec (at_cursor q k) limit rows (ltb-false limit (length rows) few),
              )
              refl
        | inl many ↦
            let (f, r, b, cut, taken, shorter) =
              take-split limit rows (releases_limit-pos q.limit)
                (ltb→lt limit (length rows) many) in
            let whole' : listing q none db.releases ≡ (front ++ f) ++ r ∷ b =
              whole ∙ ap (λ t. front ++ t) cut ∙ sym (append_assoc front f (r ∷ b)) in
            let whole'' : listing q none db.releases ≡ ((front ++ f) ++ r ∷ []) ++ b =
              whole' ∙ sym (append_assoc (front ++ f) (r ∷ []) b) in
            let safe = listed-Readable (front ++ f) r b whole' in
            let rest =
              follow-rest fuel (encode codec (cursor_at q r)) (some (cursor_at q r))
                ((front ++ f) ++ r ∷ []) b (omega (arith, room, shorter)) (seek-next r safe)
                (listing-seek q db.releases (front ++ f) r b keys whole') whole'' in
            let joined : map release_item (f ++ r ∷ []) ++ map release_item b
                ≡ map release_item rows =
              sym (map-append release_item (f ++ r ∷ []) b)
              ∙ ap (map release_item) (append_assoc f (r ∷ []) b ∙ sym cut) in
            let here =
              page_of-more codec (at_cursor q k) limit rows f r (ltb→lt limit (length rows) many)
                taken in
            rw (follow, page, here, follow_page, safe.0, rest) (ap (λ t. some (ok t)) joined)
      ]

-- From tables that satisfy the invariant, a query with a valid ref and no cursor, and cursors that
-- are read back from their texts: following the next cursors from page to page ends, and gives the
-- items of a list of rows that is in the order of the query, newest first, and that is a permutation
-- of the matched rows of the query. No release is lost or repeated at the border of two pages.
pub follow_complete :
    (codec : Codec) (m : ℕ) (q : ReleaseQuery) (db : Db)
    → Inv m db
    → check_ref q.ref ≡ ok tt
    → All (Readable codec q) db.releases
    → q.cursor ≡ []
    → (rows : List Release) × (follow (length db.releases + 1) codec q db
        ≡ some (ok (map release_item rows)))
      × Sorted (row_before (query_path q.since)) rows
      × Perm rows (select (is_listed q none) db.releases)
unfolding seek_cursor
follow_complete codec m q db v checked readable first =
    let rows = listing q none db.releases in
    (
      rows,
      subst
          (λ k.
            follow (length db.releases + 1) codec (at_cursor q k) db
            ≡ some (ok (map release_item rows)))
          (sym first)
          (follow-rest codec q db v.keys checked readable (length db.releases + 1) [] none [] rows
            (omega (
              arith,
              length-sort_by (row_before (query_path q.since))
                  (select (is_listed q none) db.releases),
              length-select (is_listed q none) db.releases,
              count_if-le (is_listed q none) db.releases,
            ))
            refl refl refl),
      sort_by-Sorted (row_before (query_path q.since)) (row_before-StrictOrder (query_path q.since))
          (select (is_listed q none) db.releases)
          (Comparable-select (row_before (query_path q.since)) (is_listed q none) db.releases
            (UniqueKeys-Comparable (query_path q.since) db.releases v.keys)),
      sort_by-Perm (row_before (query_path q.since)) (select (is_listed q none) db.releases),
    )
