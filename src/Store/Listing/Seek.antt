-- ===== src/Store/Listing/Seek.antt =====
-- The keyset seek of a cursor is a cut of the full listing behind the row of the cursor.
use takuhai.Base.{
  All-weaken, Bool, Bool-cases, List, Option, [], ap, arith, inl, inr, none, refl, select, some,
  subst, sym, ◌&&◌, ◌++◌, ◌∙◌, ◌∷◌, ◌≡◌,
}
use takuhai.Store.{Release}
use takuhai.Cursor.Token.{CursorPath, Cursor}
use takuhai.Store.Rows.{UniqueKeys}
use takuhai.Store.Claim.{sort_by}
use takuhai.Store.Listing.{ReleaseQuery, query_path, is_past, is_listed, row_before, cursor_at}
use takuhai.Store.Listing.Order.{row_before_trans, row_before_irrefl, row_before_total}
use takuhai.Store.Listing.Sorted.{
  StrictOrder, Sorted, Comparable, Comparable-select, sort_by-Sorted, select-sort_by, select-behind,
}

pub row_before-StrictOrder : (path : CursorPath) → StrictOrder (row_before path)
row_before-StrictOrder path = record {
  irrefl = row_before_irrefl path;
  trans = row_before_trans path;
}

-- All rows of a query behind a position, in order: the listing without a limit.
abbrev pub listing : ReleaseQuery → Option Cursor → List Release → List Release
listing q seek rs = sort_by (row_before (query_path q.since)) (select (is_listed q seek) rs)

pub UniqueKeys-Comparable :
    (path : CursorPath) (rs : List Release) → UniqueKeys rs → Comparable (row_before path) rs
UniqueKeys-Comparable path [] u = tt
UniqueKeys-Comparable path (r ∷ rs) u = (
  All-weaken
      (λ q different. elim (Bool-cases (row_before path r q)) [
        | inl e ↦ inl e
        | inr e ↦ inr (row_before_total path r q (λ same. different (sym same)) e)
      ])
      rs u.0,
  UniqueKeys-Comparable path rs u.1,
)

select-again :
    (p q both : Release → Bool) (rs : List Release)
    → ((r : Release) → both r ≡ (p r && q r))
    → select both rs ≡ select q (select p rs)
select-again p q both [] same = refl
select-again p q both (r ∷ rs) same = elim (Bool-cases (p r)) [
  | inl e ↦ rw (same r, e, select-again p q both rs same) refl
  | inr e ↦ rw (same r, e, select-again p q both rs same) refl
]

is_listed-past :
    (q : ReleaseQuery) (c : Cursor) (r : Release)
    → is_listed q (some c) r ≡ (is_listed q none r && is_past (query_path q.since) (some c) r)
unfolding is_listed is_past
is_listed-past q c r = ground arith

is_past-cursor_at :
    (q : ReleaseQuery) (r x : Release)
    → is_past (query_path q.since) (some (cursor_at q r)) x ≡ row_before (query_path q.since) r x
unfolding is_past cursor_at row_before
is_past-cursor_at q r x = refl

-- Behind the cursor of a row of the listing stands the rest of the listing.
pub listing-seek :
    (q : ReleaseQuery) (rs front : List Release) (r : Release) (back : List Release)
    → UniqueKeys rs
    → listing q none rs ≡ front ++ r ∷ back
    → listing q (some (cursor_at q r)) rs ≡ back
listing-seek q rs front r back u e =
    let before = row_before (query_path q.since) in
    let order = row_before-StrictOrder (query_path q.since) in
    let some_rows =
      Comparable-select before (is_listed q none) rs
        (UniqueKeys-Comparable (query_path q.since) rs u) in
    let sorted = sort_by-Sorted before order (select (is_listed q none) rs) some_rows in
    let split =
      select-again (is_listed q none) (before r) (is_listed q (some (cursor_at q r))) rs (λ x.
        is_listed-past q (cursor_at q r) x
        ∙ ap (λ b. is_listed q none x && b) (is_past-cursor_at q r x)) in
    ap (sort_by before) split
    ∙ sym (select-sort_by before order (before r) (select (is_listed q none) rs) some_rows)
    ∙ ap (select (before r)) e
    ∙ select-behind before order front r back (subst (Sorted before) e sorted)
