-- ===== src/Store/Ingest/Grows.antt =====
-- How many rows an ingest adds.
use takuhai.Base.{
  Bool, Bool-cases, List, Option-cases, Time, [], ap, arith, bytes_eq, false, find_if,
  if◌then◌else◌, inl, inr, length, length-append, length-map, refl, subst, true, ℕ, ◌+◌, ◌∷◌, ◌≡◌,
}
use takuhai.Errors.{Result, ok, err, >>=-eq-ok, ok-injective, guard-eq-ok, database_failure}
use takuhai.Store.{
  Db, RawItem, Faults, find_release, is_canonical_infohash, items_for, upsert_release,
  insert_raw_item, recompute, begin_tx, commit_tx,
}
use takuhai.Store.Ingest.{
  IngestParams, IngestOutcome, new, updated, duplicate, conflict, same_post, after_insert,
  new_release, new_item, upsert, insert_item, upsert_tx, settle, represent, recompute_with,
  recompute_representative, ingest_n,
}

abbrev as_number : Bool → ℕ
as_number true = 1
as_number false = 0

abbrev pub added_releases : IngestOutcome → ℕ
added_releases new = 1
added_releases _ = 0

abbrev pub added_items : IngestOutcome → ℕ
added_items new = 1
added_items updated = 1
added_items _ = 0

-- The tables have grown by so many releases and raw items.
abbrev pub Grown : ℕ → ℕ → Db → Db → Type 0
Grown r i db db' =
    (length db'.releases ≡ length db.releases + r)
    × (length db'.raw_items ≡ length db.raw_items + i)

upsert-Grown :
    (p : IngestParams) (now : Time) (db : Db)
    → Grown (as_number (upsert p now db).1) 0 db (upsert p now db).0
unfolding upsert
upsert-Grown p now db = elim (Option-cases (find_release p.infohash db.releases)) [
  | inl n ↦ rw (n, upsert) (length-append db.releases (new_release p now ∷ []), omega arith)
  | inr (r, e) ↦ rw (e, upsert) (omega arith, omega arith)
]

insert_item-Grown :
    (p : IngestParams) (now : Time) (db : Db)
    → Grown 0 (as_number (insert_item p now db).1) db (insert_item p now db).0
unfolding insert_item
insert_item-Grown p now db =
    elim (Option-cases (find_if (same_post p.source p.source_id) db.raw_items)) [
      | inl n ↦
          rw (n, insert_item)
            (omega arith, length-append db.raw_items (new_item p db.next_item now ∷ []))
      | inr (i, e) ↦ rw (e, insert_item) (omega arith, omega arith)
    ]

recompute-Grown :
    (p : IngestParams) (now : Time) (items : List RawItem) (db db' : Db)
    → recompute_with p now items db ≡ ok db'
    → Grown 0 0 db db'
unfolding recompute_with
recompute-Grown p now [] db db' e = cc
recompute-Grown p now (i ∷ items) db db' e = subst (Grown 0 0 db) (ok-injective e) (
  omega (
    arith,
    length-map (λ r. if bytes_eq r.infohash p.infohash then represent p now i items r else r)
        db.releases,
  ),
  omega arith,
)

after_insert-Grown :
    (fails : Faults) (p : IngestParams) (now : Time) (created inserted c i : Bool) (db db' : Db)
    → after_insert fails p now created inserted db ≡ ok (c, i, db')
    → (c ≡ created) × (i ≡ inserted) × Grown 0 0 db db'
unfolding after_insert recompute_representative
after_insert-Grown fails p now false true c i db db' e =
    let (db'', q, last) = >>=-eq-ok (recompute_representative fails p now db) _ e in
    let same : db'' ≡ db' = ground (arith, last) in
    (
      ground (arith, last),
      ground (arith, last),
      subst (Grown 0 0 db) same (
          recompute-Grown p now (items_for p.infohash db.raw_items) db db''
            (guard-eq-ok (fails recompute) database_failure _ q).1),
    )
after_insert-Grown fails p now true inserted c i db db' e =
    let same : db ≡ db' = ground (arith, e) in
    (ground (arith, e), ground (arith, e), subst (Grown 0 0 db) same (omega arith, omega arith))
after_insert-Grown fails p now false false c i db db' e =
    let same : db ≡ db' = ground (arith, e) in
    (ground (arith, e), ground (arith, e), subst (Grown 0 0 db) same (omega arith, omega arith))

upsert_tx-Grown :
    (fails : Faults) (p : IngestParams) (now : Time) (c i : Bool) (db db' : Db)
    → upsert_tx fails p now db ≡ ok (c, i, db')
    → Grown (as_number c) (as_number i) db db'
unfolding upsert_tx
upsert_tx-Grown fails p now c i db db' e =
    let e1 = guard-eq-ok (fails upsert_release) database_failure _ e in
    let e2 = guard-eq-ok (fails insert_raw_item) database_failure _ e1.1 in
    let (db1, created) = upsert p now db in
    let (db2, inserted) = insert_item p now db1 in
    let (same_c, same_i, (g1, g2)) =
      after_insert-Grown fails p now created inserted c i db2 db' e2.1 in
    let (a1, a2) = upsert-Grown p now db in
    let (b1, b2) = insert_item-Grown p now db1 in
    let sc = ap as_number same_c in
    let si = ap as_number same_i in (omega (arith, g1, a1, b1, sc), omega (arith, g2, a2, b2, si))

pub committed :
    (b : Bool) (db db1 db' : Db) (q o : IngestOutcome)
    → ◌≡◌ {A = Db × Result IngestOutcome}
        (if b then (db, err database_failure) else (db1, ok q))
        (db', ok o)
    → (db1 ≡ db') × (q ≡ o)
committed true db db1 db' q o e = cc (ap (λ y. y.1) e)
committed false db db1 db' q o e = (ap (λ y. y.0) e, ok-injective (ap (λ y. y.1) e))

Grown-same :
    (q o : IngestOutcome) (db db1 db' : Db)
    → q ≡ o
    → db1 ≡ db'
    → Grown (added_releases q) (added_items q) db db1
    → Grown (added_releases o) (added_items o) db db'
Grown-same q o db db1 db' same_o same_db g =
    subst (λ x. Grown (added_releases x) (added_items x) db db') same_o
      (subst (Grown (added_releases q) (added_items q) db) same_db g)

settle-Grown :
    (fails : Faults) (db db' : Db) (r : Result (Bool × Bool × Db)) (o : IngestOutcome)
    → ((c i : Bool) (db1 : Db) → r ≡ ok (c, i, db1) → Grown (as_number c) (as_number i) db db1)
    → settle fails db r ≡ (db', ok o)
    → Grown (added_releases o) (added_items o) db db'
unfolding settle
settle-Grown fails db db' (err x) o h e = cc (ap (λ y. y.1) e)
settle-Grown fails db db' (ok (true, false, db1)) o h e =
    let same_o : conflict ≡ o = ok-injective (ap (λ y. y.1) e) in
    Grown-same conflict o db db db' same_o (ap (λ y. y.0) e) (omega arith, omega arith)
settle-Grown fails db db' (ok (true, true, db1)) o h e =
    let (same_db, same_o) = committed (fails commit_tx) db db1 db' new o e in
    Grown-same new o db db1 db' same_o same_db (h true true db1 refl)
settle-Grown fails db db' (ok (false, true, db1)) o h e =
    let (same_db, same_o) = committed (fails commit_tx) db db1 db' updated o e in
    Grown-same updated o db db1 db' same_o same_db (h false true db1 refl)
settle-Grown fails db db' (ok (false, false, db1)) o h e =
    let (same_db, same_o) = committed (fails commit_tx) db db1 db' duplicate o e in
    Grown-same duplicate o db db1 db' same_o same_db (h false false db1 refl)

pub begun :
    (b : Bool) (db db' : Db) (x : Db × Result IngestOutcome) (o : IngestOutcome)
    → (if b then (db, err database_failure) else x) ≡ (db', ok o)
    → x ≡ (db', ok o)
begun true db db' x o e = cc (ap (λ y. y.1) e)
begun false db db' x o e = e

-- An ingest adds a release when its outcome is new, a raw item when it is new or updated, and no row
-- otherwise.
pub ingest_n-Grown :
    (fails : Faults) (now : Time) (p : IngestParams) (db db' : Db) (o : IngestOutcome)
    → ingest_n fails now p db ≡ (db', ok o)
    → Grown (added_releases o) (added_items o) db db'
unfolding ingest_n
ingest_n-Grown fails now p db db' o e = elim (Bool-cases (is_canonical_infohash p.infohash)) [
  | inr c ↦
      let e0 : ◌≡◌ {A = Db × Result IngestOutcome} (db, ok duplicate) (db', ok o) = rw c at e in
      Grown-same duplicate o db db db' (ok-injective (ap (λ y. y.1) e0)) (ap (λ y. y.0) e0)
        (omega arith, omega arith)
  | inl c ↦
      let e0 : (if fails begin_tx
            then (db, err database_failure)
            else settle fails db (upsert_tx fails p now db))
          ≡ (db', ok o) =
        rw c at e in
      settle-Grown fails db db' (upsert_tx fails p now db) o
        (λ created inserted db1. upsert_tx-Grown fails p now created inserted db db1)
        (begun (fails begin_tx) db db' _ o e0)
]
