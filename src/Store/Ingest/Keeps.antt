-- ===== src/Store/Ingest/Keeps.antt =====
-- An ingest keeps the invariant.
use takuhai.Base.{
  All-append, Bool, Bool-cases, List, Option-cases, Time, [], arith, bytes_eq, false, if_both,
  if◌then◌else◌, inl, inr, not, refl, subst, true, ℕ, ◌&&◌, ◌<◌, ◌∷◌, ◌≡◌,
}
use takuhai.Errors.{
  Result, ok, err, >>=-eq-ok, ok-injective, guard-eq-ok, guard-eq-ok, database_failure,
  database_failure,
}
use takuhai.Store.{
  Db, Release, RawItem, Faults, find_release, is_canonical_infohash, items_for, upsert_release,
  insert_raw_item, recompute, begin_tx, commit_tx,
}
use takuhai.Store.Rows.{NoRow-find, UniqueKeys-map, UniqueKeys-snoc, All-map}
use takuhai.Store.Invariant.{RowValid, Inv, Shape-same}
use takuhai.Store.Ingest.{
  IngestParams, IngestOutcome, after_insert, new_release, upsert, insert_item, upsert_tx, settle,
  represent, recompute_with, recompute_representative, ingest_n,
}

settle-rule :
    (P : Db → Type 0) (fails : Faults) (db : Db) (r : Result (Bool × Bool × Db))
    → P db
    → ((c i : Bool) (db' : Db) → r ≡ ok (c, i, db') → P db')
    → P (settle fails db r).0
unfolding settle
settle-rule P fails db (err e) v h = v
settle-rule P fails db (ok (c, i, db')) v h =
    if_both (λ (x : Db × Result IngestOutcome). P x.0) (c && not i) _ _ v
      (if_both (λ (x : Db × Result IngestOutcome). P x.0) (fails commit_tx) _ _ v (h c i db' refl))

-- What holds before an ingest holds after it, if it holds of what the transaction would commit.
pub ingest_n-rule :
    (P : Db → Type 0) (fails : Faults) (now : Time) (p : IngestParams) (db : Db)
    → P db
    → ((canonical : is_canonical_infohash p.infohash ≡ true) (c i : Bool) (db' : Db)
        → upsert_tx fails p now db ≡ ok (c, i, db')
        → P db')
    → P (ingest_n fails now p db).0
unfolding ingest_n
ingest_n-rule P fails now p db v h = elim (Bool-cases (is_canonical_infohash p.infohash)) [
  | inr c ↦ rw c v
  | inl c ↦ rw c (
      if_both (λ (x : Db × Result IngestOutcome). P x.0) (fails begin_tx) _ _ v
        (settle-rule P fails db (upsert_tx fails p now db) v (h c)))
]

module _ (m : ℕ) (pos : 0 < m) where
  represent-RowValid :
      (p : IngestParams) (now : Time) (first : RawItem) (rest : List RawItem) (r : Release)
      → RowValid m r
      → RowValid m (represent p now first rest r)
  unfolding represent
  represent-RowValid p now first rest r (s, c) =
      (Shape-same m r.match_status r _ refl refl refl refl refl refl s, c)

  new-RowValid :
      (p : IngestParams) (now : Time)
      → is_canonical_infohash p.infohash ≡ true
      → RowValid m (new_release p now)
  unfolding new_release
  new-RowValid p now c = ((refl, refl, refl, pos), c)

  upsert-Inv :
      (p : IngestParams) (now : Time) (db : Db)
      → is_canonical_infohash p.infohash ≡ true
      → Inv m db
      → Inv m (upsert p now db).0
  unfolding upsert
  upsert-Inv p now db c v = elim (Option-cases (find_release p.infohash db.releases)) [
    | inl e ↦
        rw (e, upsert)
          (record {
            keys =
                UniqueKeys-snoc db.releases (new_release p now) v.keys
                  (unfold new_release in NoRow-find p.infohash db.releases e);
            rows =
                All-append (RowValid m) db.releases (new_release p now ∷ []) v.rows
                  (new-RowValid p now c, tt);
          })
    | inr (r, e) ↦ rw (e, upsert) v
  ]

  insert_item-Inv :
      (p : IngestParams) (now : Time) (db : Db) → Inv m db → Inv m (insert_item p now db).0
  unfolding insert_item
  insert_item-Inv p now db v = ground (arith, v.keys, v.rows)

  recompute-Inv :
      (p : IngestParams) (now : Time) (items : List RawItem) (db db' : Db)
      → Inv m db
      → recompute_with p now items db ≡ ok db'
      → Inv m db'
  unfolding recompute_with
  recompute-Inv p now [] db db' v e = cc
  recompute-Inv p now (i ∷ items) db db' v e = subst (Inv m) (ok-injective e) (record {
    keys =
        UniqueKeys-map
          (λ r. if bytes_eq r.infohash p.infohash then represent p now i items r else r)
          (λ r. unfold represent in ground arith) db.releases v.keys;
    rows =
        All-map (RowValid m) (RowValid m)
          (λ r. if bytes_eq r.infohash p.infohash then represent p now i items r else r)
          (λ r h.
            if_both (RowValid m) (bytes_eq r.infohash p.infohash) (represent p now i items r) r
              (represent-RowValid p now i items r h) h)
          db.releases v.rows;
  })

  after_insert-Inv :
      (fails : Faults) (p : IngestParams) (now : Time) (created inserted c i : Bool) (db db' : Db)
      → Inv m db
      → after_insert fails p now created inserted db ≡ ok (c, i, db')
      → Inv m db'
  unfolding after_insert recompute_representative
  after_insert-Inv fails p now false true c i db db' v e =
      let (db'', q, last) = >>=-eq-ok (recompute_representative fails p now db) _ e in
      subst (Inv m) (ground (arith, last)) (
        recompute-Inv p now (items_for p.infohash db.raw_items) db db'' v
          (guard-eq-ok (fails recompute) database_failure _ q).1)
  after_insert-Inv fails p now true inserted c i db db' v e = subst (Inv m) (ground (arith, e)) v
  after_insert-Inv fails p now false false c i db db' v e = subst (Inv m) (ground (arith, e)) v

  upsert_tx-Inv :
      (fails : Faults) (p : IngestParams) (now : Time) (c i : Bool) (db db' : Db)
      → is_canonical_infohash p.infohash ≡ true
      → Inv m db
      → upsert_tx fails p now db ≡ ok (c, i, db')
      → Inv m db'
  unfolding upsert_tx
  upsert_tx-Inv fails p now c i db db' canonical v e =
      let e1 = guard-eq-ok (fails upsert_release) database_failure _ e in
      let e2 = guard-eq-ok (fails insert_raw_item) database_failure _ e1.1 in
      let db1 = (upsert p now db).0 in
      after_insert-Inv fails p now (upsert p now db).1 (insert_item p now db1).1 c i
        (insert_item p now db1).0 db' (insert_item-Inv p now db1 (upsert-Inv p now db canonical v))
        e2.1

  -- Every ingest keeps the invariant, whichever database calls fail.
  pub ingest_n-Inv :
      (fails : Faults) (now : Time) (p : IngestParams) (db : Db)
      → Inv m db
      → Inv m (ingest_n fails now p db).0
  ingest_n-Inv fails now p db v =
      ingest_n-rule (Inv m) fails now p db v λ canonical created inserted db' e.
        upsert_tx-Inv fails p now created inserted db db' canonical v e
