-- ===== src/Store/Ingest/Seen.antt =====
-- What an ingest that succeeds leaves of its post: a raw item with its source and id, whether the
-- post was new or in conflict with the item of another release.
use takuhai.Base.{
  Bool, Bool-cases, Bytes, List, Option-cases, Time, [], ap, arith, false, find_if, if◌then◌else◌,
  inl, inr, none, refl, some, subst, sym, true, ◌++◌, ◌∙◌, ◌∷◌, ◌≡◌, ◌⊎◌,
}
use takuhai.Errors.{Result, ok, err, >>=-eq-ok, ok-injective, guard-eq-ok, database_failure}
use takuhai.Store.{
  Db, RawItem, Faults, healthy, find_release, is_canonical_infohash, items_for, upsert_release,
  insert_raw_item, recompute, begin_tx, commit_tx,
}
use takuhai.Store.Ingest.Grows.{committed, begun}
use takuhai.Store.Ingest.Keeps.{ingest_n-rule}
use takuhai.Store.Ingest.Again.{Present-again, insert_item-found, insert_item-there}
use takuhai.Store.Ingest.{
  IngestParams, IngestOutcome, new, updated, duplicate, conflict, same_post, after_insert,
  new_release, new_item, upsert, insert_item, upsert_tx, settle, recompute_with,
  recompute_representative, ingest_n,
}

-- There is a raw item with the source and the id.
abbrev pub Seen : Bytes → Bytes → Db → Type 0
Seen source source_id db =
    (i : RawItem) × (find_if (same_post source source_id) db.raw_items ≡ some i)

find_if-append {ℓ} :
    {A : Type ℓ} (t : A → Bool) (xs ys : List A) (x : A)
    → find_if t xs ≡ some x
    → find_if t (xs ++ ys) ≡ some x
find_if-append t [] ys x e = cc
find_if-append t (y ∷ xs) ys x e = elim (Bool-cases (t y)) [
  | inl hit ↦ rw hit (rw hit at e)
  | inr miss ↦ rw miss (find_if-append t xs ys x (rw miss at e))
]

upsert-raw_items :
    (p : IngestParams) (now : Time) (db : Db) → (upsert p now db).0.raw_items ≡ db.raw_items
unfolding upsert
upsert-raw_items p now db = elim (Option-cases (find_release p.infohash db.releases)) [
  | inl n ↦ rw (n, upsert) refl
  | inr (r, e) ↦ rw (e, upsert) refl
]

module _ (source source_id : Bytes) where
  Seen-same :
      (db db' : Db)
      → db'.raw_items ≡ db.raw_items
      → Seen source source_id db
      → Seen source source_id db'
  Seen-same db db' e (i, h) = (i, ap (find_if (same_post source source_id)) e ∙ h)

  insert_item-Seen :
      (p : IngestParams) (now : Time) (db : Db)
      → Seen source source_id db
      → Seen source source_id (insert_item p now db).0
  unfolding insert_item
  insert_item-Seen p now db (i, h) =
      elim (Option-cases (find_if (same_post p.source p.source_id) db.raw_items)) [
        | inl n ↦ (
          i,
          rw (n, insert_item)
              (find_if-append (same_post source source_id) db.raw_items
                (new_item p db.next_item now ∷ []) i h),
        )
        | inr (j, e) ↦ (i, rw (e, insert_item) h)
      ]

insert_item-old :
    (p : IngestParams) (now : Time) (db : Db)
    → (insert_item p now db).1 ≡ false
    → Seen p.source p.source_id db
unfolding insert_item
insert_item-old p now db h =
    elim (Option-cases (find_if (same_post p.source p.source_id) db.raw_items)) [
      | inl n ↦ absurd (ground (arith, rw (n, insert_item) at h))
      | inr there ↦ there
    ]

recompute-raw_items :
    (p : IngestParams) (now : Time) (items : List RawItem) (db db' : Db)
    → recompute_with p now items db ≡ ok db'
    → db'.raw_items ≡ db.raw_items
unfolding recompute_with
recompute-raw_items p now [] db db' e = cc
recompute-raw_items p now (i ∷ items) db db' e = sym (ap (λ d. d.raw_items) (ok-injective e))

after_insert-raw_items :
    (fails : Faults) (p : IngestParams) (now : Time) (created inserted c i : Bool) (db db' : Db)
    → after_insert fails p now created inserted db ≡ ok (c, i, db')
    → (inserted ≡ i) × (db'.raw_items ≡ db.raw_items)
unfolding after_insert recompute_representative
after_insert-raw_items fails p now false true c i db db' e =
    let (db'', q, last) = >>=-eq-ok (recompute_representative fails p now db) _ e in
    let same = ok-injective last in
    (
      ap (λ x. x.1) same,
      sym (ap (λ x. x.2.raw_items) same)
          ∙ recompute-raw_items p now (items_for p.infohash db.raw_items) db db''
              (guard-eq-ok (fails recompute) database_failure _ q).1,
    )
after_insert-raw_items fails p now true inserted c i db db' e =
    let same = ok-injective e in (ap (λ x. x.1) same, sym (ap (λ x. x.2.raw_items) same))
after_insert-raw_items fails p now false false c i db db' e =
    let same = ok-injective e in (ap (λ x. x.1) same, sym (ap (λ x. x.2.raw_items) same))

-- What a transaction makes of the items: the old ones stay, the post's own is among them, and was
-- before if none was inserted.
upsert_tx-Seen :
    (fails : Faults) (p : IngestParams) (now : Time) (c i : Bool) (db db' : Db)
    → upsert_tx fails p now db ≡ ok (c, i, db')
    → ((source source_id : Bytes) → Seen source source_id db → Seen source source_id db')
      × Seen p.source p.source_id db'
      × (i ≡ false → Seen p.source p.source_id db)
unfolding upsert_tx
upsert_tx-Seen fails p now c i db db' e =
    let e1 = guard-eq-ok (fails upsert_release) database_failure _ e in
    let e2 = guard-eq-ok (fails insert_raw_item) database_failure _ e1.1 in
    let db1 = (upsert p now db).0 in
    let db2 = (insert_item p now db1).0 in
    let (done, kept) =
      after_insert-raw_items fails p now (upsert p now db).1 (insert_item p now db1).1 c i db2 db'
        e2.1 in
    let (j, seen, same) = insert_item-found p now db1 in
    (
      λ source source_id h. Seen-same source source_id db2 db' kept (
          insert_item-Seen source source_id p now db1
            (Seen-same source source_id db db1 (upsert-raw_items p now db) h)),
      Seen-same p.source p.source_id db2 db' kept (j, seen),
      λ none_new.
          Seen-same p.source p.source_id db1 db (sym (upsert-raw_items p now db))
            (insert_item-old p now db1 (done ∙ none_new)),
    )

-- No ingest takes an item away.
pub ingest_n-Seen :
    (fails : Faults) (now : Time) (p : IngestParams) (db : Db) (source source_id : Bytes)
    → Seen source source_id db
    → Seen source source_id (ingest_n fails now p db).0
ingest_n-Seen fails now p db source source_id h =
    ingest_n-rule (Seen source source_id) fails now p db h
      λ canonical c i db' e. (upsert_tx-Seen fails p now c i db db' e).0 source source_id h

settle-Seen :
    (fails : Faults) (p : IngestParams) (db db' : Db) (r : Result (Bool × Bool × Db))
    (o : IngestOutcome)
    → settle fails db r ≡ (db', ok o)
    → ((c i : Bool) (db1 : Db)
        → r ≡ ok (c, i, db1)
        → Seen p.source p.source_id db1 × (i ≡ false → Seen p.source p.source_id db))
    → Seen p.source p.source_id db'
unfolding settle
settle-Seen fails p db db' (err x) o e h = cc (ap (λ y. y.1) e)
settle-Seen fails p db db' (ok (true, false, db1)) o e h =
    subst (Seen p.source p.source_id) (ap (λ y. y.0) e) ((h true false db1 refl).1 refl)
settle-Seen fails p db db' (ok (true, true, db1)) o e h =
    subst (Seen p.source p.source_id) (committed (fails commit_tx) db db1 db' new o e).0
      (h true true db1 refl).0
settle-Seen fails p db db' (ok (false, inserted, db1)) o e h =
    subst (Seen p.source p.source_id)
      (committed (fails commit_tx) db db1 db' (if inserted then updated else duplicate) o e).0
      (h false inserted db1 refl).0

-- The post of an ingest that succeeds has an item from then on.
pub ingested-Seen :
    (fails : Faults) (now : Time) (p : IngestParams) (db db' : Db) (o : IngestOutcome)
    → is_canonical_infohash p.infohash ≡ true
    → ingest_n fails now p db ≡ (db', ok o)
    → Seen p.source p.source_id db'
unfolding ingest_n
ingested-Seen fails now p db db' o c e =
    let e0 : (if fails begin_tx
          then (db, err database_failure)
          else settle fails db (upsert_tx fails p now db))
        ≡ (db', ok o) =
      rw c at e in
    settle-Seen fails p db db' (upsert_tx fails p now db) o (begun (fails begin_tx) db db' _ o e0)
      λ created inserted db1 q.
        let (kept, own, before) = upsert_tx-Seen fails p now created inserted db db1 q in
        (own, before)

upsert-absent :
    (now : Time) (p : IngestParams) (db : Db)
    → find_release p.infohash db.releases ≡ none
    → upsert p now db ≡ (record db { releases = db.releases ++ new_release p now ∷ [] }, true)
unfolding upsert
upsert-absent now p db n = rw (n, upsert) refl

-- A post with an item changes nothing.
pub ingest_n-again :
    (now : Time) (p : IngestParams) (db : Db)
    → is_canonical_infohash p.infohash ≡ true
    → Seen p.source p.source_id db
    → (ingest_n healthy now p db ≡ (db, ok duplicate))
      ⊎ (ingest_n healthy now p db ≡ (db, ok conflict))
unfolding ingest_n upsert_tx after_insert settle
ingest_n-again now p db c (i, seen) = elim (Option-cases (find_release p.infohash db.releases)) [
  | inl n ↦
      let grown = record db { releases = db.releases ++ new_release p now ∷ [] } in
      inr (rw (c, upsert-absent now p db n, insert_item-there now p grown i seen) refl)
  | inr (r, found) ↦ inl (Present-again now p db c (r, i, found, seen))
]
