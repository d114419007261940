-- ===== src/Store/Ingest/Again.antt =====
-- Ingesting a post again.
use takuhai.Base.{
  Bool, Bool-cases, List, Option, Option-cases, Time, [], ap, arith, bytes_eq_refl, false, find_if,
  if◌then◌else◌, inl, inr, none, refl, some, subst, true, ◌++◌, ◌∙◌, ◌∷◌, ◌≡◌, ◌≢◌,
}
use takuhai.Errors.{Result, ok, err, >>=-eq-ok, ok-injective, guard-eq-ok, database_failure}
use takuhai.Store.{
  Db, Release, RawItem, Faults, healthy, find_release, is_canonical_infohash, items_for,
  upsert_release, insert_raw_item, recompute, begin_tx, has_infohash, commit_tx,
}
use takuhai.Store.Rows.{find-update_where}
use takuhai.Store.Ingest.Grows.{committed, begun}
use takuhai.Store.Ingest.{
  IngestParams, IngestOutcome, new, updated, duplicate, conflict, same_post, after_insert,
  new_release, new_item, upsert, insert_item, upsert_tx, settle, represent, recompute_with,
  recompute_representative, ingest_n,
}

-- The release and the post are both in the tables.
abbrev pub Present : IngestParams → Db → Type 0
Present p db =
    (r : Release) × (i : RawItem) × (find_release p.infohash db.releases ≡ some r)
    × (find_if (same_post p.source p.source_id) db.raw_items ≡ some i)

upsert-there :
    (now : Time) (p : IngestParams) (db : Db) (r : Release)
    → find_release p.infohash db.releases ≡ some r
    → upsert p now db ≡ (db, false)
unfolding upsert
upsert-there now p db r e = rw (e, upsert) refl

pub insert_item-there :
    (now : Time) (p : IngestParams) (db : Db) (i : RawItem)
    → find_if (same_post p.source p.source_id) db.raw_items ≡ some i
    → insert_item p now db ≡ (db, false)
unfolding insert_item
insert_item-there now p db i e = rw (e, insert_item) refl

pub Present-again :
    (now : Time) (p : IngestParams) (db : Db)
    → is_canonical_infohash p.infohash ≡ true
    → Present p db
    → ingest_n healthy now p db ≡ (db, ok duplicate)
unfolding ingest_n upsert_tx after_insert settle
Present-again now p db c (r, i, found, seen) =
    rw (c, upsert-there now p db r found, insert_item-there now p db i seen) refl

find_if-snoc {ℓ} :
    {A : Type ℓ} (t : A → Bool) (x : A) (xs : List A)
    → find_if t xs ≡ none
    → t x ≡ true
    → find_if t (xs ++ x ∷ []) ≡ some x
find_if-snoc t x [] e h = rw h refl
find_if-snoc t x (y ∷ xs) e h = elim (Bool-cases (t y)) [
  | inl hit ↦ let e' : ◌≡◌ {A = Option _} (some y) none = rw hit at e in cc e'
  | inr miss ↦ rw miss (find_if-snoc t x xs (rw miss at e) h)
]

upsert-found :
    (p : IngestParams) (now : Time) (db : Db)
    → (r : Release) × (find_release p.infohash (upsert p now db).0.releases ≡ some r)
unfolding upsert new_release
upsert-found p now db = elim (Option-cases (find_release p.infohash db.releases)) [
  | inl n ↦ (
    new_release p now,
    rw (n, upsert)
        (find_if-snoc (has_infohash p.infohash) (new_release p now) db.releases n
          (bytes_eq_refl p.infohash)),
  )
  | inr (r, e) ↦ (r, rw (e, upsert) e)
]

pub insert_item-found :
    (p : IngestParams) (now : Time) (db : Db)
    → (i : RawItem) × (find_if (same_post p.source p.source_id) (insert_item p now db).0.raw_items
        ≡ some i)
      × ((insert_item p now db).0.releases ≡ db.releases)
unfolding insert_item new_item
insert_item-found p now db =
    elim (Option-cases (find_if (same_post p.source p.source_id) db.raw_items)) [
      | inl n ↦ (
        new_item p db.next_item now,
        rw (n, insert_item)
            (find_if-snoc (same_post p.source p.source_id) (new_item p db.next_item now)
              db.raw_items n (rw (bytes_eq_refl p.source, bytes_eq_refl p.source_id) refl)),
        rw (n, insert_item) refl,
      )
      | inr (i, e) ↦ (i, rw (e, insert_item) e, rw (e, insert_item) refl)
    ]

recompute-Present :
    (p : IngestParams) (now : Time) (items : List RawItem) (db db' : Db)
    → recompute_with p now items db ≡ ok db'
    → Present p db
    → Present p db'
unfolding recompute_with represent
recompute-Present p now [] db db' e h = cc
recompute-Present p now (i ∷ items) db db' e (r, j, found, seen) =
    subst (Present p) (ok-injective e) (
      represent p now i items r,
      j,
      find-update_where p.infohash (represent p now i items) db.releases (λ r. refl) found,
      seen,
    )

after_insert-Present :
    (fails : Faults) (p : IngestParams) (now : Time) (created inserted c i : Bool) (db db' : Db)
    → after_insert fails p now created inserted db ≡ ok (c, i, db')
    → Present p db
    → Present p db'
unfolding after_insert recompute_representative
after_insert-Present fails p now false true c i db db' e h =
    let (db'', q, last) = >>=-eq-ok (recompute_representative fails p now db) _ e in
    let same : db'' ≡ db' = ground (arith, last) in
    subst (Present p) same (
      recompute-Present p now (items_for p.infohash db.raw_items) db db''
        (guard-eq-ok (fails recompute) database_failure _ q).1 h)
after_insert-Present fails p now true inserted c i db db' e h =
    let same : db ≡ db' = ground (arith, e) in subst (Present p) same h
after_insert-Present fails p now false false c i db db' e h =
    let same : db ≡ db' = ground (arith, e) in subst (Present p) same h

upsert_tx-Present :
    (fails : Faults) (p : IngestParams) (now : Time) (c i : Bool) (db db' : Db)
    → upsert_tx fails p now db ≡ ok (c, i, db')
    → Present p db'
unfolding upsert_tx
upsert_tx-Present fails p now c i db db' e =
    let e1 = guard-eq-ok (fails upsert_release) database_failure _ e in
    let e2 = guard-eq-ok (fails insert_raw_item) database_failure _ e1.1 in
    let db1 = (upsert p now db).0 in
    let (r, found) = upsert-found p now db in
    let (j, seen, same) = insert_item-found p now db1 in
    after_insert-Present fails p now (upsert p now db).1 (insert_item p now db1).1 c i
      (insert_item p now db1).0 db' e2.1 (r, j, ap (find_release p.infohash) same ∙ found, seen)

-- What an ingest that commits a canonical infohash has done.
settle-eq-ok :
    (fails : Faults) (db db' : Db) (r : Result (Bool × Bool × Db)) (o : IngestOutcome)
    → settle fails db r ≡ (db', ok o)
    → o ≢ conflict
    → (created : Bool) × (inserted : Bool) × (r ≡ ok (created, inserted, db'))
unfolding settle
settle-eq-ok fails db db' (err x) o e h = cc (ap (λ y. y.1) e)
settle-eq-ok fails db db' (ok (true, false, db1)) o e h = absurd (h (cc (ap (λ y. y.1) e)))
settle-eq-ok fails db db' (ok (true, true, db1)) o e h =
    (true, true, ap (λ d. ok (true, true, d)) (committed (fails commit_tx) db db1 db' new o e).0)
settle-eq-ok fails db db' (ok (false, inserted, db1)) o e h = (
  false,
  inserted,
  ap (λ d. ok (false, inserted, d))
      (committed (fails commit_tx) db db1 db' (if inserted then updated else duplicate) o e).0,
)

-- A post that was ingested, and did not conflict, is a duplicate from then on: ingesting it again
-- changes nothing.
ingest_twice :
    (fails : Faults) (now now' : Time) (p : IngestParams) (db db' : Db) (o : IngestOutcome)
    → ingest_n fails now p db ≡ (db', ok o)
    → o ≢ conflict
    → ingest_n healthy now' p db' ≡ (db', ok duplicate)
unfolding ingest_n
ingest_twice fails now now' p db db' o e h = elim (Bool-cases (is_canonical_infohash p.infohash)) [
  | inr c ↦ rw c refl
  | inl c ↦
      let e0 : (if fails begin_tx
            then (db, err database_failure)
            else settle fails db (upsert_tx fails p now db))
          ≡ (db', ok o) =
        rw c at e in
      let (created, inserted, tx) =
        settle-eq-ok fails db db' (upsert_tx fails p now db) o
          (begun (fails begin_tx) db db' _ o e0) h in
      Present-again now' p db' c (upsert_tx-Present fails p now created inserted db db' tx)
]
