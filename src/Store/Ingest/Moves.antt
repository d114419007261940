-- ===== src/Store/Ingest/Moves.antt =====
-- What an ingest does to the queue: at most its own release appears.
use takuhai.Base.{
  Bool, Bool-cases, Bytes, List, Option, Option-cases, Time, [], arith, bytes_eq, false,
  if◌then◌else◌, inl, inr, none, refl, some, subst, sym, true, ℕ, ◌++◌, ◌∙◌, ◌∷◌, ◌≡◌,
}
use takuhai.Errors.{ok, ok-injective, guard-eq-ok, >>=-eq-ok, database_failure}
use takuhai.Store.{
  Db, Release, RawItem, has_infohash, find_release, Faults, upsert_release, items_for, recompute,
  insert_raw_item,
}
use takuhai.Store.Lifecycle.{Moves, stays, appears, entry, view-kept}
use takuhai.Store.Ingest.Keeps.{ingest_n-rule}
use takuhai.Store.Ingest.{
  IngestParams, new_release, upsert, insert_item, represent, recompute_with, after_insert,
  upsert_tx, recompute_representative, ingest_n,
}

find-snoc :
    (h : Bytes) (r : Release) (rs : List Release)
    → find_release h rs ≡ none
    → find_release h (rs ++ r ∷ []) ≡ (if has_infohash h r then some r else none)
find-snoc h r [] e = refl
find-snoc h r (q ∷ rs) e = elim (Bool-cases (has_infohash h q)) [
  | inl hit ↦ let e' : ◌≡◌ {A = Option Release} (some q) none = rw hit at e in cc e'
  | inr miss ↦ rw miss (find-snoc h r rs (rw miss at e))
]

find-snoc-kept :
    (h : Bytes) (r q : Release) (rs : List Release)
    → find_release h rs ≡ some q
    → find_release h (rs ++ r ∷ []) ≡ some q
find-snoc-kept h r q [] e = cc
find-snoc-kept h r q (x ∷ rs) e = elim (Bool-cases (has_infohash h x)) [
  | inl hit ↦ rw hit (rw hit at e)
  | inr miss ↦ rw miss (find-snoc-kept h r q rs (rw miss at e))
]

-- The view after an operation of which only the evidence counts.
abbrev Shown : Bytes → Db → Db → Type 0
Shown h db db' = entry h db' ≡ entry h db

upsert-Moves :
    (m : ℕ) (now : Time) (h : Bytes) (p : IngestParams) (db : Db)
    → Moves m now (entry h db) (entry h (upsert p now db).0)
unfolding upsert new_release
upsert-Moves m now h p db = elim (Option-cases (find_release p.infohash db.releases)) [
  | inr (r, e) ↦ rw (e, upsert) (stays refl)
  | inl n ↦ elim (Option-cases (find_release h db.releases)) [
    | inr (q, e) ↦
        rw (n, upsert) (stays (rw (find-snoc-kept h (new_release p now) q db.releases e, e) refl))
    | inl gone ↦ elim (Bool-cases (bytes_eq p.infohash h)) [
      | inl same ↦
          rw (n, upsert)
            (appears (rw gone refl)
              (rw (find-snoc h (new_release p now) db.releases gone, same) refl))
      | inr other ↦
          rw (n, upsert)
            (stays (rw (find-snoc h (new_release p now) db.releases gone, other, gone) refl))
    ]
  ]
]

insert_item-Shown :
    (h : Bytes) (now : Time) (p : IngestParams) (db : Db) → Shown h db (insert_item p now db).0
unfolding insert_item
insert_item-Shown h now p db = ground arith

recompute-Shown :
    (h : Bytes) (p : IngestParams) (now : Time) (items : List RawItem) (db db' : Db)
    → recompute_with p now items db ≡ ok db'
    → Shown h db db'
unfolding recompute_with represent
recompute-Shown h p now [] db db' e = cc
recompute-Shown h p now (i ∷ items) db db' e =
    let f : Release → Release =
      λ r. if bytes_eq r.infohash p.infohash then represent p now i items r else r in
    subst (Shown h db) (ok-injective e)
      (view-kept h f db.releases (λ r. ground arith) (λ r. ground arith))

after_insert-Shown :
    (h : Bytes) (fails : Faults) (p : IngestParams) (now : Time) (created inserted c i : Bool)
    (db db' : Db)
    → after_insert fails p now created inserted db ≡ ok (c, i, db')
    → Shown h db db'
unfolding after_insert recompute_representative
after_insert-Shown h fails p now false true c i db db' e =
    let (db'', q, last) = >>=-eq-ok (recompute_representative fails p now db) _ e in
    let same : db'' ≡ db' = ground (arith, last) in
    subst (Shown h db) same (
      recompute-Shown h p now (items_for p.infohash db.raw_items) db db''
        (guard-eq-ok (fails recompute) database_failure _ q).1)
after_insert-Shown h fails p now true inserted c i db db' e =
    let same : db ≡ db' = ground (arith, e) in subst (Shown h db) same refl
after_insert-Shown h fails p now false false c i db db' e =
    let same : db ≡ db' = ground (arith, e) in subst (Shown h db) same refl

upsert_tx-Moves :
    (m : ℕ) (h : Bytes) (fails : Faults) (p : IngestParams) (now : Time) (c i : Bool) (db db' : Db)
    → upsert_tx fails p now db ≡ ok (c, i, db')
    → Moves m now (entry h db) (entry h db')
unfolding upsert_tx
upsert_tx-Moves m h fails p now c i db db' e =
    let e1 = guard-eq-ok (fails upsert_release) database_failure _ e in
    let e2 = guard-eq-ok (fails insert_raw_item) database_failure _ e1.1 in
    let (db1, created) = upsert p now db in
    let (db2, inserted) = insert_item p now db1 in
    let shown = after_insert-Shown h fails p now created inserted c i db2 db' e2.1 in
    subst (λ o. Moves m now (entry h db) o) (sym (shown ∙ insert_item-Shown h now p db1))
      (upsert-Moves m now h p db)

-- An ingest leaves every entry alone, but for its own, which it may bring in.
pub ingest_n-Moves :
    (m : ℕ) (h : Bytes) (fails : Faults) (now : Time) (p : IngestParams) (db : Db)
    → Moves m now (entry h db) (entry h (ingest_n fails now p db).0)
ingest_n-Moves m h fails now p db =
    ingest_n-rule (λ db'. Moves m now (entry h db) (entry h db')) fails now p db (stays refl)
      λ canonical c i db' e. upsert_tx-Moves m h fails p now c i db db' e
