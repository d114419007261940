-- ===== src/Store/Submit/Keeps.antt =====
-- A submission keeps the invariant, and what a submission that succeeds has checked.
use takuhai.Base.{
  Bool-cases, Option-cases, Time, ap, arith, false, if◌then◌else◌, inl, inr, leb, leb-false, leb→le,
  not, refl, some, some-injective, subst, sym, true, ℕ, ◌+◌, ◌||◌, ◌∙◌, ◌≡◌, ◌⊎◌,
}
use takuhai.Errors.{
  Error, no_such_release, invalid_status, Result, ok, err, >>=-eq-ok, guard-eq-ok, ok-injective,
  database_failure, stale_lease, no_active_lease, no_such_release, invalid_status,
}
use takuhai.Store.{
  has_infohash, is_canonical_infohash, Db, Release, MatchStatus, Faults, begin_tx, load_lease,
  update_release, append_event, commit_tx, is_unmatched, find_release,
}
use takuhai.Store.Rows.{UniqueKeys-map, All-update, All-find}
use takuhai.Store.Invariant.{RowValid, Shape, Inv}
use takuhai.Store.Claim.Keeps.{is_unmatched→≡}
use takuhai.Cursor.Ref.{validate_ref}
use takuhai.Store.Submit.{
  SubmitStatus, SubmitParams, validate_submit, is_stale, new_attempts, final_status, resolve,
  apply_submit, submit_row, settle, submit_tx, submit, first_match,
}

-- What a submission that succeeds did to the tables: it found the row, whose token and live lease
-- it holds and which is unmatched, and wrote the final status.
abbrev pub Accepted : ℕ → Time → SubmitParams → Db → Db → Release → MatchStatus → Type 0
Accepted m now p db db' r status =
    (find_release p.infohash db.releases ≡ some r)
    × (is_stale p now r ≡ false)
    × (is_unmatched r.match_status ≡ true)
    × (final_status m p.status (new_attempts p.status r.attempt_count) ≡ some status)
    × (apply_submit p now (new_attempts p.status r.attempt_count) status db ≡ db')

submit_row-eq-ok :
    (fails : Faults) (m : ℕ) (now : Time) (p : SubmitParams) (db db' : Db)
    → submit_row fails m now p db (find_release p.infohash db.releases) ≡ ok db'
    → (r : Release) × (status : MatchStatus) × Accepted m now p db db' r status
unfolding submit_row
submit_row-eq-ok fails m now p db db' e =
    elim (Option-cases (find_release p.infohash db.releases)) [
      | inl n ↦ let e' : ◌≡◌ {A = Result Db} (err no_such_release) (ok db') = rw n at e in cc e'
      | inr (r, q) ↦
          let e0 : submit_row fails m now p db (some r) ≡ ok db' =
            subst (λ o. submit_row fails m now p db o ≡ ok db') q e in
          let (fresh, e1) = guard-eq-ok (is_stale p now r) stale_lease _ e0 in
          let (open_row, e2) =
            guard-eq-ok (not (is_unmatched r.match_status)) no_active_lease _ e1 in
          elim (Option-cases (final_status m p.status (new_attempts p.status r.attempt_count))) [
            | inl n ↦
                let e' : ◌≡◌ {A = Result Db} (err invalid_status) (ok db') = rw n at e2 in cc e'
            | inr (status, s) ↦
                let e3 : (if fails update_release || fails append_event || fails commit_tx
                      then err database_failure
                      else ok
                          (apply_submit p now (new_attempts p.status r.attempt_count) status db))
                    ≡ ok db' =
                  rw s at e2 in
                (
                  r,
                  status,
                  (
                    q,
                    fresh,
                    ground (arith, open_row),
                    s,
                    ok-injective
                        (guard-eq-ok (fails update_release || fails append_event || fails commit_tx)
                          database_failure _ e3).1,
                  ),
                )
          ]
    ]

pub checked-ref :
    (p : SubmitParams)
    → p.status ≡ SubmitStatus.matched
    → validate_submit p ≡ ok tt
    → validate_ref p.ref ≡ ok tt
unfolding validate_submit
checked-ref p same checked = rw same at checked

-- The shape of the row that a submission writes.
abbrev Resolved : ℕ → SubmitParams → Time → ℕ → Release → MatchStatus → Type 0
Resolved m p now n r status =
    Shape m (resolve p now n status r).match_status (resolve p now n status r)

resolve-Shape :
    (m : ℕ) (p : SubmitParams) (now : Time) (s : SubmitStatus) (status : MatchStatus) (r : Release)
    → p.status ≡ s
    → validate_submit p ≡ ok tt
    → final_status m s (new_attempts s r.attempt_count) ≡ some status
    → r.match_status ≡ MatchStatus.unmatched
    → Shape m MatchStatus.unmatched r
    → Resolved m p now (new_attempts s r.attempt_count) r status
unfolding new_attempts final_status resolve first_match
resolve-Shape m p now SubmitStatus.matched status r same checked e u (a, b, f, g) =
    let P : MatchStatus → Type 0 = λ t. Resolved m p now r.attempt_count r t in
    subst P (some-injective e)
      (p.ref, now, refl, checked-ref p same checked, ap (λ x. first_match x now) f, refl, refl, g)
resolve-Shape m p now SubmitStatus.suppressed status r same checked e u (a, b, f, g) =
    let P : MatchStatus → Type 0 = λ t. Resolved m p now r.attempt_count r t in
    subst P (some-injective e) (refl, refl, f, refl, refl, g)
resolve-Shape m p now SubmitStatus.unmatched status r same checked e u (a, b, f, g) =
    let P : MatchStatus → Type 0 = λ t. Resolved m p now (r.attempt_count + 1) r t in
    elim (Bool-cases (leb m (r.attempt_count + 1))) [
      | inl spent ↦
          let e' : some MatchStatus.exhausted ≡ some status = rw spent at e in
          subst P (some-injective e')
            (refl, refl, f, refl, refl, leb→le m (r.attempt_count + 1) spent)
      | inr more ↦
          let e' : some MatchStatus.unmatched ≡ some status = rw more at e in
          subst P (some-injective e') (
            subst
              (λ t. Shape m t (record r { attempt_count = r.attempt_count + 1; updated_at = now }))
              (sym u) (a, b, f, leb-false m (r.attempt_count + 1) more))
    ]
resolve-Shape m p now SubmitStatus.unknown status r same checked e u h = cc

pub resolve-infohash :
    (p : SubmitParams) (now : Time) (n : ℕ) (status : MatchStatus) (r : Release)
    → (resolve p now n status r).infohash ≡ r.infohash
unfolding resolve
resolve-infohash p now n MatchStatus.unmatched r = refl
resolve-infohash p now n MatchStatus.matched r = refl
resolve-infohash p now n MatchStatus.suppressed r = refl
resolve-infohash p now n MatchStatus.exhausted r = refl

apply_submit-Inv :
    (m : ℕ) (now : Time) (p : SubmitParams) (db db' : Db) (r : Release) (status : MatchStatus)
    → Inv m db
    → validate_submit p ≡ ok tt
    → Accepted m now p db db' r status
    → Inv m db'
unfolding apply_submit
apply_submit-Inv m now p db db' r status v checked (found, _, open_row, final, same) =
    let n = new_attempts p.status r.attempt_count in
    let (shape, c) = All-find (RowValid m) p.infohash db.releases r v.rows found in
    let u = is_unmatched→≡ r.match_status open_row in
    subst (Inv m) same (record {
      keys =
          UniqueKeys-map (λ q. if has_infohash p.infohash q then resolve p now n status q else q)
            (λ q. ground (arith, resolve-infohash p now n status q)) db.releases v.keys;
      rows =
          All-update (RowValid m) p.infohash (resolve p now n status) db.releases r v.keys found
            (
              resolve-Shape m p now p.status status r refl checked final u
                  (subst (λ t. Shape m t r) u shape),
              ap is_canonical_infohash (resolve-infohash p now n status r) ∙ c,
            )
            v.rows;
    })

settle-eq-ok : (db db' : Db) (r : Result Db) → settle db r ≡ (db', ok tt) → r ≡ ok db'
unfolding settle
settle-eq-ok db db' (ok x) e = ap (λ y. ok y.0) e
settle-eq-ok db db' (err x) e = cc (ap (λ y. y.1) e)

settle-cases :
    (db : Db) (r : Result Db)
    → ((db' : Db) × (settle db r ≡ (db', ok tt))) ⊎ ((x : Error) × (settle db r ≡ (db, err x)))
unfolding settle
settle-cases db (ok db') = inl (db', refl)
settle-cases db (err x) = inr (x, refl)

-- A submission succeeds, or fails and leaves every table as it was.
pub submit-cases :
    (fails : Faults) (m : ℕ) (now : Time) (p : SubmitParams) (db : Db)
    → ((db' : Db) × (submit fails m now p db ≡ (db', ok tt)))
      ⊎ ((x : Error) × (submit fails m now p db ≡ (db, err x)))
unfolding submit
submit-cases fails m now p db = settle-cases db (submit_tx fails m now p db)

-- A submission that succeeds had a valid status and ref, and was accepted.
pub submit-eq-ok :
    (fails : Faults) (m : ℕ) (now : Time) (p : SubmitParams) (db db' : Db)
    → submit fails m now p db ≡ (db', ok tt)
    → (r : Release) × (status : MatchStatus) × (validate_submit p ≡ ok tt)
      × Accepted m now p db db' r status
unfolding submit submit_tx
submit-eq-ok fails m now p db db' e =
    let (u, checked, e1) =
      >>=-eq-ok (validate_submit p) _ (settle-eq-ok db db' (submit_tx fails m now p db) e) in
    let e2 = guard-eq-ok (fails begin_tx || fails load_lease) database_failure _ e1 in
    let (r, status, accepted) = submit_row-eq-ok fails m now p db db' e2.1 in
    (r, status, checked, accepted)

-- Every submission keeps the invariant, whichever database calls fail.
pub submit-Inv :
    (fails : Faults) (m : ℕ) (now : Time) (p : SubmitParams) (db : Db)
    → Inv m db
    → Inv m (submit fails m now p db).0
submit-Inv fails m now p db v = elim (submit-cases fails m now p db) [
  | inl (db', e) ↦
      let (r, status, checked, accepted) = submit-eq-ok fails m now p db db' e in
      subst (Inv m) (ap (λ x. x.0) (sym e))
        (apply_submit-Inv m now p db db' r status v checked accepted)
  | inr (x, e) ↦ subst (Inv m) (ap (λ x. x.0) (sym e)) v
]
