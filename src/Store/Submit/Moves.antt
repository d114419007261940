-- ===== src/Store/Submit/Moves.antt =====
-- What a submission does to the queue: the entry in hand is settled or fails, all else stays.
use takuhai.Base.{
  Bool-cases, Bytes, Time, ap, arith, bytes_eq, bytes_eq_refl, bytes_eq→≡, false, inl, inr, leb,
  leb-false, leb→le, map_option, refl, some, some-injective, subst, sym, true, ℕ, ◌+◌, ◌∙◌, ◌≡◌,
  ◌≢◌,
}
use takuhai.Errors.{ok}
use takuhai.Store.{Db, Release, Faults, is_unmatched, MatchStatus}
use takuhai.Store.Rows.{find-update_other}
use takuhai.Store.Lifecycle.{
  Moves, stays, matches, suppresses, misses, gives_up, entry, entry_of, InHand,
}
use takuhai.Store.Claim.Keeps.{is_unmatched→≡}
use takuhai.Store.Submit.{
  SubmitParams, SubmitStatus, submit, apply_submit, resolve, new_attempts, final_status,
  validate_submit, is_stale,
}
use takuhai.Store.Submit.Keeps.{Accepted, submit-eq-ok, submit-cases, resolve-infohash, checked-ref}
use takuhai.Store.Submit.Once.{find-Accepted}
use takuhai.Store.Submit.Fence.{fresh-lem, live-lem}

Accepted-InHand :
    (now : Time) (p : SubmitParams) (r : Release)
    → is_stale p now r ≡ false
    → is_unmatched r.match_status ≡ true
    → InHand now (entry_of r)
Accepted-InHand now p r fresh u =
    let (t, until, before) = live-lem r.lease_expires_at now (fresh-lem p now r fresh).1 in
    record {
      unmatched = is_unmatched→≡ r.match_status u;
      expires = t;
      leased = until;
      alive = before;
    }

-- The row that a submission writes, as an entry.
resolve-Moves :
    (m : ℕ) (p : SubmitParams) (now : Time) (s : SubmitStatus) (status : MatchStatus) (r : Release)
    → p.status ≡ s
    → validate_submit p ≡ ok tt
    → final_status m s (new_attempts s r.attempt_count) ≡ some status
    → InHand now (entry_of r)
    → Moves m now
        (some (entry_of r))
        (some (entry_of (resolve p now (new_attempts s r.attempt_count) status r)))
unfolding new_attempts final_status resolve
resolve-Moves m p now SubmitStatus.matched status r same checked e held =
    subst
      (λ t. Moves m now (some (entry_of r)) (some (entry_of (resolve p now r.attempt_count t r))))
      (some-injective e) (matches (entry_of r) p.ref refl held (checked-ref p same checked) refl)
resolve-Moves m p now SubmitStatus.suppressed status r same checked e held =
    subst
      (λ t. Moves m now (some (entry_of r)) (some (entry_of (resolve p now r.attempt_count t r))))
      (some-injective e) (suppresses (entry_of r) refl held refl)
resolve-Moves m p now SubmitStatus.unmatched status r same checked e held =
    let P : MatchStatus → Type 0 = λ t.
      Moves m now (some (entry_of r)) (some (entry_of (resolve p now (r.attempt_count + 1) t r))) in
    elim (Bool-cases (leb m (r.attempt_count + 1))) [
      | inl spent ↦
          let e' : some MatchStatus.exhausted ≡ some status = rw spent at e in
          subst P (some-injective e')
            (gives_up (entry_of r) refl held (leb→le m (r.attempt_count + 1) spent) refl)
      | inr more ↦
          let e' : some MatchStatus.unmatched ≡ some status = rw more at e in
          subst P (some-injective e')
            (misses (entry_of r) refl held (leb-false m (r.attempt_count + 1) more) refl)
    ]
resolve-Moves m p now SubmitStatus.unknown status r same checked e held = cc e

apply_submit-other :
    (now : Time) (p : SubmitParams) (n : ℕ) (status : MatchStatus) (h : Bytes) (db : Db)
    → p.infohash ≢ h
    → entry h (apply_submit p now n status db) ≡ entry h db
unfolding apply_submit
apply_submit-other now p n status h db other = ap (map_option entry_of) (
    find-update_other p.infohash h (resolve p now n status) db.releases
      (resolve-infohash p now n status) other)

Accepted-Moves :
    (m : ℕ) (now : Time) (p : SubmitParams) (h : Bytes) (db db' : Db) (r : Release)
    (status : MatchStatus)
    → validate_submit p ≡ ok tt
    → Accepted m now p db db' r status
    → Moves m now (entry h db) (entry h db')
Accepted-Moves m now p h db db' r status checked accepted =
    let (found, fresh, u, final, same) = accepted in
    elim (Bool-cases (bytes_eq p.infohash h)) [
      | inl own ↦
          subst (λ k. Moves m now (entry k db) (entry k db')) (bytes_eq→≡ p.infohash h own)
            (rw (found, find-Accepted m now p db db' r status accepted)
              (resolve-Moves m p now p.status status r refl checked final
                (Accepted-InHand now p r fresh u)))
      | inr other ↦ stays (
          ap (λ d. entry h d) (sym same)
          ∙ apply_submit-other now p (new_attempts p.status r.attempt_count) status h db
              (λ e. ground (arith, other, bytes_eq_refl h, e)))
    ]

-- A submission settles the entry in hand or counts its failed attempt; other entries it leaves alone,
-- and a submission that is refused leaves every entry alone.
pub submit-Moves :
    (fails : Faults) (m : ℕ) (now : Time) (p : SubmitParams) (h : Bytes) (db : Db)
    → Moves m now (entry h db) (entry h (submit fails m now p db).0)
submit-Moves fails m now p h db = elim (submit-cases fails m now p db) [
  | inl (db', e) ↦
      let (r, status, checked, accepted) = submit-eq-ok fails m now p db db' e in
      rw e (Accepted-Moves m now p h db db' r status checked accepted)
  | inr (x, e) ↦ rw e (stays refl)
]
