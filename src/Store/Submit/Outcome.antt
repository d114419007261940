-- ===== src/Store/Submit/Outcome.antt =====
-- What an accepted submission leaves in the tables, written out for each status.
use takuhai.Base.{
  Bool-cases, Bytes, Time, [], ap, inl, inr, leb, leb-false, leb→le, none, refl, some,
  some-injective, subst, sym, ℕ, ◌++◌, ◌+◌, ◌<◌, ◌∙◌, ◌∷◌, ◌≡◌, ◌≢◌, ◌≤◌,
}
use takuhai.Errors.{ok}
use takuhai.Store.{Db, Release, MatchEvent, MatchStatus, healthy, find_release}
use takuhai.Store.Rows.{All-find, find-update_other}
use takuhai.Store.Invariant.{RowValid, Shape, Inv}
use takuhai.Store.Claim.Keeps.{is_unmatched→≡}
use takuhai.Store.Submit.{
  SubmitStatus, SubmitParams, validate_submit, new_attempts, final_status, resolve, event_for,
  apply_submit, submit, nullable_ref, nullable_confidence, first_match,
}
use takuhai.Store.Submit.Keeps.{resolve-infohash}
use takuhai.Store.Submit.Fence.{Holds, submit-Accepted}
use takuhai.Store.Submit.Once.{find-Accepted}

-- What the row becomes, and what the event says, by the status submitted and by the attempts.
pub data Outcome (m : ℕ) (now : Time) (p : SubmitParams) (r r' : Release) (e : MatchEvent)
    : Type 0 where
  was_matched :
      p.status ≡ SubmitStatus.matched
      → r' ≡ record r {
        match_status = MatchStatus.matched;
        ref = some p.ref;
        confidence = p.confidence;
        first_matched_at = some now;
        claimed_at = none;
        lease_expires_at = none;
        updated_at = now;
      }
      → e.status ≡ MatchStatus.matched
      → e.ref ≡ some p.ref
      → e.confidence ≡ p.confidence
      → Outcome m now p r r' e
  was_suppressed :
      p.status ≡ SubmitStatus.suppressed
      → r' ≡ record r {
        match_status = MatchStatus.suppressed;
        ref = none;
        confidence = none;
        claimed_at = none;
        lease_expires_at = none;
        updated_at = now;
      }
      → e.status ≡ MatchStatus.suppressed
      → e.ref ≡ none
      → e.confidence ≡ p.confidence
      → Outcome m now p r r' e
  was_missed :
      p.status ≡ SubmitStatus.unmatched
      → r.attempt_count + 1 < m
      → r' ≡ record r { attempt_count = r.attempt_count + 1; updated_at = now }
      → e.status ≡ MatchStatus.unmatched
      → e.ref ≡ none
      → e.confidence ≡ none
      → Outcome m now p r r' e
  was_last :
      p.status ≡ SubmitStatus.unmatched
      → m ≤ r.attempt_count + 1
      → r' ≡ record r {
        match_status = MatchStatus.exhausted;
        attempt_count = r.attempt_count + 1;
        ref = none;
        confidence = none;
        claimed_at = none;
        lease_expires_at = none;
        updated_at = now;
      }
      → e.status ≡ MatchStatus.exhausted
      → e.ref ≡ none
      → e.confidence ≡ none
      → Outcome m now p r r' e

resolve-Outcome :
    (m : ℕ) (now : Time) (p : SubmitParams) (r : Release) (id : ℕ) (s : SubmitStatus)
    (status : MatchStatus)
    → p.status ≡ s
    → r.first_matched_at ≡ none
    → final_status m s (new_attempts s r.attempt_count) ≡ some status
    → Outcome m now p r
        (resolve p now (new_attempts s r.attempt_count) status r)
        (event_for p now id status)
unfolding resolve event_for final_status new_attempts nullable_ref nullable_confidence first_match
resolve-Outcome m now p r id SubmitStatus.matched status same first e =
    subst (λ z. Outcome m now p r (resolve p now r.attempt_count z r) (event_for p now id z))
      (some-injective e) (was_matched same (rw first refl) refl refl refl)
resolve-Outcome m now p r id SubmitStatus.suppressed status same first e =
    subst (λ z. Outcome m now p r (resolve p now r.attempt_count z r) (event_for p now id z))
      (some-injective e) (was_suppressed same refl refl refl refl)
resolve-Outcome m now p r id SubmitStatus.unmatched status same first e =
    let n = r.attempt_count + 1 in
    let P : MatchStatus → Type 0 =
      λ z. Outcome m now p r (resolve p now n z r) (event_for p now id z) in
    elim (Bool-cases (leb m n)) [
      | inl spent ↦
          let e' : some MatchStatus.exhausted ≡ some status = rw spent at e in
          subst P (some-injective e') (was_last same (leb→le m n spent) refl refl refl refl)
      | inr more ↦
          let e' : some MatchStatus.unmatched ≡ some status = rw more at e in
          subst P (some-injective e') (was_missed same (leb-false m n more) refl refl refl refl)
    ]
resolve-Outcome m now p r id SubmitStatus.unknown status same first e = cc e

-- The tables around an outcome: the release's row and the event are those of the outcome, the event
-- comes last under the next id, and no other row changes.
abbrev pub Written : ℕ → Time → SubmitParams → Db → Db → Release → Release → MatchEvent → Type 0
Written m now p db db' r r' e =
    (find_release p.infohash db.releases ≡ some r)
    × (find_release p.infohash db'.releases ≡ some r')
    × Outcome m now p r r' e
    × ((h : Bytes) → p.infohash ≢ h → find_release h db'.releases ≡ find_release h db.releases)
    × (db'.raw_items ≡ db.raw_items)
    × (db'.match_events ≡ db.match_events ++ e ∷ [])
    × (db'.next_event ≡ db.next_event + 1)
    × (e.id ≡ db.next_event)
    × (e.infohash ≡ p.infohash)
    × (e.reason ≡ p.reason)
    × (e.created_at ≡ now)

-- While the database works, a valid submission by the holder of the token of a live lease succeeds.
-- The row of its release takes the fields of its outcome, a match, a suppression, a miss, or the
-- miss that reaches the cap; all other rows and the raw items stay, and one event that records the
-- outcome is appended under the next id.
pub submit-accepts :
    (m : ℕ) (now : Time) (p : SubmitParams) (db : Db)
    → Inv m db
    → validate_submit p ≡ ok tt
    → Holds p now db
    → (r r' : Release) × (e : MatchEvent) × (db' : Db) × (submit healthy m now p db ≡ (db', ok tt))
      × Written m now p db db' r r' e
unfolding apply_submit event_for
submit-accepts m now p db v checked held =
    let (r, status, db', done, accepted) = submit-Accepted m now p db v checked held in
    let (found, _, open_row, final, same) = accepted in
    let (shape, _) = All-find (RowValid m) p.infohash db.releases r v.rows found in
    let (_, _, first, _) =
      subst (λ t. Shape m t r) (is_unmatched→≡ r.match_status open_row) shape in
    let n = new_attempts p.status r.attempt_count in
    (
      r,
      resolve p now n status r,
      event_for p now db.next_event status,
      db',
      done,
      (
        found,
        find-Accepted m now p db db' r status accepted,
        resolve-Outcome m now p r db.next_event p.status status refl first final,
        λ h other.
            ap (λ d. find_release h d.releases) (sym same)
            ∙ find-update_other p.infohash h (resolve p now n status) db.releases
                (resolve-infohash p now n status) other,
        ap (λ d. d.raw_items) (sym same),
        ap (λ d. d.match_events) (sym same),
        ap (λ d. d.next_event) (sym same),
        refl,
        refl,
        refl,
        refl,
      ),
    )
