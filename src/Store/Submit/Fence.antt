-- ===== src/Store/Submit/Fence.antt =====
-- The fence around a submission: who may submit.
use takuhai.Base.{
  All-get_elem, Bool, Bytes, List, Option, Time, ap, arith, false, get_elem?, if◌then◌else◌, inl,
  inr, leb, lt→ltb, none, refl, some, some-injective, subst, sym, true, ℕ, ◌<◌, ◌∙◌, ◌≡◌, ◌≢◌,
}
use takuhai.Errors.{Result, ok, err, Error, invalid_status}
use takuhai.Store.{Db, Release, MatchStatus, Faults, healthy, is_unmatched, find_release}
use takuhai.Store.Rows.{All-find}
use takuhai.Store.Invariant.{RowValid, Shape, Inv}
use takuhai.Store.Claim.{ClaimParams, ClaimedRelease, claim, lease, lease_end}
use takuhai.Store.Claim.Keeps.{claim-Inv}
use takuhai.Store.Claim.Handed.{claim-Handed, lease-token, lease-expires, Handed}
use takuhai.Store.Submit.{
  SubmitStatus, SubmitParams, validate_submit, is_live, is_stale, new_attempts, final_status,
  apply_submit, submit_row, submit_tx, settle, submit,
}
use takuhai.Store.Submit.Keeps.{Accepted, submit-eq-ok, submit-cases}

-- The submission names the current token of a row whose lease has not ended.
abbrev pub Holds : SubmitParams → Time → Db → Type 0
Holds p now db =
    (r : Release) × (t : Time) × (find_release p.infohash db.releases ≡ some r)
    × (r.claim_token ≡ p.claim_token)
    × (r.lease_expires_at ≡ some t)
    × (now < t)

pub live-lem :
    (o : Option Time) (now : Time) → is_live o now ≡ true → (t : Time) × (o ≡ some t) × (now < t)
unfolding is_live
live-lem none now e = cc
live-lem (some t) now e = (t, refl, ground (arith, e))

pub fresh-lem :
    (p : SubmitParams) (now : Time) (r : Release)
    → is_stale p now r ≡ false
    → (r.claim_token ≡ p.claim_token) × (is_live r.lease_expires_at now ≡ true)
unfolding is_stale
fresh-lem p now r e = (ground (arith, e), ground (arith, e))

-- Only the holder of the current token of a live lease can submit, whatever the database does.
pub submit-Holds :
    (fails : Faults) (m : ℕ) (now : Time) (p : SubmitParams) (db db' : Db)
    → submit fails m now p db ≡ (db', ok tt)
    → Holds p now db
submit-Holds fails m now p db db' e =
    let (r, status, checked, (found, fresh, _, _, _)) = submit-eq-ok fails m now p db db' e in
    let (token, live) = fresh-lem p now r fresh in
    let (t, until, before) = live-lem r.lease_expires_at now live in
    (r, t, found, token, until, before)

Holds-fresh :
    (p : SubmitParams) (now t : Time) (r : Release)
    → r.claim_token ≡ p.claim_token
    → r.lease_expires_at ≡ some t
    → now < t
    → is_stale p now r ≡ false
unfolding is_stale is_live
Holds-fresh p now t r token until before =
    let live : is_live r.lease_expires_at now ≡ true = rw until (lt→ltb now t before) in
    ground (arith, live, token)

-- Only an unmatched row has a lease.
pub leased-unmatched :
    (m : ℕ) (s : MatchStatus) (r : Release) (t : Time)
    → r.lease_expires_at ≡ some t
    → Shape m s r
    → is_unmatched s ≡ true
leased-unmatched m MatchStatus.unmatched r t e h = refl
leased-unmatched m MatchStatus.matched r t e (ref, first, h1, h2, h3, h4, h5, h6) = cc (e, h4)
leased-unmatched m MatchStatus.suppressed r t e (h1, h2, h3, h4, h5, h6) = cc (e, h4)
leased-unmatched m MatchStatus.exhausted r t e (h1, h2, h3, h4, h5, h6) = cc (e, h4)

-- A status that passed validation has a final status.
final_status-total :
    (m : ℕ) (p : SubmitParams) (s : SubmitStatus) (n : ℕ)
    → p.status ≡ s
    → validate_submit p ≡ ok tt
    → (status : MatchStatus) × (final_status m s n ≡ some status)
unfolding final_status validate_submit
final_status-total m p SubmitStatus.matched n same e = (MatchStatus.matched, refl)
final_status-total m p SubmitStatus.suppressed n same e = (MatchStatus.suppressed, refl)
final_status-total m p SubmitStatus.unmatched n same e =
    (if leb m n then MatchStatus.exhausted else MatchStatus.unmatched, refl)
final_status-total m p SubmitStatus.unknown n same e =
    let e' : ◌≡◌ {A = Result (Unit {0})} (err invalid_status) (ok tt) = rw same at e in cc e'

-- Without a database failure the holder's submission succeeds.
pub submit-Accepted :
    (m : ℕ) (now : Time) (p : SubmitParams) (db : Db)
    → Inv m db
    → validate_submit p ≡ ok tt
    → Holds p now db
    → (r : Release) × (status : MatchStatus) × (db' : Db) × (submit healthy m now p db
        ≡ (db', ok tt))
      × Accepted m now p db db' r status
unfolding submit submit_tx submit_row settle
submit-Accepted m now p db v checked (r, t, found, token, until, before) =
    let fresh = Holds-fresh p now t r token until before in
    let (shape, _) = All-find (RowValid m) p.infohash db.releases r v.rows found in
    let open_row = leased-unmatched m r.match_status r t until shape in
    let n = new_attempts p.status r.attempt_count in
    let (status, final) = final_status-total m p p.status n refl checked in
    (
      r,
      status,
      apply_submit p now n status db,
      rw (checked, found, submit_row, fresh, open_row, final) refl,
      (found, fresh, open_row, final, refl),
    )

-- A release that a claim hands out can be submitted by its token until the lease ends.
pub claim-submit :
    (fails : Faults) (m : ℕ) (now now' : Time) (locked : Bytes → Bool) (c : ClaimParams)
    (p : SubmitParams) (db db' : Db) (items : List ClaimedRelease) (k : ℕ) (i : ClaimedRelease)
    → Inv m db
    → claim fails m now locked c db ≡ (db', ok items)
    → get_elem? items k ≡ some i
    → p.infohash ≡ i.infohash
    → p.claim_token ≡ i.claim_token
    → validate_submit p ≡ ok tt
    → now' < i.lease_expires
    → (db'' : Db) × (submit healthy m now' p db' ≡ (db'', ok tt))
claim-submit fails m now now' locked c p db db' items k i v e at_k same same_token checked before =
    let v' : Inv m db' = subst (Inv m) (ap (λ x. x.0) e) (claim-Inv fails m now locked c db v) in
    let expires = lease_end now c.lease_seconds in
    let (q, _, _, leased, token, until) =
      All-get_elem (Handed m now expires db db') items k
        (claim-Handed fails m now locked c db db' items v e).2 at_k in
    let held : Holds p now' db' = (
      lease now expires q,
      expires,
      ap (λ h. find_release h db'.releases) same ∙ leased,
      lease-token now expires q ∙ sym token ∙ sym same_token,
      lease-expires now expires q,
      omega (arith, before, until),
    ) in
    let (_, _, db'', done, _) = submit-Accepted m now' p db' v' checked held in (db'', done)

-- A claim withdraws every earlier token of what it hands out: whoever submits with another token
-- fails, and changes nothing.
pub claim_supersedes :
    (fails fails' : Faults) (m : ℕ) (now now' : Time) (locked : Bytes → Bool) (c : ClaimParams)
    (p : SubmitParams) (db db' : Db) (items : List ClaimedRelease) (k : ℕ) (i : ClaimedRelease)
    → Inv m db
    → claim fails m now locked c db ≡ (db', ok items)
    → get_elem? items k ≡ some i
    → p.infohash ≡ i.infohash
    → p.claim_token ≢ i.claim_token
    → (x : Error) × (submit fails' m now' p db' ≡ (db', err x))
claim_supersedes fails fails' m now now' locked c p db db' items k i v e at_k same other =
    let expires = lease_end now c.lease_seconds in
    let (q, _, _, leased, token, _) =
      All-get_elem (Handed m now expires db db') items k
        (claim-Handed fails m now locked c db db' items v e).2 at_k in
    elim (submit-cases fails' m now' p db') [
      | inr r ↦ r
      | inl (db'', done) ↦
          let (r, _, found, held, _, _) = submit-Holds fails' m now' p db' db'' done in
          let back : some (lease now expires q) ≡ some r =
            sym leased ∙ ap (λ h. find_release h db'.releases) (sym same) ∙ found in
          let t = ap (λ x. x.claim_token) (some-injective back) in
          absurd (other (sym held ∙ sym t ∙ lease-token now expires q ∙ sym token))
    ]
