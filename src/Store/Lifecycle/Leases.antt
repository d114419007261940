-- ===== src/Store/Lifecycle/Leases.antt =====
-- What a run of operations leaves of a lease: while it lives no claim hands the release out again,
-- and once a submission has ended it for good none succeeds any more.
use takuhai.Base.{
  All, All-weaken, Bool, Bytes, List, Option, Time, ap, arith, inl, inr, map_option, refl, some,
  some-injective, subst, sym, ℕ, ◌+◌, ◌<◌, ◌∙◌, ◌≡◌, ◌≢◌, ◌≤◌, ◌⊎◌,
}
use takuhai.Errors.{Error, ok, err}
use takuhai.Store.{Db, Release, Faults, MatchStatus, find_release}
use takuhai.Store.Invariant.{Inv}
use takuhai.Store.Claim.{ClaimParams, ClaimedRelease, claim, lease_end}
use takuhai.Store.Claim.Keeps.{claim-Inv, is_unmatched→≡}
use takuhai.Store.Claim.Handed.{claim-Leased}
use takuhai.Store.Submit.{SubmitStatus, SubmitParams, new_attempts, submit}
use takuhai.Store.Submit.Keeps.{submit-eq-ok, submit-cases, submit-Inv}
use takuhai.Store.Submit.Once.{find-Accepted, final_settled, last_attempt, resolve-status}
use takuhai.Store.Reach.{Step, Step-Inv}
use takuhai.Store.Lifecycle.{
  Entry, entry, entry_of, Moves, stays, appears, leases, expires_spent, matches, suppresses, misses,
  gives_up,
}
use takuhai.Store.Lifecycle.Runs.{Step-Moves, Moves-settled, same_entry, Steps, settled_stays}

-- Operations one after the other, all of them at times before the given one.
pub data StepsBefore (m : ℕ) (until : Time) : Db → Db → Type 0 where
  none_before : (db : Db) → StepsBefore m until db db
  one_before :
      (now : Time) (db db' db'' : Db)
      → now < until
      → Step m now db db'
      → StepsBefore m until db' db''
      → StepsBefore m until db db''

-- The entry has the lease still, or is settled.
abbrev Kept : Time → Option Entry → Type 0
Kept expires o =
    (e : Entry) × (o ≡ some e) × ((e.lease ≡ some expires) ⊎ (e.status ≢ MatchStatus.unmatched))

module _ (m : ℕ) (pos : 0 < m) (expires : Time) where
  module _ (now : Time) (alive : now < expires) (before after : Option Entry) (e : Entry)
      (q : before ≡ some e) where
    unfree :
        (x : Entry)
        → before ≡ some x
        → e.lease ≡ some expires
        → ((t : Time) → x.lease ≡ some t → t ≤ now)
        → (A : Type 0) → A
    unfree x was held free A = absurd (
        omega (arith, alive, free expires (ap (λ y. y.lease) (same_entry before x e was q) ∙ held)))

    Moves-held : Moves m now before after → e.lease ≡ some expires → Kept expires after
    Moves-held (stays same) held = (e, same ∙ q, inl held)
    Moves-held (appears gone new) held = cc (gone, q)
    Moves-held (leases x t was u few free new) held = unfree x was held free (Kept expires after)
    Moves-held (expires_spent x was u spent free new) held =
        unfree x was held free (Kept expires after)
    Moves-held (matches x ref was h checked new) held = (_, new, inr (λ s. cc s))
    Moves-held (suppresses x was h new) held = (_, new, inr (λ s. cc s))
    Moves-held (misses x was h more new) held =
        (_, new, inl (ap (λ y. y.lease) (same_entry before x e was q) ∙ held))
    Moves-held (gives_up x was h last new) held = (_, new, inr (λ s. cc s))

    Moves-Kept :
        Moves m now before after
        → (e.lease ≡ some expires) ⊎ (e.status ≢ MatchStatus.unmatched)
        → Kept expires after
    Moves-Kept moves (inl held) = Moves-held moves held
    Moves-Kept moves (inr other) =
        (e, Moves-settled m pos now before after e moves q other, inr other)

  StepsBefore-Kept :
      (db db' : Db) (h : Bytes)
      → Inv m db
      → StepsBefore m expires db db'
      → Kept expires (entry h db)
      → (Inv m db') × Kept expires (entry h db')
  StepsBefore-Kept _ _ h v (none_before db) k = (v, k)
  StepsBefore-Kept _ _ h v (one_before now db db' db'' alive step steps) (e, q, k) =
      StepsBefore-Kept db' db'' h (Step-Inv m pos now db db' step v) steps (
        Moves-Kept now alive (entry h db) (entry h db') e q (Step-Moves m pos now db db' h v step)
          k)

-- While a lease that a claim handed out lives, no later claim hands out the same release, after
-- whatever run of claims, ingests and submissions; the operations between and the later claim are
-- before the end of the lease. The cap is positive and the first tables satisfy the invariant.
pub claim_exclusive :
    (fails fails' : Faults) (m : ℕ) (now now' : Time) (locked locked' : Bytes → Bool)
    (p p' : ClaimParams) (db db' last db'' : Db) (items items' : List ClaimedRelease)
    → 0 < m
    → Inv m db
    → claim fails m now locked p db ≡ (db', ok items)
    → StepsBefore m (lease_end now p.lease_seconds) db' last
    → now' < lease_end now p.lease_seconds
    → claim fails' m now' locked' p' last ≡ (db'', ok items')
    → All (λ i. All (λ j. i.infohash ≢ j.infohash) items') items
claim_exclusive fails fails' m now now' locked locked' p p' db db' last db'' items items' pos v e
      steps live e' =
    let v' : Inv m db' = subst (Inv m) (ap (λ x. x.0) e) (claim-Inv fails m now locked p db v) in
    let expires = lease_end now p.lease_seconds in
    All-weaken
      (λ i (q, _, _, _, _, leased, _, _).
        let (w, (x, at_x, k)) =
          StepsBefore-Kept m pos expires db' last i.infohash v' steps
            (_, ap (map_option entry_of) leased, inl refl) in
        All-weaken
          (λ j (q', found, open_row, _, free, _, _, _) same.
            let back : entry_of q' ≡ x = some-injective (
              sym (ap (map_option entry_of) (ap (λ h. find_release h last.releases) same ∙ found))
              ∙ at_x) in
            elim k [
              | inl held ↦
                  absurd (omega (arith, live, free expires (ap (λ y. y.lease) back ∙ held)))
              | inr other ↦ absurd (other (ap (λ y. y.status) (sym back) ∙ open_row))
            ])
          items' (claim-Leased fails' m now' locked' p' last db'' items' w e').2)
      items (claim-Leased fails m now locked p db db' items v e).2

-- A submission that settles a release leaves its entry settled.
submit-settles :
    (fails : Faults) (m : ℕ) (now : Time) (p : SubmitParams) (db db' : Db) (r : Release)
    → submit fails m now p db ≡ (db', ok tt)
    → find_release p.infohash db.releases ≡ some r
    → (p.status ≢ SubmitStatus.unmatched) ⊎ (m ≤ r.attempt_count + 1)
    → (e : Entry) × (entry p.infohash db' ≡ some e) × (e.status ≢ MatchStatus.unmatched)
submit-settles fails m now p db db' r done found settles =
    let (r0, status, _, accepted) = submit-eq-ok fails m now p db db' done in
    let (found0, _, _, final, _) = accepted in
    let same = some-injective (sym found ∙ found0) in
    let n = new_attempts p.status r0.attempt_count in
    let settled =
      final_settled m p.status n status
        (last_attempt m r0.attempt_count p.status (
          subst (λ x. (p.status ≢ SubmitStatus.unmatched) ⊎ (m ≤ x.attempt_count + 1)) same
            settles))
        final in
    (
      _,
      ap (map_option entry_of) (find-Accepted m now p db db' r0 status accepted),
      λ u. settled (sym (resolve-status p now n status r0 settled) ∙ u),
    )

-- After a submission of a match, of a suppression or of the last attempt, no submission for the
-- release succeeds any more, after whatever run of operations: it fails and changes nothing. The
-- cap is positive and the first tables satisfy the invariant.
pub submit_once :
    (fails fails' : Faults) (m : ℕ) (now now' : Time) (p p' : SubmitParams) (db db' last : Db)
    (r : Release)
    → 0 < m
    → Inv m db
    → submit fails m now p db ≡ (db', ok tt)
    → find_release p.infohash db.releases ≡ some r
    → (p.status ≢ SubmitStatus.unmatched) ⊎ (m ≤ r.attempt_count + 1)
    → Steps m db' last
    → p'.infohash ≡ p.infohash
    → (x : Error) × (submit fails' m now' p' last ≡ (last, err x))
submit_once fails fails' m now now' p p' db db' last r pos v done found settles steps same =
    elim (submit-cases fails' m now' p' last) [
      | inr x ↦ x
      | inl (db'', again) ↦
          let (e, at_e, settled) = submit-settles fails m now p db db' r done found settles in
          let v' : Inv m db' = subst (Inv m) (ap (λ x. x.0) done) (submit-Inv fails m now p db v) in
          let still = settled_stays m pos db' last p.infohash e v' steps at_e settled in
          let (q, _, _, (found', _, open_row, _, _)) =
            submit-eq-ok fails' m now' p' last db'' again in
          let shown =
            ap (map_option entry_of) (ap (λ h. find_release h last.releases) (sym same) ∙ found') in
          let back : entry_of q ≡ e = some-injective (sym shown ∙ still) in
          absurd (settled (ap (λ y. y.status) (sym back) ∙ is_unmatched→≡ q.match_status open_row))
    ]
