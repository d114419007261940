-- ===== src/Store/Claim/Moves.antt =====
-- What a claim does to the queue: an entry is leased, exhausted or left alone.
use takuhai.Base.{
  All, Bool, Bool-cases, Bytes, List, Option-cases, Time, ap, arith, false, if◌then◌else◌, inl, inr,
  leb→le, map, map_option, refl, some, subst, true, ℕ, ◌∙◌, ◌≡◌,
}
use takuhai.Store.{is_free, Db, Release, Faults, find_release}
use takuhai.Store.Rows.{find-map, find-infohash}
use takuhai.Store.Invariant.{Inv}
use takuhai.Store.Lifecycle.{IsFree, Moves, stays, leases, expires_spent, entry, entry_of}
use takuhai.Store.Claim.{
  ClaimParams, claim, lease_end, exhaust_spent, is_spent, exhaust, chosen, claim_limit, lease,
  is_among, lease_all, is_claimable,
}
use takuhai.Store.Claim.Picked.{Picked, chosen-Picked, is_among-Picked}
use takuhai.Store.Claim.Handed.{find-exhaust_spent, is_free-lem}
use takuhai.Store.Claim.Keeps.{
  claim-rule, claim_tx-eq-ok, exhaust_spent-keys, exhaust_one-infohash, lease_one-infohash,
  is_unmatched→≡,
}

row-IsFree :
    (now : Time) (q : Release) → is_free q.lease_expires_at now ≡ true → IsFree now (entry_of q)
row-IsFree now q = is_free-lem q.lease_expires_at now

claimable-Moves :
    (m : ℕ) (now expires : Time) (q : Release)
    → is_claimable m now q ≡ true
    → Moves m now (some (entry_of q)) (some (entry_of (lease now expires q)))
unfolding is_claimable lease
claimable-Moves m now expires q c =
    leases (entry_of q) expires refl (is_unmatched→≡ q.match_status (ground (arith, c)))
      (ground (arith, c)) (row-IsFree now q (ground (arith, c))) refl

spent-Moves :
    (m : ℕ) (now : Time) (q : Release)
    → is_spent m now q ≡ true
    → Moves m now (some (entry_of q)) (some (entry_of (exhaust now q)))
unfolding is_spent exhaust
spent-Moves m now q c =
    expires_spent (entry_of q) refl (is_unmatched→≡ q.match_status (ground (arith, c)))
      (ground (arith, c, leb→le m q.attempt_count)) (row-IsFree now q (ground (arith, c))) refl

-- The rows of a claim, before and after.
rows-Moves :
    (m : ℕ) (now expires : Time) (h : Bytes) (picked rs : List Release)
    → All (Picked m now (exhaust_spent m now rs)) picked
    → Moves m now (map_option entry_of (find_release h rs)) (
        map_option entry_of
          (find_release h (lease_all now expires picked (exhaust_spent m now rs))))
unfolding lease_all exhaust_spent
rows-Moves m now expires h picked rs p =
    let f : Release → Release = λ r. if is_spent m now r then exhaust now r else r in
    let g : Release → Release =
      λ r. if is_among picked r.infohash then lease now expires r else r in
    let exhausted = find-map h f (exhaust_one-infohash m now) rs in
    let leased = find-map h g (lease_one-infohash now expires picked) (map f rs) in
    elim (Option-cases (find_release h rs)) [
      | inl n ↦ stays (rw (leased, exhausted, n) refl)
      | inr (r, s) ↦
          let key : (f r).infohash ≡ h = exhaust_one-infohash m now r ∙ find-infohash h rs r s in
          elim (Bool-cases (is_among picked h)) [
            | inl a ↦
                let (q, (found, test), same) =
                  is_among-Picked (Picked m now (exhaust_spent m now rs)) picked h p a in
                let after : find_release h (exhaust_spent m now rs) ≡ some q =
                  subst (λ k. find_release k (exhaust_spent m now rs) ≡ some q) same found in
                let before = find-exhaust_spent m now h rs q after test in
                let a' : is_among picked q.infohash ≡ true = ap (λ k. is_among picked k) same ∙ a in
                let after' : find_release h (map g (map f rs)) ≡ some (lease now expires q) =
                  leased ∙ (ap (map_option g) after ∙ rw a' refl) in
                rw (before, after') (claimable-Moves m now expires q test)
            | inr other ↦
                let a' : is_among picked (f r).infohash ≡ false =
                  ap (λ k. is_among picked k) key ∙ other in
                let kept : g (f r) ≡ f r = rw a' refl in
                let after : find_release h (map g (map f rs)) ≡ some (f r) =
                  leased ∙ (ap (map_option g) (exhausted ∙ ap (map_option f) s) ∙ ap some kept) in
                elim (Bool-cases (is_spent m now r)) [
                  | inl spent ↦
                      let gone : f r ≡ exhaust now r = rw spent refl in
                      rw (s, after ∙ ap some gone) (spent-Moves m now r spent)
                  | inr left ↦
                      let same : f r ≡ r = rw left refl in rw (s, after ∙ ap some same) (stays refl)
                ]
          ]
    ]

-- A claim leases an entry, exhausts it or leaves it alone.
pub claim-Moves :
    (fails : Faults) (m : ℕ) (now : Time) (locked : Bytes → Bool) (p : ClaimParams) (h : Bytes)
    (db : Db)
    → Inv m db
    → Moves m now (entry h db) (entry h (claim fails m now locked p db).0)
claim-Moves fails m now locked p h db v =
    let keys = exhaust_spent-keys m now db.releases v.keys in
    let rs = exhaust_spent m now db.releases in
    let picked = chosen m now (claim_limit p.limit) locked rs in
    claim-rule (λ db'. Moves m now (entry h db) (entry h db')) fails m now locked p db (stays refl)
      λ db' items e.
        subst (λ d. Moves m now (entry h db) (entry h d))
          (claim_tx-eq-ok fails m now locked p db db' items e).0
          (rows-Moves m now (lease_end now p.lease_seconds) h picked db.releases
            (chosen-Picked m now (claim_limit p.limit) locked rs keys))
