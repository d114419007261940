-- ===== src/Store/Claim/Keeps.antt =====
-- A claim keeps the invariant.
use takuhai.Base.{
  All, All-zip, Bool, Bool-cases, Bytes, List, Time, ap, arith, if◌then◌else◌, inl, inr, leb→le,
  length, map, not, refl, some, some-injective, subst, sym, true, ℕ, ◌&&◌, ◌==◌, ◌||◌, ◌∙◌, ◌≡◌,
  ◌≤◌,
}
use takuhai.Errors.{Result, ok, err, guard-eq-ok, ok-injective, database_failure}
use takuhai.Store.{
  begin_tx, exhaust_old, select_lease, load_raw_items, commit_tx, Release, MatchStatus,
  is_unmatched, Faults, Db, find_release,
}
use takuhai.Store.Rows.{All-map, UniqueKeys, UniqueKeys-map, UniqueKeys-map, find-own}
use takuhai.Store.Invariant.{RowValid, Shape, Inv}
use takuhai.Store.Claim.{
  claim_tx, claimed_item, settle, exhaust, exhaust_spent, is_spent, lease, is_among, lease_all,
  lease_all, claim, ClaimParams, chosen, claim_limit, Result, ClaimedRelease, lease_end,
  is_claimable, ok, ok, err,
}
use takuhai.Store.Claim.Picked.{Picked, chosen-Picked, is_among-Picked}

pub is_unmatched→≡ : (s : MatchStatus) → is_unmatched s ≡ true → s ≡ MatchStatus.unmatched
is_unmatched→≡ MatchStatus.unmatched e = refl
is_unmatched→≡ MatchStatus.matched e = cc
is_unmatched→≡ MatchStatus.suppressed e = cc
is_unmatched→≡ MatchStatus.exhausted e = cc

module _ (m : ℕ) where
  exhaust-RowValid :
      (now : Time) (r : Release)
      → is_spent m now r ≡ true
      → RowValid m r
      → RowValid m (exhaust now r)
  unfolding is_spent exhaust
  exhaust-RowValid now r e (s, c) =
      let u : is_unmatched r.match_status ≡ true = ground (arith, e) in
      let spent : m ≤ r.attempt_count = ground (arith, e, leb→le m r.attempt_count) in
      let (a, b, f, g) = subst (λ t. Shape m t r) (is_unmatched→≡ r.match_status u) s in
      ((a, b, f, refl, refl, spent), c)

  lease-RowValid :
      (now expires : Time) (r : Release)
      → is_unmatched r.match_status ≡ true
      → RowValid m r
      → RowValid m (lease now expires r)
  unfolding lease
  lease-RowValid now expires r u (s, c) =
      let q = is_unmatched→≡ r.match_status u in
      (subst (λ t. Shape m t (lease now expires r)) (sym q) (subst (λ t. Shape m t r) q s), c)

  exhaust_spent-rows :
      (now : Time) (rs : List Release)
      → All (RowValid m) rs
      → All (RowValid m) (exhaust_spent m now rs)
  unfolding exhaust_spent
  exhaust_spent-rows now rs v =
      All-map (RowValid m) (RowValid m) (λ r. if is_spent m now r then exhaust now r else r)
        (λ r h. elim (Bool-cases (is_spent m now r)) [
          | inl e ↦ rw e (exhaust-RowValid now r e h)
          | inr e ↦ rw e h
        ])
        rs v

pub exhaust_one-infohash :
    (m : ℕ) (now : Time) (r : Release)
    → (if is_spent m now r then exhaust now r else r).infohash ≡ r.infohash
unfolding exhaust
exhaust_one-infohash m now r = ground arith

pub exhaust_spent-keys :
    (m : ℕ) (now : Time) (rs : List Release) → UniqueKeys rs → UniqueKeys (exhaust_spent m now rs)
unfolding exhaust_spent
exhaust_spent-keys m now rs u =
    UniqueKeys-map (λ r. if is_spent m now r then exhaust now r else r) (exhaust_one-infohash m now)
      rs u

pub lease_one-infohash :
    (now expires : Time) (picked : List Release) (r : Release)
    → (if is_among picked r.infohash then lease now expires r else r).infohash ≡ r.infohash
unfolding lease
lease_one-infohash now expires picked r = ground arith

lease_all-keys :
    (now expires : Time) (picked rs : List Release)
    → UniqueKeys rs
    → UniqueKeys (lease_all now expires picked rs)
unfolding lease_all
lease_all-keys now expires picked rs u =
    UniqueKeys-map (λ r. if is_among picked r.infohash then lease now expires r else r)
      (lease_one-infohash now expires picked) rs u

Picked-unmatched :
    (m : ℕ) (now : Time) (picked rs : List Release) (r : Release)
    → All (Picked m now rs) picked
    → find_release r.infohash rs ≡ some r
    → is_among picked r.infohash ≡ true
    → is_unmatched r.match_status ≡ true
unfolding is_claimable
Picked-unmatched m now picked rs r p own e =
    let (q, (found, test), same) = is_among-Picked (Picked m now rs) picked r.infohash p e in
    let found' : find_release r.infohash rs ≡ some q =
      subst (λ h. find_release h rs ≡ some q) same found in
    let q≡r = some-injective (sym found' ∙ own) in
    subst (λ x. is_unmatched x.match_status ≡ true) q≡r (ground (arith, test))

-- A leased row is the picked row of its key, so it is unmatched.
lease_all-rows :
    (m : ℕ) (now expires : Time) (picked rs : List Release)
    → All (Picked m now rs) picked
    → UniqueKeys rs
    → All (RowValid m) rs
    → All (RowValid m) (lease_all now expires picked rs)
unfolding lease_all
lease_all-rows m now expires picked rs p u v =
    All-map
      (λ r.
        RowValid m r × ((is_among picked r.infohash ≡ true) → is_unmatched r.match_status ≡ true))
      (RowValid m) (λ r. if is_among picked r.infohash then lease now expires r else r)
      (λ r h. elim (Bool-cases (is_among picked r.infohash)) [
        | inl e ↦ rw e (lease-RowValid m now expires r (h.1 e) h.0)
        | inr e ↦ rw e h.0
      ])
      rs
      (All-zip (λ r own valid. (valid, λ e. Picked-unmatched m now picked rs r p own e)) rs
        (find-own rs u) v)

-- What a transaction of Claim commits.
pub claim_tx-eq-ok :
    (fails : Faults) (m : ℕ) (now : Time) (locked : Bytes → Bool) (p : ClaimParams) (db db' : Db)
    (items : List ClaimedRelease)
    → claim_tx fails m now locked p db ≡ ok (db', items)
    → let expires = lease_end now p.lease_seconds in
      let rs = exhaust_spent m now db.releases in
      let picked = chosen m now (claim_limit p.limit) locked rs in
      (record db { releases = lease_all now expires picked rs } ≡ db')
      × (map (claimed_item expires db.raw_items) picked ≡ items)
unfolding claim_tx
claim_tx-eq-ok fails m now locked p db db' items e =
    let picked = chosen m now (claim_limit p.limit) locked (exhaust_spent m now db.releases) in
    let e1 =
      (guard-eq-ok (fails begin_tx || fails exhaust_old || fails select_lease) database_failure _
        e).1 in
    let e2 =
      (guard-eq-ok (fails load_raw_items && not (length picked == 0)) database_failure _ e1).1 in
    let e3 = ok-injective (guard-eq-ok (fails commit_tx) database_failure _ e2).1 in
    (ap (λ x. x.0) e3, ap (λ x. x.1) e3)

settle-rule :
    (P : Db → Type 0) (db : Db) (r : Result (Db × List ClaimedRelease))
    → P db
    → ((db' : Db) (items : List ClaimedRelease) → r ≡ ok (db', items) → P db')
    → P (settle db r).0
unfolding settle
settle-rule P db (err e) v h = v
settle-rule P db (ok (db', items)) v h = h db' items refl

-- What holds before a claim holds after it, if it holds of what the transaction would commit.
pub claim-rule :
    (P : Db → Type 0) (fails : Faults) (m : ℕ) (now : Time) (locked : Bytes → Bool)
    (p : ClaimParams) (db : Db)
    → P db
    → ((db' : Db) (items : List ClaimedRelease)
        → claim_tx fails m now locked p db ≡ ok (db', items)
        → P db')
    → P (claim fails m now locked p db).0
unfolding claim
claim-rule P fails m now locked p db v h = settle-rule P db (claim_tx fails m now locked p db) v h

-- Every claim keeps the invariant, whichever database calls fail and whichever rows are locked.
pub claim-Inv :
    (fails : Faults) (m : ℕ) (now : Time) (locked : Bytes → Bool) (p : ClaimParams) (db : Db)
    → Inv m db
    → Inv m (claim fails m now locked p db).0
claim-Inv fails m now locked p db v =
    let rs = exhaust_spent m now db.releases in
    let picked = chosen m now (claim_limit p.limit) locked rs in
    let keys = exhaust_spent-keys m now db.releases v.keys in
    claim-rule (Inv m) fails m now locked p db v λ db' items e.
      subst (Inv m) (claim_tx-eq-ok fails m now locked p db db' items e).0 (record {
        keys = lease_all-keys now (lease_end now p.lease_seconds) picked rs keys;
        rows =
            lease_all-rows m now (lease_end now p.lease_seconds) picked rs
              (chosen-Picked m now (claim_limit p.limit) locked rs keys) keys
              (exhaust_spent-rows m now db.releases v.rows);
      })
