-- ===== src/Store/Claim/Handed.antt =====
-- What a claim hands out.
use takuhai.Base.{
  All, All-weaken, All-zip, Bool, Bool-cases, Bytes, List, Option, Option-cases, Time, [], ap,
  arith, false, if◌then◌else◌, inl, inr, leb→le, length, length-map, map, refl, some,
  some-injective, subst, sym, true, ℕ, ◌+◌, ◌<◌, ◌∙◌, ◌∷◌, ◌≡◌, ◌≤◌,
}
use takuhai.Errors.{Result, ok, err, Result-cases}
use takuhai.Store.{Db, Release, MatchStatus, Faults, find_release, is_free}
use takuhai.Store.Rows.{find-map}
use takuhai.Store.Invariant.{Inv}
use takuhai.Store.Claim.{
  ClaimParams, ClaimedRelease, claim_tx, settle, max_claim_limit, claimed_item, exhaust,
  exhaust_spent, is_spent, is_claimable, chosen, lease, lease_end, is_among, lease_all, claim_limit,
  claim,
}
use takuhai.Store.Claim.Picked.{chosen-Picked, is_among-member, length-chosen}
use takuhai.Store.Claim.Keeps.{
  claim_tx-eq-ok, exhaust_spent-keys, exhaust_one-infohash, lease_one-infohash, is_unmatched→≡,
}

-- A claimed item stands for a row that was claimable in the old tables, and carries the token and
-- the lease that the row has in the new ones.
abbrev pub Handed : ℕ → Time → Time → Db → Db → ClaimedRelease → Type 0
Handed m now expires db db' i =
    (q : Release) × (find_release i.infohash db.releases ≡ some q)
    × (is_claimable m now q ≡ true)
    × (find_release i.infohash db'.releases ≡ some (lease now expires q))
    × (i.claim_token ≡ q.claim_token + 1)
    × (i.lease_expires ≡ expires)

exhausted-unclaimable :
    (m : ℕ) (now : Time) (r : Release) → is_claimable m now (exhaust now r) ≡ false
unfolding exhaust is_claimable
exhausted-unclaimable m now r = refl

-- A claimable row that the exhaustion leaves was there before it.
pub find-exhaust_spent :
    (m : ℕ) (now : Time) (h : Bytes) (rs : List Release) (q : Release)
    → find_release h (exhaust_spent m now rs) ≡ some q
    → is_claimable m now q ≡ true
    → find_release h rs ≡ some q
unfolding exhaust_spent
find-exhaust_spent m now h rs q e c =
    let f : Release → Release = λ r. if is_spent m now r then exhaust now r else r in
    let e' = sym (find-map h f (exhaust_one-infohash m now) rs) ∙ e in
    elim (Option-cases (find_release h rs)) [
      | inl n ↦ cc (n, e')
      | inr (r, s) ↦
          let e'' : some (f r) ≡ some q = rw s at e' in
          elim (Bool-cases (is_spent m now r)) [
            | inl spent ↦
                let x : some (exhaust now r) ≡ some q = rw spent at e'' in
                let y = exhausted-unclaimable m now r in
                cc (subst (λ z. is_claimable m now z ≡ true) (sym (some-injective x)) c, y)
            | inr kept ↦ let x : some r ≡ some q = rw kept at e'' in s ∙ x
          ]
    ]

-- The picked row after the leases are written.
find-lease_all :
    (now expires : Time) (picked rs : List Release) (q : Release)
    → find_release q.infohash rs ≡ some q
    → is_among picked q.infohash ≡ true
    → find_release q.infohash (lease_all now expires picked rs) ≡ some (lease now expires q)
unfolding lease_all
find-lease_all now expires picked rs q e a =
    let f : Release → Release =
      λ r. if is_among picked r.infohash then lease now expires r else r in
    find-map q.infohash f (lease_one-infohash now expires picked) rs ∙ rw (e, a) refl

All-items :
    (P : ClaimedRelease → Type 0) (f : Release → ClaimedRelease) (rs : List Release)
    → All (λ q. P (f q)) rs
    → All P (map f rs)
All-items P f [] a = tt
All-items P f (q ∷ rs) a = (a.0, All-items P f rs a.1)

claim-eq-ok :
    (fails : Faults) (m : ℕ) (now : Time) (locked : Bytes → Bool) (p : ClaimParams) (db db' : Db)
    (items : List ClaimedRelease)
    → claim fails m now locked p db ≡ (db', ok items)
    → claim_tx fails m now locked p db ≡ ok (db', items)
unfolding claim settle
claim-eq-ok fails m now locked p db db' items e =
    elim (Result-cases (claim_tx fails m now locked p db)) [
      | inl (r, s) ↦
          let e' : ◌≡◌ {A = Db × Result (List ClaimedRelease)} (r.0, ok r.1) (db', ok items) =
            rw s at e in
          s ∙ cc e'
      | inr (x, s) ↦
          let e' : ◌≡◌ {A = Db × Result (List ClaimedRelease)} (db, err x) (db', ok items) =
            rw s at e in
          cc (ap (λ y. y.1) e')
    ]

-- The items of a claim that succeeds, by the rows that were picked.
pub claim-Handed :
    (fails : Faults) (m : ℕ) (now : Time) (locked : Bytes → Bool) (p : ClaimParams) (db db' : Db)
    (items : List ClaimedRelease)
    → Inv m db
    → claim fails m now locked p db ≡ (db', ok items)
    → (length items ≤ claim_limit p.limit)
      × (length items ≤ max_claim_limit)
      × All (Handed m now (lease_end now p.lease_seconds) db db') items
unfolding claimed_item claim_limit
claim-Handed fails m now locked p db db' items v e =
    let expires = lease_end now p.lease_seconds in
    let rs = exhaust_spent m now db.releases in
    let picked = chosen m now (claim_limit p.limit) locked rs in
    let keys = exhaust_spent-keys m now db.releases v.keys in
    let (same_db, same_items) =
      claim_tx-eq-ok fails m now locked p db db' items
        (claim-eq-ok fails m now locked p db db' items e) in
    let few : length items ≤ claim_limit p.limit = omega (
      arith,
      ap length same_items,
      length-map (claimed_item expires db.raw_items) picked,
      length-chosen m now (claim_limit p.limit) locked rs,
    ) in
    (
      few,
      ground (arith, few),
      subst (All (Handed m now expires db db')) same_items (
          All-items (Handed m now expires db db') (claimed_item expires db.raw_items) picked (
            All-zip
              (λ q h a. (
                q,
                find-exhaust_spent m now q.infohash db.releases q h.0 h.1,
                h.1,
                ap (λ x. find_release q.infohash x.releases) (sym same_db)
                    ∙ find-lease_all now expires picked rs q h.0 a,
                refl,
                refl,
              ))
              picked (chosen-Picked m now (claim_limit p.limit) locked rs keys)
              (is_among-member picked))),
    )

pub lease-token :
    (now expires : Time) (q : Release) → (lease now expires q).claim_token ≡ q.claim_token + 1
unfolding lease
lease-token now expires q = refl

pub lease-expires :
    (now expires : Time) (q : Release) → (lease now expires q).lease_expires_at ≡ some expires
unfolding lease
lease-expires now expires q = refl

pub is_free-lem :
    (o : Option Time) (now : Time) → is_free o now ≡ true → (t : Time) → o ≡ some t → t ≤ now
is_free-lem o now free t e = ground (arith, leb→le t now, rw e at free)

-- A claimed item stands for a row that was unmatched, below the cap and under no live lease. The
-- row has changed by the claim, the new end of the lease and the next token, which the item names.
abbrev pub Leased : ℕ → Time → Time → Db → Db → ClaimedRelease → Type 0
Leased m now expires db db' i =
    (q : Release) × (find_release i.infohash db.releases ≡ some q)
    × (q.match_status ≡ MatchStatus.unmatched)
    × (q.attempt_count < m)
    × ((t : Time) → q.lease_expires_at ≡ some t → t ≤ now)
    × (find_release i.infohash db'.releases
        ≡ some (record q {
          claimed_at = some now;
          lease_expires_at = some expires;
          claim_token = q.claim_token + 1;
          updated_at = now;
        }))
    × (i.claim_token ≡ q.claim_token + 1)
    × (i.lease_expires ≡ expires)

Handed-Leased :
    (m : ℕ) (now expires : Time) (db db' : Db) (i : ClaimedRelease)
    → Handed m now expires db db' i
    → Leased m now expires db db' i
unfolding is_claimable lease
Handed-Leased m now expires db db' i (q, found, test, after, token, until) = (
  q,
  found,
  is_unmatched→≡ q.match_status (ground (arith, test)),
  ground (arith, test),
  is_free-lem q.lease_expires_at now (ground (arith, test)),
  after,
  token,
  until,
)

-- A claim that succeeds hands out at most as many releases as its limit, and never more than 500.
-- Each stands for a row that was unmatched, below the attempt cap and under no live lease; the row
-- now carries the lease and the token, raised by one, that the item names, and is otherwise as it
-- was but for the times of the claim.
pub claim-Leased :
    (fails : Faults) (m : ℕ) (now : Time) (locked : Bytes → Bool) (p : ClaimParams) (db db' : Db)
    (items : List ClaimedRelease)
    → Inv m db
    → claim fails m now locked p db ≡ (db', ok items)
    → (length items ≤ claim_limit p.limit)
      × (length items ≤ 500)
      × All (Leased m now (lease_end now p.lease_seconds) db db') items
claim-Leased fails m now locked p db db' items v e =
    let (few, capped, handed) = claim-Handed fails m now locked p db db' items v e in
    (
      few,
      capped,
      All-weaken (Handed-Leased m now (lease_end now p.lease_seconds) db db') items handed,
    )
