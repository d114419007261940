-- ===== src/Store/Claim/Tests.antt =====
-- Runs of a claim on a table of one release.
use takuhai.Base.{All, Bool, Bytes, [], arith, codes, false, none, refl, some, ◌<◌, ◌∷◌, ◌≡◌, ◌≤◌}
use takuhai.Errors.{ok}
use takuhai.Store.{Db, Release, MatchStatus, healthy, is_canonical_infohash}
use takuhai.Store.Invariant.{Inv}
use takuhai.Store.Claim.{
  ClaimParams, ClaimedRelease, claim_tx, settle, claimed_item, exhaust, exhaust_spent, is_spent,
  is_claimable, newer, insert_by, sort_by, chosen, lease, is_among, lease_all, lease_end,
  claim_limit, claim,
}
use takuhai.Store.Claim.Handed.{Leased, claim-Leased}

abbrev pub zeros_hash : Bytes
zeros_hash = codes "0000000000000000000000000000000000000000"

abbrev pub free_row : Release
free_row = record {
  infohash = zeros_hash;
  title = codes "a";
  magnet = none;
  size_bytes = none;
  published_at = 5;
  sources = codes "dmhy" ∷ [];
  match_status = MatchStatus.unmatched;
  ref = none;
  confidence = none;
  first_matched_at = none;
  attempt_count = 0;
  claimed_at = none;
  lease_expires_at = none;
  claim_token = 0;
  created_at = 1;
  updated_at = 1;
}

abbrev pub leased_row : Release
leased_row = record free_row {
  claimed_at = some 10;
  lease_expires_at = some 60_000_000_010;
  claim_token = 1;
  updated_at = 10;
}

abbrev pub one_row : Release → Db
one_row r = record {
  releases = r ∷ [];
  raw_items = [];
  match_events = [];
  next_item = 1;
  next_event = 1;
}

abbrev pub one_claim : ClaimParams
one_claim = record { limit = 5; lease_seconds = 60 }

abbrev pub claimed_row : ClaimedRelease
claimed_row = record {
  infohash = zeros_hash;
  claim_token = 1;
  attempt_count = 0;
  lease_expires = 60_000_000_010;
  raw_items = [];
}

abbrev pub unlocked : Bytes → Bool
unlocked h = false

pub free-Inv : Inv 3 (one_row free_row)
unfolding is_canonical_infohash
free-Inv = record { keys = (tt, tt); rows = (((refl, refl, refl, omega arith), refl), tt) }

pub free-claim :
    claim healthy 3 10 unlocked one_claim (one_row free_row)
    ≡ (one_row leased_row, ok (claimed_row ∷ []))
unfolding claim claim_tx settle claimed_item exhaust_spent is_spent exhaust is_claimable newer
    insert_by sort_by chosen lease is_among lease_all lease_end claim_limit
free-claim = refl

-- A second claim while the lease lives finds nothing.
pub leased-claim :
    claim healthy 3 11 unlocked one_claim (one_row leased_row) ≡ (one_row leased_row, ok [])
unfolding claim claim_tx settle claimed_item exhaust_spent is_spent exhaust is_claimable newer
    insert_by sort_by chosen lease is_among lease_all lease_end claim_limit
leased-claim = refl

claim-Leased_example :
    (1 ≤ claim_limit 5)
    × (1 ≤ 500)
    × All (Leased 3 10 (lease_end 10 60) (one_row free_row) (one_row leased_row)) (claimed_row ∷ [])
claim-Leased_example =
    claim-Leased healthy 3 10 unlocked one_claim (one_row free_row) (one_row leased_row)
      (claimed_row ∷ []) free-Inv free-claim

pub before_end : 11 < lease_end 10 60
unfolding lease_end
before_end = omega arith
