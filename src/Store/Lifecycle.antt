-- ===== src/Store/Lifecycle.antt =====
-- The queue as a matcher sees it: of each infohash one entry, with no order, no evidence and no
-- times but the end of the lease. The moves of an entry are the contract that the store implements.
pub mod Runs
pub mod Leases
pub mod Tests
use takuhai.Base.{
  Bytes, List, Option, Option-cases, Time, ap, inl, inr, map, map_option, none, refl, some, ℕ, ◌+◌,
  ◌<◌, ◌∙◌, ◌≡◌, ◌≤◌,
}
use takuhai.Errors.{ok}
use takuhai.Cursor.Ref.{validate_ref}
use takuhai.Store.{Db, Release, MatchStatus, is_free, find_release}
use takuhai.Store.Rows.{find-map}

pub record Entry : Type 0 where
  pub status : MatchStatus
  pub ref : Option Bytes
  pub attempts : ℕ
  pub lease : Option Time
  pub token : ℕ

abbrev pub entry_of : Release → Entry
entry_of r = record {
  status = r.match_status;
  ref = r.ref;
  attempts = r.attempt_count;
  lease = r.lease_expires_at;
  token = r.claim_token;
}

-- The abstract view: the entry of an infohash.
abbrev pub entry : Bytes → Db → Option Entry
entry h db = map_option entry_of (find_release h db.releases)

abbrev pub fresh_entry : Entry
fresh_entry = record {
  status = MatchStatus.unmatched;
  ref = none;
  attempts = 0;
  lease = none;
  token = 0;
}

-- An entry at work: unmatched, under a lease that lives at the time.
pub record InHand (now : Time) (e : Entry) : Type 0 where
  pub unmatched : e.status ≡ MatchStatus.unmatched
  pub expires : Time
  pub leased : e.lease ≡ some expires
  pub alive : now < expires

-- No lease of the entry lives at the time.
abbrev pub IsFree : Time → Entry → Type 0
IsFree now e = (t : Time) → e.lease ≡ some t → t ≤ now

-- What one operation at a time may do to an entry, for a cap of m attempts: it appears with the
-- first evidence; while unmatched and free it is leased under the next token, or exhausted if the
-- cap is reached; in hand it is matched with a valid ref, suppressed, failed, or failed for the last
-- time. All else leaves it alone.
pub data Moves (m : ℕ) (now : Time) (before after : Option Entry) : Type 0 where
  stays : after ≡ before → Moves m now before after
  appears : before ≡ none → after ≡ some fresh_entry → Moves m now before after
  leases :
      (e : Entry) (expires : Time)
      → before ≡ some e
      → e.status ≡ MatchStatus.unmatched
      → e.attempts < m
      → IsFree now e
      → after ≡ some (record e { lease = some expires; token = e.token + 1 })
      → Moves m now before after
  expires_spent :
      (e : Entry)
      → before ≡ some e
      → e.status ≡ MatchStatus.unmatched
      → m ≤ e.attempts
      → IsFree now e
      → after ≡ some (record e { status = MatchStatus.exhausted; lease = none })
      → Moves m now before after
  matches :
      (e : Entry) (ref : Bytes)
      → before ≡ some e
      → InHand now e
      → validate_ref ref ≡ ok tt
      → after ≡ some (record e { status = MatchStatus.matched; ref = some ref; lease = none })
      → Moves m now before after
  suppresses :
      (e : Entry)
      → before ≡ some e
      → InHand now e
      → after ≡ some (record e { status = MatchStatus.suppressed; ref = none; lease = none })
      → Moves m now before after
  misses :
      (e : Entry)
      → before ≡ some e
      → InHand now e
      → e.attempts + 1 < m
      → after ≡ some (record e { attempts = e.attempts + 1 })
      → Moves m now before after
  gives_up :
      (e : Entry)
      → before ≡ some e
      → InHand now e
      → m ≤ e.attempts + 1
      → after
        ≡ some (record e {
          status = MatchStatus.exhausted;
          attempts = e.attempts + 1;
          ref = none;
          lease = none;
        })
      → Moves m now before after

-- The view after a row by row update that keeps the keys.
pub view-map :
    (h : Bytes) (f : Release → Release) (rs : List Release) (o : Option Release)
    → ((r : Release) → (f r).infohash ≡ r.infohash)
    → find_release h rs ≡ o
    → map_option entry_of (find_release h (map f rs)) ≡ map_option (λ r. entry_of (f r)) o
view-map h f rs none same e = rw (find-map h f same rs, e) refl
view-map h f rs (some r) same e = rw (find-map h f same rs, e) refl

-- Such an update is not seen if it keeps what an entry shows.
pub view-kept :
    (h : Bytes) (f : Release → Release) (rs : List Release)
    → ((r : Release) → (f r).infohash ≡ r.infohash)
    → ((r : Release) → entry_of (f r) ≡ entry_of r)
    → map_option entry_of (find_release h (map f rs)) ≡ map_option entry_of (find_release h rs)
view-kept h f rs same shown = elim (Option-cases (find_release h rs)) [
  | inl n ↦ view-map h f rs none same n ∙ rw n refl
  | inr (r, s) ↦ view-map h f rs (some r) same s ∙ (ap some (shown r) ∙ rw s refl)
]
