-- ===== src/Store/Reach.antt =====
-- Runs of the store: any sequence of ingests, claims and submissions, from the empty tables, each
-- at its own time, with its own database failures and rows locked by others.
use takuhai.Base.{Bool, Bytes, Time, [], ℕ, ◌<◌}
use takuhai.Store.{Db, Faults}
use takuhai.Store.Invariant.{Inv}
use takuhai.Store.Ingest.{IngestParams, ingest_n}
use takuhai.Store.Ingest.Keeps.{ingest_n-Inv}
use takuhai.Store.Claim.{ClaimParams, claim}
use takuhai.Store.Claim.Keeps.{claim-Inv}
use takuhai.Store.Submit.{SubmitParams, submit}
use takuhai.Store.Submit.Keeps.{submit-Inv}

abbrev pub empty_db : Db
empty_db = record {
  releases = [];
  raw_items = [];
  match_events = [];
  next_item = 1;
  next_event = 1;
}

-- One operation at a time takes the tables to the next.
pub data Step (m : ℕ) (now : Time) : Db → Db → Type 0 where
  ingested :
      (fails : Faults) (p : IngestParams) (db : Db) → Step m now db (ingest_n fails now p db).0
  claimed :
      (fails : Faults) (locked : Bytes → Bool) (p : ClaimParams) (db : Db)
      → Step m now db (claim fails m now locked p db).0
  submitted :
      (fails : Faults) (p : SubmitParams) (db : Db) → Step m now db (submit fails m now p db).0

pub data Reachable (m : ℕ) : Db → Type 0 where
  initially : Reachable m empty_db
  then_step : (now : Time) (db db' : Db) → Reachable m db → Step m now db db' → Reachable m db'

module _ (m : ℕ) (pos : 0 < m) where
  pub Step-Inv : (now : Time) (db db' : Db) → Step m now db db' → Inv m db → Inv m db'
  Step-Inv now _ _ (ingested fails p db) v = ingest_n-Inv m pos fails now p db v
  Step-Inv now _ _ (claimed fails locked p db) v = claim-Inv fails m now locked p db v
  Step-Inv now _ _ (submitted fails p db) v = submit-Inv fails m now p db v

  -- With a positive cap, every reachable table has unique infohashes, all canonical, and every row has the
  -- shape of its status.
  pub Reachable-Inv : (db : Db) → Reachable m db → Inv m db
  Reachable-Inv _ initially = record { keys = tt; rows = tt }
  Reachable-Inv _ (then_step now db db' before step) =
      Step-Inv now db db' step (Reachable-Inv db before)
