-- ===== src/Store/Lifecycle/Runs.antt =====
-- The store implements the queue of entries: every operation is a move of each entry, and what
-- follows for any run of operations.
use takuhai.Base.{
  Bytes, Option, Time, ap, arith, inl, inr, map_option, some, some-injective, subst, sym, ℕ, ◌<◌,
  ◌∙◌, ◌≡◌, ◌≢◌, ◌≤◌,
}
use takuhai.Errors.{Error, err}
use takuhai.Store.{Db, Faults, MatchStatus}
use takuhai.Store.Invariant.{Inv}
use takuhai.Store.Ingest.Moves.{ingest_n-Moves}
use takuhai.Store.Claim.Moves.{claim-Moves}
use takuhai.Store.Submit.{SubmitParams, submit}
use takuhai.Store.Submit.Moves.{submit-Moves}
use takuhai.Store.Submit.Keeps.{submit-cases}
use takuhai.Store.Submit.Fence.{submit-Holds}
use takuhai.Store.Reach.{Step, ingested, claimed, submitted, Step-Inv}
use takuhai.Store.Lifecycle.{
  Entry, entry, entry_of, Moves, stays, appears, leases, expires_spent, matches, suppresses, misses,
  gives_up,
}

-- Operations one after the other.
pub data Steps (m : ℕ) : Db → Db → Type 0 where
  no_step : (db : Db) → Steps m db db
  one_more :
      (now : Time) (db db' db'' : Db) → Step m now db db' → Steps m db' db'' → Steps m db db''

pub same_entry : (before : Option Entry) (x e : Entry) → before ≡ some x → before ≡ some e → x ≡ e
same_entry before x e was q = some-injective (sym was ∙ q)

same_status :
    (before : Option Entry) (e x : Entry)
    → before ≡ some e
    → before ≡ some x
    → x.status ≡ MatchStatus.unmatched
    → e.status ≡ MatchStatus.unmatched
same_status before e x q was u = ap (λ y. y.status) (sym (same_entry before x e was q)) ∙ u

module _ (m : ℕ) (pos : 0 < m) where
  -- The store refines the queue of entries: with a positive cap and under the invariant, an
  -- operation at a time is at that very time a move of the entry of every infohash.
  pub Step-Moves :
      (now : Time) (db db' : Db) (h : Bytes)
      → Inv m db
      → Step m now db db'
      → Moves m now (entry h db) (entry h db')
  Step-Moves now _ _ h v (ingested fails p db) = ingest_n-Moves m h fails now p db
  Step-Moves now _ _ h v (claimed fails locked p db) = claim-Moves fails m now locked p h db v
  Step-Moves now _ _ h v (submitted fails p db) = submit-Moves fails m now p h db

  pub Moves-settled :
      (now : Time) (before after : Option Entry) (e : Entry)
      → Moves m now before after
      → before ≡ some e
      → e.status ≢ MatchStatus.unmatched
      → after ≡ some e
  Moves-settled now before after e (stays same) q other = same ∙ q
  Moves-settled now before after e (appears gone new) q other = cc (gone, q)
  Moves-settled now before after e (leases x expires was u few free new) q other =
      absurd (other (same_status before e x q was u))
  Moves-settled now before after e (expires_spent x was u spent free new) q other =
      absurd (other (same_status before e x q was u))
  Moves-settled now before after e (matches x ref was held checked new) q other =
      absurd (other (same_status before e x q was held.unmatched))
  Moves-settled now before after e (suppresses x was held new) q other =
      absurd (other (same_status before e x q was held.unmatched))
  Moves-settled now before after e (misses x was held more new) q other =
      absurd (other (same_status before e x q was held.unmatched))
  Moves-settled now before after e (gives_up x was held last new) q other =
      absurd (other (same_status before e x q was held.unmatched))

  -- With a positive cap and under the invariant, an entry that is matched, suppressed or exhausted
  -- stays as it is, its token and its ref included, through any run of operations.
  pub settled_stays :
      (db db' : Db) (h : Bytes) (e : Entry)
      → Inv m db
      → Steps m db db'
      → entry h db ≡ some e
      → e.status ≢ MatchStatus.unmatched
      → entry h db' ≡ some e
  settled_stays _ _ h e v (no_step db) q other = q
  settled_stays _ _ h e v (one_more now db db' db'' step steps) q other =
      settled_stays db' db'' h e (Step-Inv m pos now db db' step v) steps
        (Moves-settled now (entry h db) (entry h db') e (Step-Moves now db db' h v step) q other)
        other

  -- What an entry has become: its token and its attempts have not gone back.
  abbrev pub Grown : Option Entry → Entry → Type 0
  Grown after e = (x : Entry) × (after ≡ some x) × (e.token ≤ x.token) × (e.attempts ≤ x.attempts)

  Moves-Grown :
      (now : Time) (before after : Option Entry) (e : Entry)
      → Moves m now before after
      → before ≡ some e
      → Grown after e
  Moves-Grown now before after e (stays same) q = (e, same ∙ q, omega arith, omega arith)
  Moves-Grown now before after e (appears gone new) q = cc (gone, q)
  Moves-Grown now before after e (leases x expires was u few free new) q =
      subst (Grown after) (same_entry before x e was q) (_, new, omega arith, omega arith)
  Moves-Grown now before after e (expires_spent x was u spent free new) q =
      subst (Grown after) (same_entry before x e was q) (_, new, omega arith, omega arith)
  Moves-Grown now before after e (matches x ref was held checked new) q =
      subst (Grown after) (same_entry before x e was q) (_, new, omega arith, omega arith)
  Moves-Grown now before after e (suppresses x was held new) q =
      subst (Grown after) (same_entry before x e was q) (_, new, omega arith, omega arith)
  Moves-Grown now before after e (misses x was held more new) q =
      subst (Grown after) (same_entry before x e was q) (_, new, omega arith, omega arith)
  Moves-Grown now before after e (gives_up x was held last new) q =
      subst (Grown after) (same_entry before x e was q) (_, new, omega arith, omega arith)

  Steps-Grown :
      (db db' : Db) (h : Bytes) (e : Entry)
      → Inv m db
      → Steps m db db'
      → entry h db ≡ some e
      → Grown (entry h db') e
  Steps-Grown _ _ h e v (no_step db) q = (e, q, omega arith, omega arith)
  Steps-Grown _ _ h e v (one_more now db db' db'' step steps) q =
      let (x, at_x, t, n) =
        Moves-Grown now (entry h db) (entry h db') e (Step-Moves now db db' h v step) q in
      let (y, at_y, t', n') =
        Steps-Grown db' db'' h x (Step-Inv m pos now db db' step v) steps at_x in
      (y, at_y, omega (arith, t, t'), omega (arith, n, n'))

  -- With a positive cap and under the invariant: once a token is behind the one of its entry, no
  -- submission with it succeeds any more, after whatever run of operations; it fails and changes
  -- nothing.
  pub superseded_forever :
      (fails : Faults) (now : Time) (p : SubmitParams) (db db' : Db) (e : Entry)
      → Inv m db
      → Steps m db db'
      → entry p.infohash db ≡ some e
      → p.claim_token < e.token
      → (x : Error) × (submit fails m now p db' ≡ (db', err x))
  superseded_forever fails now p db db' e v steps q old = elim (submit-cases fails m now p db') [
    | inr r ↦ r
    | inl (db'', done) ↦
        let (x, at_x, grown, _) = Steps-Grown db db' p.infohash e v steps q in
        let (r, _, found, held, _, _) = submit-Holds fails m now p db' db'' done in
        let shown : some (entry_of r) ≡ some x = sym (ap (map_option entry_of) found) ∙ at_x in
        let token : r.claim_token ≡ x.token = ap (λ y. y.token) (some-injective shown) in
        absurd (omega (arith, old, grown, token, held))
  ]
