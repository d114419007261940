-- ===== src/Config/Serving.antt =====
-- A store that is opened with a valid configuration keeps its invariant.
use takuhai.Base.{arith, false, is_nonpos, none, refl, subst, ◌≡◌}
use takuhai.Config.{Config, validate}
use takuhai.Store.{Db}
use takuhai.Store.Invariant.{Inv}
use takuhai.Store.Reach.{Reachable, Reachable-Inv}
use takuhai.Store.Claim.{queue_max_attempts}

validate-attempts : (c : Config) → validate c ≡ none → is_nonpos c.queue_max_attempts ≡ false
unfolding validate
validate-attempts c e = ground (arith, e)

-- With a configuration that is valid, the cap on attempts is the configured one, and every table
-- that the store reaches with it satisfies the invariant.
pub validate-Inv :
    (c : Config) (db : Db)
    → validate c ≡ none
    → Reachable (queue_max_attempts c.queue_max_attempts) db
    → (queue_max_attempts c.queue_max_attempts ≡ c.queue_max_attempts) × Inv c.queue_max_attempts db
unfolding queue_max_attempts
validate-Inv c db e r =
    let some_attempts = validate-attempts c e in
    let same : queue_max_attempts c.queue_max_attempts ≡ c.queue_max_attempts =
      rw some_attempts refl in
    (
      same,
      Reachable-Inv c.queue_max_attempts (ground (arith, some_attempts)) db
          (subst (λ m. Reachable m db) same r),
    )
