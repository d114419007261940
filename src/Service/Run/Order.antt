-- ===== src/Service/Run/Order.antt =====
-- The service serves only what has been checked and migrated.
use takuhai.Base.{
  Bool-cases, Bytes, List, Option-cases, [], any_if, arith, bytes_eq, false, inl, inr, none, refl,
  some, true, ◌++◌, ◌∷◌, ◌≡◌, ◌≢◌,
}
use takuhai.Config.{Config, validate, valid_log_levels}
use takuhai.Config.Serving.{validate-Inv}
use takuhai.Store.{Db}
use takuhai.Store.Claim.{queue_max_attempts}
use takuhai.Store.Invariant.{Inv}
use takuhai.Store.Reach.{Reachable}
use takuhai.Service.Run.{
  Action, Level, World, migrate, connect, bind, serve, close_store, config_of, parse_log_level, run,
  checked, start, with_store, run_http, serve_until,
}

known-level : (s : Bytes) → any_if (bytes_eq s) valid_log_levels ≡ true → parse_log_level s ≢ none
unfolding parse_log_level
known-level s h e = ground arith

-- A configuration that is valid has a log level that is known.
validate-level :
    (c : Config) → validate c ≡ none → (level : Level) × (parse_log_level c.log_level ≡ some level)
unfolding validate
validate-level c v = elim (Option-cases (parse_log_level c.log_level)) [
  | inr found ↦ found
  | inl n ↦ absurd (known-level c.log_level (ground (arith, v)) n)
]

abbrev pub Serves : List Action → Type 0
Serves [] = ⊥
Serves (serve ∷ actions) = Unit {0}
Serves (a ∷ actions) = Serves actions

-- What the steps behind a valid configuration need before they serve.
abbrev Ready : World → List Action → Type 0
Ready w actions =
    (w.migrates ≡ true)
    × (w.connects ≡ true)
    × (w.binds ≡ true)
    × (actions ≡ migrate ∷ connect ∷ bind ∷ serve ∷ ((serve_until w.ending).0 ++ close_store ∷ []))

start-Serves : (w : World) → Serves (start w).0 → Ready w (start w).0
unfolding start with_store run_http
start-Serves w s = elim (Bool-cases w.migrates) [
  | inr n ↦ absurd (rw (n, start) at s)
  | inl m ↦ elim (Bool-cases w.connects) [
    | inr n ↦ absurd (rw (m, n, start) at s)
    | inl c ↦ elim (Bool-cases w.binds) [
      | inr n ↦ absurd (rw (m, c, n, start) at s)
      | inl b ↦ (m, c, b, rw (m, c, b, start) refl)
    ]
  ]
]

run-Ready :
    (w : World)
    → Serves (run w).0
    → (w.overrides.show_version ≡ false)
      × (validate (config_of w.env w.overrides) ≡ none)
      × Ready w (run w).0
unfolding run checked
run-Ready w s = elim (Bool-cases w.overrides.show_version) [
  | inl v ↦ absurd (rw (v, run) at s)
  | inr plain ↦ elim (Option-cases (validate (config_of w.env w.overrides))) [
    | inr (e, bad) ↦ absurd (rw (plain, bad, run, checked) at s)
    | inl valid ↦
        let (level, found) = validate-level (config_of w.env w.overrides) valid in
        (
          plain,
          valid,
          rw (plain, valid, found, run, checked)
              (start-Serves w (rw (plain, valid, found, run, checked) at s)),
        )
  ]
]

-- A run that comes to serve requests was not asked for its version, its configuration is valid, its
-- database was migrated before and opened, its address bound; the store is closed in the end; and
-- every table that its store reaches satisfies the invariant.
pub run-Serves :
    (w : World) (db : Db)
    → Serves (run w).0
    → Reachable (queue_max_attempts (config_of w.env w.overrides).queue_max_attempts) db
    → (w.overrides.show_version ≡ false)
      × (validate (config_of w.env w.overrides) ≡ none)
      × Ready w (run w).0
      × Inv (config_of w.env w.overrides).queue_max_attempts db
run-Serves w db s r =
    let (plain, valid, ready) = run-Ready w s in
    (plain, valid, ready, (validate-Inv (config_of w.env w.overrides) db valid r).1)
