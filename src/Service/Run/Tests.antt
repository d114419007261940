-- ===== src/Service/Run/Tests.antt =====
-- Runs of the service.
use takuhai.Base.{
  Bytes, [], bytes_eq, codes, false, if◌then◌else◌, none, refl, true, ◌++◌, ◌∷◌, ◌≡◌,
}
use takuhai.Config.{validate}
use takuhai.Service.Run.{
  Overrides, World, closed, signalled, shutdown, force_close, serve_until, migrate, connect, bind,
  serve, close_store, clean, run, checked, config_of, parse_log_level, start, with_store, run_http,
  exit_of,
}
use takuhai.Store.Invariant.{Inv}
use takuhai.Store.Reach.{initially, empty_db}
use takuhai.Service.Run.Order.{run-Serves}

-- Only the address of the database is set.
abbrev one_variable : Bytes → Bytes
one_variable name = if bytes_eq name (codes "TAKUHAI_DATABASE_URL") then codes "postgres://" else []

abbrev no_overrides : Overrides
no_overrides = record {
  show_version = false;
  addr = none;
  database_url = none;
  log_level = none;
  queue_max_attempts = none;
}

abbrev slow_stop : World
slow_stop = record {
  env = one_variable;
  overrides = no_overrides;
  migrates = true;
  connects = true;
  binds = true;
  ending = signalled false closed;
}

slow_stop-run :
    run slow_stop
    ≡ (migrate ∷ connect ∷ bind ∷ serve ∷ shutdown ∷ force_close ∷ close_store ∷ [], clean)
unfolding run checked config_of validate parse_log_level start with_store run_http serve_until
    exit_of
slow_stop-run = refl

run-Serves_example :
    (false ≡ false)
    × (validate (config_of one_variable no_overrides) ≡ none)
    × ((true ≡ true)
        × (true ≡ true)
        × (true ≡ true)
        × ((run slow_stop).0
            ≡ migrate
              ∷ connect
              ∷ bind
              ∷ serve
              ∷ ((serve_until (signalled false closed)).0 ++ close_store ∷ [])))
    × Inv (config_of one_variable no_overrides).queue_max_attempts empty_db
unfolding run checked config_of validate parse_log_level start with_store run_http serve_until
    exit_of
run-Serves_example = run-Serves slow_stop empty_db tt initially
