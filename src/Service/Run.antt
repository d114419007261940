-- ===== src/Service/Run.antt =====
-- cmd/takuhai/main.go: run, from the flags to the end of the process, as the steps that it takes.
pub mod Order
mod Tests
use takuhai.Base.{
  Bool, Bytes, Int64, List, Option, [], bytes_eq, codes, false, if◌then◌else◌, none, some, true,
  ◌++◌, ◌∷◌,
}
use takuhai.Config.{Config, ConfigError, validate}
use takuhai.Stdlib.Decimal.{atoi}

-- What the command line sets.
pub record Overrides : Type 0 where
  pub show_version : Bool
  pub addr : Option Bytes
  pub database_url : Option Bytes
  pub log_level : Option Bytes
  pub queue_max_attempts : Option Int64

abbrev pub given_or {ℓ} : {A : Type ℓ} → A → Option A → A
given_or default none = default
given_or default (some a) = a

-- stringFlag: os.Getenv gives the empty text for a variable that is not set.
abbrev pub string_flag : (Bytes → Bytes) → Bytes → Bytes → Option Bytes → Bytes
string_flag env name default given =
    given_or (if bytes_eq (env name) [] then default else env name) given

-- intFlag: a text that is no integer is passed over.
abbrev pub int_flag : (Bytes → Bytes) → Bytes → Int64 → Option Int64 → Int64
int_flag env name default given =
    given_or (if bytes_eq (env name) [] then default else given_or default (atoi (env name))) given

pub config_of : (Bytes → Bytes) → Overrides → Config
config_of env o = record {
  addr = string_flag env (codes "TAKUHAI_ADDR") (codes ":8080") o.addr;
  database_url = string_flag env (codes "TAKUHAI_DATABASE_URL") [] o.database_url;
  log_level = string_flag env (codes "TAKUHAI_LOG_LEVEL") (codes "info") o.log_level;
  queue_max_attempts = int_flag env (codes "TAKUHAI_QUEUE_MAX_ATTEMPTS") 3 o.queue_max_attempts;
}

pub data Level : Type 0 where
  debug info warn error : Level

-- parseLogLevel
pub parse_log_level : Bytes → Option Level
parse_log_level s =
    if bytes_eq s (codes "debug")
    then some debug
    else if bytes_eq s (codes "info")
    then some info
    else if bytes_eq s (codes "warn")
    then some warn
    else if bytes_eq s (codes "error")
    then some error
    else none

pub data Action : Type 0 where
  print_version migrate connect bind serve shutdown force_close close_store : Action

pub data Exit : Type 0 where
  clean : Exit
  bad_config : ConfigError → Exit
  bad_level migration_failure connect_failure bind_failure server_failure : Exit

-- How the server ends: its loop reports the close that a shutdown asks for, no error, or another.
pub data Report : Type 0 where
  closed silent broken : Report

-- A signal, with whether the requests drain in time and what the loop then reports; or a report that
-- comes by itself.
pub data Ending : Type 0 where
  signalled : Bool → Report → Ending
  stopped : Report → Ending

-- What the process meets.
pub record World : Type 0 where
  pub env : Bytes → Bytes
  pub overrides : Overrides
  pub migrates : Bool
  pub connects : Bool
  pub binds : Bool
  pub ending : Ending

abbrev pub Traced : Type 0
Traced = List Action × Exit

abbrev pub then_do : Action → Traced → Traced
then_do a (actions, exit) = (a ∷ actions, exit)

pub exit_of : Report → Exit
exit_of closed = clean
exit_of silent = clean
exit_of broken = server_failure

-- The select at the end of runHTTP.
pub serve_until : Ending → Traced
unfolding exit_of
serve_until (signalled true r) = (shutdown ∷ [], exit_of r)
serve_until (signalled false r) = (shutdown ∷ force_close ∷ [], exit_of r)
serve_until (stopped r) = ([], exit_of r)

pub run_http : World → Traced
unfolding serve_until
run_http w =
    then_do bind (if w.binds then then_do serve (serve_until w.ending) else ([], bind_failure))

-- The store is closed when run returns.
pub with_store : World → Traced
unfolding run_http
with_store w = let (actions, exit) = run_http w in (actions ++ close_store ∷ [], exit)

pub start : World → Traced
unfolding with_store
start w = then_do migrate (
    if w.migrates
    then then_do connect (if w.connects then with_store w else ([], connect_failure))
    else ([], migration_failure))

pub checked : World → Config → Traced
unfolding start parse_log_level
checked w c = elim (validate c) [
  | some e ↦ ([], bad_config e)
  | none ↦ elim (parse_log_level c.log_level) [ none ↦ ([], bad_level) | some level ↦ start w ]
]

pub run : World → Traced
unfolding checked config_of
run w =
    if w.overrides.show_version
    then (print_version ∷ [], clean)
    else checked w (config_of w.env w.overrides)
