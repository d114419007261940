-- ===== src/Command.antt =====
-- What the commands of the crawlers share: sources/dmhy/cmd/takuhai-dmhy/main.go, of which
-- sources/nyaa/cmd/takuhai-nyaa/main.go repeats the parts that it needs.
pub mod Origin
use takuhai.Base.{
  Bool, Bytes, Int64, Option, [], any_if, bytes_eq, codes, false, if◌then◌else◌, ltb, none, some,
  true, ℕ, ◌∷◌,
}
use takuhai.Stdlib.Decimal.{atoi}
use takuhai.Stdlib.Duration.{parse_duration}
use takuhai.Store.{Float64}

-- Why a command does not come up.
pub data Failure : Type 0 where
  missing_command bad_flags positional_args no_files : Failure
  unknown_command : Bytes → Failure
  bad_variable : Bytes → Failure
  unknown_level : Bytes → Failure
  server_failure shutdown_failure : Failure

pub data Setup {ℓ} (A : Type ℓ) : Type ℓ where
  failed : Failure → Setup A
  given : A → Setup A

infixl 5 ◌>>=◌
abbrev pub ◌>>=◌ {ℓ κ} : {A : Type ℓ} {B : Type κ} → Setup A → (A → Setup B) → Setup B
failed why >>= next = failed why
given a >>= next = next a

-- os.LookupEnv
abbrev pub Env : Type 0
Env = Bytes → Option Bytes

-- envString
unfoldable pub env_string : Env → Bytes → Bytes → Bytes
env_string env name default = elim (env name) [ none ↦ default | some v ↦ v ]

module _ {ℓ} {A : Type ℓ} (parse : Bytes → Option A) where
  unfoldable pub parsed_variable : Bytes → Bytes → Setup A
  parsed_variable name text = elim (parse text) [
    | none ↦ failed (bad_variable name)
    | some a ↦ given a
  ]

  -- A variable that is not set gives the default, and one that cannot be parsed fails.
  unfoldable pub env_parsed : Env → Bytes → A → Setup A
  unfolding parsed_variable
  env_parsed env name default = elim (env name) [
    | none ↦ given default
    | some text ↦ parsed_variable name text
  ]

-- envInt
unfoldable pub env_int : Env → Bytes → Int64 → Setup Int64
unfolding env_parsed
env_int = env_parsed atoi

-- envFloat, over strconv.ParseFloat
unfoldable pub env_float : (Bytes → Option Float64) → Env → Bytes → Float64 → Setup Float64
unfolding env_parsed
env_float parse_float = env_parsed parse_float

-- envDuration
unfoldable pub env_duration : (ℕ → ℕ → ℕ → ℕ) → Env → Bytes → Int64 → Setup Int64
unfolding env_parsed
env_duration scaled = env_parsed (parse_duration scaled)

pub data Level : Type 0 where
  debug info warn error : Level

-- slogLevel
unfoldable pub slog_level : Bytes → Level
slog_level s =
    if bytes_eq s (codes "debug")
    then debug
    else if bytes_eq s (codes "warn")
    then warn
    else if bytes_eq s (codes "error")
    then error
    else info

abbrev pub known_level : Bytes → Bool
known_level s =
    any_if (bytes_eq s) (codes "debug" ∷ codes "info" ∷ codes "warn" ∷ codes "error" ∷ [])

-- The checks behind a flag set that was parsed: no positional arguments, and a known log level.
unfoldable pub check_serve {ℓ} : {A : Type ℓ} → ℕ → Bytes → A → Setup A
check_serve n_arg level cmd =
    if ltb 0 n_arg
    then failed positional_args
    else if known_level level
    then given cmd
    else failed (unknown_level level)

-- How the server of a crawler ends: its loop fails, or a signal comes and it drains in time or not.
pub data Ending : Type 0 where
  loop_failed : Ending
  signalled : Bool → Ending

-- The select at the end of Run.
unfoldable pub serve_until : Ending → Option Failure
serve_until loop_failed = some server_failure
serve_until (signalled true) = none
serve_until (signalled false) = some shutdown_failure

abbrev pub given_or {ℓ} : {A : Type ℓ} → A → Option A → A
given_or default none = default
given_or default (some a) = a

abbrev pub asks_version : Bytes → Bool
asks_version arg =
    any_if (bytes_eq arg) (codes "--version" ∷ codes "-version" ∷ codes "version" ∷ [])
