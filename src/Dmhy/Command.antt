-- ===== src/Dmhy/Command.antt =====
-- sources/dmhy/cmd/takuhai-dmhy/main.go: the commands serve and parse, up to where they run.
pub mod Settings
mod Tests
use takuhai.Base.{
  Bool, Bytes, Int64, List, Option, [], bytes_eq, codes, if◌then◌else◌, none, some, ℕ, ◌∷◌,
}
use takuhai.Command.{
  Env, Setup, failed, given, Failure, missing_command, unknown_command, bad_flags, no_files,
  env_string, env_int, env_float, env_duration, check_serve, given_or, asks_version, ◌>>=◌,
}
use takuhai.Dmhy.Jsonl.{ParseCmd}
use takuhai.Store.{Float64}

pub record ServeCmd : Type 0 where
  pub addr : Bytes
  pub base_url : Bytes
  pub sort_id : Int64
  pub rate_rps : Float64
  pub cache_ttl : Int64
  pub log_level : Bytes

-- What package flag finds on the command line, besides positional arguments.
pub record ServeFlags : Type 0 where
  pub addr : Option Bytes
  pub base_url : Option Bytes
  pub sort_id : Option Int64
  pub rate_rps : Option Float64
  pub cache_ttl : Option Int64
  pub log_level : Option Bytes
  pub n_arg : ℕ

-- The flags over the defaults.
pub overridden : ServeFlags → ServeCmd → ServeCmd
overridden f c = record {
  addr = given_or c.addr f.addr;
  base_url = given_or c.base_url f.base_url;
  sort_id = given_or c.sort_id f.sort_id;
  rate_rps = given_or c.rate_rps f.rate_rps;
  cache_ttl = given_or c.cache_ttl f.cache_ttl;
  log_level = given_or c.log_level f.log_level;
}

-- 10 * time.Minute
abbrev pub ten_minutes : Int64
ten_minutes = 600_000_000_000

abbrev pub sort_id_variable : Bytes
sort_id_variable = codes "TAKUHAI_DMHY_SORT_ID"

abbrev pub rate_rps_variable : Bytes
rate_rps_variable = codes "TAKUHAI_DMHY_RATE_RPS"

abbrev pub cache_ttl_variable : Bytes
cache_ttl_variable = codes "TAKUHAI_DMHY_CACHE_TTL"

-- The floats are those of strconv.ParseFloat, among them 0.5, and of time.ParseDuration.
module _ (parse_float : Bytes → Option Float64) (half : Float64) (scaled : ℕ → ℕ → ℕ → ℕ) where
  pub serve_defaults : Env → Setup ServeCmd
  serve_defaults env = do
    sort_id ← env_int env sort_id_variable 2
    rate_rps ← env_float parse_float env rate_rps_variable half
    cache_ttl ← env_duration scaled env cache_ttl_variable ten_minutes
    given (record {
      addr = env_string env (codes "TAKUHAI_DMHY_ADDR") (codes ":8081");
      base_url = env_string env (codes "TAKUHAI_DMHY_BASE_URL") (codes "https://share.dmhy.org");
      sort_id = sort_id;
      rate_rps = rate_rps;
      cache_ttl = cache_ttl;
      log_level = env_string env (codes "TAKUHAI_DMHY_LOG_LEVEL") (codes "info");
    })

  pub checked : Option ServeFlags → ServeCmd → Setup ServeCmd
  unfolding overridden
  checked none defaults = failed bad_flags
  checked (some f) defaults =
      let cmd = overridden f defaults in check_serve f.n_arg cmd.log_level cmd

  -- parseServe, on the flags if they parse.
  pub parse_serve : Env → Option ServeFlags → Setup ServeCmd
  unfolding serve_defaults checked
  parse_serve env flags = serve_defaults env >>= checked flags

-- What package flag finds for parse; --out and -o set one variable.
pub record ParseFlags : Type 0 where
  pub out : Option Bytes
  pub keep_going : Bool
  pub args : List Bytes

pub needs_files : ParseFlags → List Bytes → Setup ParseCmd
needs_files f [] = failed no_files
needs_files f (name ∷ names) =
    given
      (record { files = name ∷ names; out = given_or (codes "-") f.out; keep_going = f.keep_going })

-- parseParse
pub parse_parse : Option ParseFlags → Setup ParseCmd
unfolding needs_files
parse_parse none = failed bad_flags
parse_parse (some f) = needs_files f f.args

-- What a command line comes to.
pub data Command : Type 0 where
  print_version : Command
  serve : ServeCmd → Command
  parse : ParseCmd → Command

module _ (parse_float : Bytes → Option Float64) (half : Float64) (scaled : ℕ → ℕ → ℕ → ℕ)
    (serve_flags : List Bytes → Option ServeFlags)
    (parse_flags : List Bytes → Option ParseFlags) where
  -- run, up to the command's own Run.
  pub command_of : Env → List Bytes → Setup Command
  unfolding parse_serve parse_parse
  command_of env [] = failed missing_command
  command_of env (arg ∷ args) =
      if asks_version arg
      then given print_version
      else if bytes_eq arg (codes "serve")
      then (parse_serve parse_float half scaled env (serve_flags args) >>= λ c. given (serve c))
      else if bytes_eq arg (codes "parse")
      then (parse_parse (parse_flags args) >>= λ c. given (parse c))
      else failed (unknown_command arg)
