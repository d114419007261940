-- ===== src/Nyaa/Command.antt =====
-- sources/nyaa/cmd/takuhai-nyaa/main.go: the command serve, up to where it runs.
use takuhai.Base.{Bytes, List, Option, [], bytes_eq, codes, if◌then◌else◌, none, some, ℕ, ◌∷◌}
use takuhai.Command.{
  Env, Setup, failed, given, missing_command, unknown_command, bad_flags, env_string, env_float,
  check_serve, given_or, asks_version, ◌>>=◌,
}
use takuhai.Nyaa.Server.{Search}
use takuhai.Store.{Float64}

pub record ServeCmd : Type 0 where
  pub addr : Bytes
  pub base_url : Bytes
  pub search : Search
  pub rate_rps : Float64
  pub log_level : Bytes

-- What package flag finds on the command line, besides positional arguments.
pub record ServeFlags : Type 0 where
  pub addr : Option Bytes
  pub base_url : Option Bytes
  pub query : Option Bytes
  pub category : Option Bytes
  pub filter : Option Bytes
  pub rate_rps : Option Float64
  pub log_level : Option Bytes
  pub n_arg : ℕ

pub overridden : ServeFlags → ServeCmd → ServeCmd
overridden f c = record {
  addr = given_or c.addr f.addr;
  base_url = given_or c.base_url f.base_url;
  search = record {
    query = given_or c.search.query f.query;
    category = given_or c.search.category f.category;
    filter = given_or c.search.filter f.filter;
  };
  rate_rps = given_or c.rate_rps f.rate_rps;
  log_level = given_or c.log_level f.log_level;
}

pub data Command : Type 0 where
  print_version : Command
  serve : ServeCmd → Command

module _ (parse_float : Bytes → Option Float64) (half : Float64)
    (serve_flags : List Bytes → Option ServeFlags) where
  pub serve_defaults : Env → Setup ServeCmd
  serve_defaults env = do
    rate_rps ← env_float parse_float env (codes "TAKUHAI_NYAA_RATE_RPS") half
    given (record {
      addr = env_string env (codes "TAKUHAI_NYAA_ADDR") (codes ":8082");
      base_url = env_string env (codes "TAKUHAI_NYAA_BASE_URL") (codes "https://nyaa.si");
      search = record {
        query = env_string env (codes "TAKUHAI_NYAA_QUERY") [];
        category = env_string env (codes "TAKUHAI_NYAA_CATEGORY") (codes "1_0");
        filter = env_string env (codes "TAKUHAI_NYAA_FILTER") (codes "0");
      };
      rate_rps = rate_rps;
      log_level = env_string env (codes "TAKUHAI_NYAA_LOG_LEVEL") (codes "info");
    })

  pub checked : Option ServeFlags → ServeCmd → Setup ServeCmd
  unfolding overridden
  checked none defaults = failed bad_flags
  checked (some f) defaults =
      let cmd = overridden f defaults in check_serve f.n_arg cmd.log_level cmd

  -- parseServe
  pub parse_serve : Env → List Bytes → Setup ServeCmd
  unfolding serve_defaults checked
  parse_serve env args = serve_defaults env >>= checked (serve_flags args)

  -- run, up to the command's own Run.
  pub command_of : Env → List Bytes → Setup Command
  unfolding parse_serve
  command_of env [] = failed missing_command
  command_of env (arg ∷ args) =
      if asks_version arg
      then given print_version
      else if bytes_eq arg (codes "serve")
      then (parse_serve env args >>= λ c. given (serve c))
      else failed (unknown_command arg)
