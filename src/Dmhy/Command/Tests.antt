-- ===== src/Dmhy/Command/Tests.antt =====
-- Command lines of takuhai-dmhy.
use takuhai.Base.{
  Bytes, List, Option, [], bytes_eq, codes, false, if◌then◌else◌, none, refl, some, ◌∷◌, ◌≡◌,
}
use takuhai.Command.{
  Env, failed, given, bad_variable, unknown_command, env_string, env_int, env_float, env_duration,
  env_parsed, parsed_variable, check_serve, slog_level, serve_until, signalled, info,
  shutdown_failure,
}
use takuhai.Crawl.Lookback.Tests.{no_fractions}
use takuhai.Dmhy.Command.{
  ServeCmd, ServeFlags, ParseFlags, overridden, sort_id_variable, serve_defaults, checked,
  parse_serve, command_of,
}
use takuhai.Stdlib.Decimal.{atoi}
use takuhai.Store.{Float64}

abbrev no_floats : Bytes → Option Float64
no_floats text = none

-- One variable is set.
abbrev sorted_env : Env
sorted_env name = if bytes_eq name sort_id_variable then some (codes "31") else none

abbrev level_flag : ServeFlags
level_flag = record {
  addr = none;
  base_url = none;
  sort_id = none;
  rate_rps = none;
  cache_ttl = some 0;
  log_level = some (codes "warn");
  n_arg = 0;
}

abbrev started : ServeCmd
started = record {
  addr = codes ":8081";
  base_url = codes "https://share.dmhy.org";
  sort_id = 31;
  rate_rps = 7;
  cache_ttl = 0;
  log_level = codes "warn";
}

parse_serve-started :
    parse_serve no_floats 7 no_fractions sorted_env (some level_flag) ≡ given started
unfolding parse_serve serve_defaults checked overridden env_string env_int env_float env_duration
    env_parsed parsed_variable check_serve atoi
parse_serve-started = refl

abbrev bad_env : Env
bad_env name = some (codes "2x")

no_flags : List Bytes → Option ServeFlags
no_flags args = none

no_names : List Bytes → Option ParseFlags
no_names args = some (record { out = none; keep_going = false; args = [] })

refusals :
    (command_of no_floats 7 no_fractions no_flags no_names bad_env (codes "serve" ∷ [])
      ≡ failed (bad_variable sort_id_variable))
    × (command_of no_floats 7 no_fractions no_flags no_names bad_env (codes "stop" ∷ [])
        ≡ failed (unknown_command (codes "stop")))
    × (slog_level (codes "other") ≡ info)
    × (serve_until (signalled false) ≡ some shutdown_failure)
unfolding command_of parse_serve serve_defaults env_int env_parsed parsed_variable atoi slog_level
    serve_until
refusals = (refl, refl, refl, refl)
