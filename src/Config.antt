-- ===== src/Config.antt =====
-- internal/config/config.go: the checks on the configuration.
pub mod Serving
mod Tests
use takuhai.Base.{
  Bytes, Int64, List, Option, [], any_if, bytes_eq, codes, if◌then◌else◌, is_nonpos, none, not,
  some, ◌∷◌,
}

pub record Config : Type 0 where
  pub addr : Bytes
  pub database_url : Bytes
  pub log_level : Bytes
  pub queue_max_attempts : Int64

pub data ConfigError : Type 0 where
  no_database_url unknown_log_level no_attempts : ConfigError

abbrev pub valid_log_levels : List Bytes
valid_log_levels = codes "debug" ∷ codes "info" ∷ codes "warn" ∷ codes "error" ∷ []

-- Validate: the first check that fails, if one does.
unfoldable pub validate : Config → Option ConfigError
validate c =
    if bytes_eq c.database_url []
    then some no_database_url
    else if not (any_if (bytes_eq c.log_level) valid_log_levels)
    then some unknown_log_level
    else if is_nonpos c.queue_max_attempts
    then some no_attempts
    else none
