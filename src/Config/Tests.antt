-- ===== src/Config/Tests.antt =====
-- Configurations, valid and not.
use takuhai.Base.{codes, none, refl, some, ◌≡◌}
use takuhai.Config.{Config, validate, unknown_log_level}

abbrev plain : Config
plain = record {
  addr = codes ":8080";
  database_url = codes "postgres://";
  log_level = codes "info";
  queue_max_attempts = 3;
}

verdicts :
    (validate plain ≡ none)
    × (validate (record plain { log_level = codes "loud" }) ≡ some unknown_log_level)
unfolding validate
verdicts = (refl, refl)
