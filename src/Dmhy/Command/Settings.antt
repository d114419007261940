-- ===== src/Dmhy/Command/Settings.antt =====
-- The settings of a server that is started.
use takuhai.Base.{Bytes, Option, ap, none, refl, some, subst, sym, true, ℕ, ◌∙◌, ◌≡◌}
use takuhai.Command.{Env, given, env_int, env_float, env_duration, known_level, given_or}
use takuhai.Command.Origin.{
  Origin, >>=-eq-given, given-injective, failed-ne-given, variable-Origin, check_serve-given,
}
use takuhai.Dmhy.Command.{
  ServeCmd, ServeFlags, overridden, ten_minutes, sort_id_variable, rate_rps_variable,
  cache_ttl_variable, serve_defaults, checked, parse_serve,
}
use takuhai.Stdlib.Decimal.{atoi}
use takuhai.Stdlib.Duration.{parse_duration}
use takuhai.Store.{Float64}

module _ (parse_float : Bytes → Option Float64) (half : Float64) (scaled : ℕ → ℕ → ℕ → ℕ) where
  -- Flags that parse and a server command that comes of them: its log level is known, and its sort_id,
  -- its rate and its cache's lifetime are those of their flags, or else what their variables spell,
  -- or else the defaults 2, half and ten minutes.
  parse_serve_lem :
      (env : Env) (flags : Option ServeFlags) (cmd : ServeCmd)
      → parse_serve parse_float half scaled env flags ≡ given cmd
      → (f : ServeFlags) × (flags ≡ some f)
        × (known_level cmd.log_level ≡ true)
        × Origin atoi env sort_id_variable 2 f.sort_id cmd.sort_id
        × Origin parse_float env rate_rps_variable half f.rate_rps cmd.rate_rps
        × Origin
            (parse_duration scaled)
            env
            cache_ttl_variable
            ten_minutes
            f.cache_ttl
            cmd.cache_ttl
  unfolding parse_serve serve_defaults env_int env_float env_duration checked overridden
  parse_serve_lem env none cmd h =
      let (c, made, refused) =
        >>=-eq-given (serve_defaults parse_float half scaled env)
          (checked parse_float half scaled none) h in
      absurd (failed-ne-given refused)
  parse_serve_lem env (some f) cmd h =
      let (c, made, taken) =
        >>=-eq-given (serve_defaults parse_float half scaled env)
          (checked parse_float half scaled (some f)) h in
      let (sort_id, a, made1) = >>=-eq-given (env_int env sort_id_variable 2) _ made in
      let (rate, b, made2) =
        >>=-eq-given (env_float parse_float env rate_rps_variable half) _ made1 in
      let (ttl, d, made3) =
        >>=-eq-given (env_duration scaled env cache_ttl_variable ten_minutes) _ made2 in
      let same = given-injective made3 in
      let (level, out) = check_serve-given f.n_arg _ (overridden f c) taken in
      (
        f,
        refl,
        ap (λ (x : ServeCmd). known_level x.log_level) (sym out) ∙ level,
        subst (Origin atoi env sort_id_variable 2 f.sort_id)
            (ap (λ (x : ServeCmd). given_or x.sort_id f.sort_id) same
              ∙ ap (λ (x : ServeCmd). x.sort_id) out)
            (variable-Origin atoi env sort_id_variable 2 sort_id f.sort_id a),
        subst (Origin parse_float env rate_rps_variable half f.rate_rps)
            (ap (λ (x : ServeCmd). given_or x.rate_rps f.rate_rps) same
              ∙ ap (λ (x : ServeCmd). x.rate_rps) out)
            (variable-Origin parse_float env rate_rps_variable half rate f.rate_rps b),
        subst (Origin (parse_duration scaled) env cache_ttl_variable ten_minutes f.cache_ttl)
            (ap (λ (x : ServeCmd). given_or x.cache_ttl f.cache_ttl) same
              ∙ ap (λ (x : ServeCmd). x.cache_ttl) out)
            (variable-Origin (parse_duration scaled) env cache_ttl_variable ten_minutes ttl
              f.cache_ttl d),
      )
