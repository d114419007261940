-- ===== src/Crawl/Lookback/Tests.antt =====
-- Runs of ParseLookback.
use takuhai.Base.{arith, codes, refl, ℕ, ◌≡◌}
use takuhai.Errors.{ok, err, malformed_lookback}
use takuhai.Stdlib.Decimal.{atoi}
use takuhai.Stdlib.Duration.{
  parse_duration, terms, term, leading_int, starts_digit, term_unit, take_unit, point, unit_of,
  term_value, starts_point,
}
use takuhai.Stdlib.Decimal.{itoa}
use takuhai.Crawl.Lookback.Print.{lookback-itoa}
use takuhai.Crawl.Lookback.{
  parse_lookback, total, span_digits, prefix_group, group_value, remainder, unit_after, days, weeks,
}

-- Fractions are read as nothing.
abbrev pub no_fractions : ℕ → ℕ → ℕ → ℕ
no_fractions f k u = 0

pub negative_lookback : parse_lookback no_fractions (codes "-1h") ≡ err malformed_lookback
unfolding parse_lookback total span_digits prefix_group group_value remainder unit_after days weeks
    parse_duration terms term leading_int starts_digit term_unit take_unit point unit_of term_value
    starts_point atoi
negative_lookback = refl

lookbacks :
    (parse_lookback no_fractions (codes "2w12h") ≡ ok 1_252_800_000_000_000)
    × (parse_lookback no_fractions (codes "30d") ≡ ok 2_592_000_000_000_000)
    × (parse_lookback no_fractions (codes "-1h") ≡ err malformed_lookback)
    × (parse_lookback no_fractions (codes "2w-1h") ≡ err malformed_lookback)
    × (parse_lookback no_fractions (codes "1d2w") ≡ err malformed_lookback)
unfolding parse_lookback total span_digits prefix_group group_value remainder unit_after days weeks
    parse_duration terms term leading_int starts_digit term_unit take_unit point unit_of term_value
    starts_point atoi
lookbacks = (refl, refl, refl, refl, refl)

-- A prefix whose product does not fit wraps around, here to a negative duration.
lookback_wraps : parse_lookback no_fractions (codes "15251w") ≡ ok 9_223_804_800_000_000_000
unfolding parse_lookback total span_digits prefix_group group_value remainder unit_after days weeks
    parse_duration terms term leading_int starts_digit term_unit take_unit point unit_of term_value
    starts_point atoi
lookback_wraps = refl

lookback-itoa_example : parse_lookback no_fractions (codes "2w3d12h") ≡ ok 1_512_000_000_000_000
unfolding itoa
lookback-itoa_example = lookback-itoa no_fractions 2 3 12 (omega arith)
