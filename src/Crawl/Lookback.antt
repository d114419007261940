-- ===== src/Crawl/Lookback.antt =====
-- pkg/crawl/duration.go, ParseLookback: weeks and days ahead of a Go duration.
pub mod Print
pub mod Tests
use takuhai.Base.{
  Bytes, Int64, [], add64, bytes_eq, codes, if◌then◌else◌, is_neg, mul64, none, some, ℕ, ◌==◌, ◌||◌,
  ◌∷◌,
}
use takuhai.Errors.{Result, ok, err, malformed_lookback, ◌>>=◌}
use takuhai.Stdlib.Decimal.{is_digit, atoi}
use takuhai.Stdlib.Duration.{
  parse_duration, terms, terms, term, term, leading_int, leading_int, starts_digit, starts_digit,
  term_unit, term_unit, take_unit, take_unit, point, point, unit_of, unit_of, term_value,
  term_value, starts_point, starts_point,
}

-- The digits ahead, and the rest.
unfoldable pub span_digits : Bytes → Bytes × Bytes
span_digits [] = ([], [])
span_digits (c ∷ s) =
    let (ds, rest) = span_digits s in if is_digit c then (c ∷ ds, rest) else ([], c ∷ s)

-- A group (?:(\d+)c)? of the prefix: its digits, none where it does not take part, and the rest.
pub unit_after : ℕ → Bytes → Bytes × Bytes → Bytes × Bytes
unit_after c s ([], rest) = ([], s)
unit_after c s (d ∷ ds, []) = ([], s)
unit_after c s (d ∷ ds, b ∷ rest) = if b == c then (d ∷ ds, rest) else ([], s)

pub prefix_group : ℕ → Bytes → Bytes × Bytes
unfolding unit_after
prefix_group c s = unit_after c s (span_digits s)

abbrev pub hour : ℕ
hour = 3_600_000_000_000

-- time.Duration(n) * 24 * time.Hour, and of weeks; the products wrap at 64 bits.
pub days : Int64 → Int64
days n = mul64 (mul64 n 24) hour

pub weeks : Int64 → Int64
weeks n = mul64 (mul64 (mul64 n 7) 24) hour

-- The duration of a group that takes part.
pub group_value : (Int64 → Int64) → Bytes → Result Int64
group_value unit [] = ok 0
group_value unit (d ∷ ds) = elim (atoi (d ∷ ds)) [
  | none ↦ err malformed_lookback
  | some n ↦ ok (unit n)
]

-- `scaled` computes the fraction of a Go duration.
module _ (scaled : ℕ → ℕ → ℕ → ℕ) where
  -- What follows the prefix.
  pub remainder : Bytes → Result Int64
  remainder [] = ok 0
  remainder (c ∷ s) = elim (parse_duration scaled (c ∷ s)) [
    | none ↦ err malformed_lookback
    | some d ↦ if is_neg d then err malformed_lookback else ok d
  ]

  -- The groups of the prefix and the remainder, added up.
  pub total : Bytes → Bytes → Bytes → Result Int64
  unfolding group_value remainder days weeks
  total w d rest = do
    a ← group_value weeks w
    b ← group_value days d
    c ← remainder rest
    ok (add64 (add64 a b) c)

  pub parse_lookback : Bytes → Result Int64
  unfolding prefix_group
  parse_lookback s =
      let (w, s') = prefix_group b'w' s in
      let (d, rest) = prefix_group b'd' s' in
      if bytes_eq s [] || bytes_eq s (codes "0") then ok 0 else total w d rest
