-- ===== src/Dmhy/Size.antt =====
-- sources/dmhy/parse.go, ParseSize: a number and a unit of bytes.
use takuhai.Base.{
  Bytes, Int64, Option, [], bytes_eq, codes, if◌then◌else◌, leb, map, none, some, ℕ, ◌&&◌, ◌-◌,
  ◌==◌, ◌||◌, ◌∷◌,
}
use takuhai.Stdlib.Decimal.{is_digit}
use takuhai.Stdlib.Trim.{trim_space}

-- strings.ToUpper; no letter outside ASCII becomes one of a unit.
pub upper : ℕ → ℕ
upper c = if leb b'a' c && leb c b'z' then c - 32 else c

-- The digits and points ahead, and the rest.
pub numeric_prefix : Bytes → Bytes × Bytes
numeric_prefix [] = ([], [])
numeric_prefix (c ∷ s) =
    let (n, rest) = numeric_prefix s in
    if c == b'.' || is_digit c then (c ∷ n, rest) else ([], c ∷ s)

pub multiplier : Bytes → Option ℕ
multiplier unit =
    if bytes_eq unit [] || bytes_eq unit (codes "B")
    then some 1
    else if bytes_eq unit (codes "KB")
    then some 1_000
    else if bytes_eq unit (codes "MB")
    then some 1_000_000
    else if bytes_eq unit (codes "GB")
    then some 1_000_000_000
    else if bytes_eq unit (codes "TB")
    then some 1_000_000_000_000
    else none

-- `scale` gives int64(math.Round(n * mult)) for the number n that strconv.ParseFloat reads, if it
-- reads one.
pub parse_size : (Bytes → ℕ → Option Int64) → Bytes → Option Int64
unfolding numeric_prefix multiplier upper
parse_size scale s =
    let (number, rest) = numeric_prefix (trim_space s) in
    if bytes_eq number [] then none else elim (multiplier (map upper (trim_space rest))) [
      | none ↦ none
      | some mult ↦ scale number mult
    ]
