-- ===== src/Nyaa/Size.antt =====
-- sources/nyaa/parse.go, parseSize: a number and a unit, with decimal and binary units.
use takuhai.Base.{
  Bytes, Int64, Option, [], bytes_eq, codes, if◌then◌else◌, leb, none, some, ℕ, ◌&&◌, ◌+◌, ◌==◌,
  ◌^◌, ◌||◌, ◌∷◌,
}
use takuhai.Stdlib.Trim.{two_fields}

-- strings.ToLower; of the letters outside ASCII only the Kelvin sign becomes one of a unit.
lower : ℕ → ℕ
lower c = if leb b'A' c && leb c b'Z' then c + 32 else c

pub to_lower : Bytes → Bytes
unfolding lower
to_lower [] = []
to_lower (c ∷ []) = lower c ∷ []
to_lower (c ∷ d ∷ []) = lower c ∷ lower d ∷ []
to_lower (c ∷ d ∷ e ∷ s) =
    let three = to_lower s in
    let one = to_lower (d ∷ e ∷ s) in
    if c == 0xE2 && d == 0x84 && e == 0xAA then b'k' ∷ three else lower c ∷ one

pub multiplier : Bytes → Option ℕ
multiplier unit =
    if bytes_eq unit (codes "b") || bytes_eq unit (codes "byte") || bytes_eq unit (codes "bytes")
    then some 1
    else if bytes_eq unit (codes "kb")
    then some 1_000
    else if bytes_eq unit (codes "mb")
    then some 1_000_000
    else if bytes_eq unit (codes "gb")
    then some 1_000_000_000
    else if bytes_eq unit (codes "tb")
    then some 1_000_000_000_000
    else if bytes_eq unit (codes "kib")
    then some (2 ^ 10)
    else if bytes_eq unit (codes "mib")
    then some (2 ^ 20)
    else if bytes_eq unit (codes "gib")
    then some (2 ^ 30)
    else if bytes_eq unit (codes "tib")
    then some (2 ^ 40)
    else none

-- `scale` gives int64(math.Round(n * mult)) for the number n that strconv.ParseFloat reads, if it
-- reads one and that is not negative.
pub parse_size : (Bytes → ℕ → Option Int64) → Bytes → Option Int64
unfolding multiplier to_lower
parse_size scale s =
    let (number, unit) = two_fields s in
    if bytes_eq number []
    then none
    else elim (multiplier (if bytes_eq unit [] then codes "b" else to_lower unit)) [
      | none ↦ none
      | some mult ↦ scale number mult
    ]
