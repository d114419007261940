-- ===== src/Stdlib/Duration.antt =====
-- time.ParseDuration: a sign, then terms of a decimal number and a unit.
pub mod Fuel
use takuhai.Base.{
  Bool, Bytes, Int64, Option, [], add64, bytes_eq, codes, false, half_word, if◌then◌else◌, length,
  ltb, max_int, none, not, refl, some, suc, true, word, zero, ℕ, ◌%◌, ◌&&◌, ◌*◌, ◌+◌, ◌-◌, ◌/◌,
  ◌==◌, ◌^◌, ◌||◌, ◌∷◌, ◌≡◌,
}
use takuhai.Stdlib.Decimal.{is_digit}

-- leadingInt: the digits ahead, none where their number goes over 2 ^ 63.
unfoldable pub leading_int : ℕ → Bytes → Option (ℕ × Bytes)
leading_int x [] = some (x, [])
leading_int x (c ∷ s) =
    let y = x * 10 + (c - b'0') in
    let rest = leading_int y s in
    if not (is_digit c)
    then some (x, c ∷ s)
    else if ltb (half_word / 10) x
    then none
    else if ltb half_word y
    then none
    else rest

-- The digits of a fraction as a number, how many of them count, and whether one was left out.
pub record Fraction : Type 0 where
  pub digits : ℕ
  pub places : ℕ
  pub overflow : Bool

fraction_digit : Fraction → ℕ → Fraction
fraction_digit f c =
    let y = f.digits * 10 + (c - b'0') in
    if f.overflow
    then f
    else if ltb (max_int / 10) f.digits || ltb half_word y
    then record f { overflow = true }
    else record f { digits = y; places = f.places + 1 }

-- leadingFraction
leading_fraction : Fraction → Bytes → Fraction × Bytes
leading_fraction f [] = (f, [])
leading_fraction f (c ∷ s) =
    let rest = leading_fraction (fraction_digit f c) s in if is_digit c then rest else (f, c ∷ s)

no_fraction : Fraction
no_fraction = record { digits = 0; places = 0; overflow = false }

-- The bytes before the next digit or point, and the rest.
unfoldable pub take_unit : Bytes → Bytes × Bytes
take_unit [] = ([], [])
take_unit (c ∷ s) =
    let (u, rest) = take_unit s in if c == b'.' || is_digit c then ([], c ∷ s) else (c ∷ u, rest)

-- unitMap; the two spellings of the microsecond's letter are U+00B5 and U+03BC.
unfoldable pub unit_of : Bytes → Option ℕ
unit_of u =
    if bytes_eq u (codes "ns")
    then some 1
    else if bytes_eq u (codes "us")
        || bytes_eq u (194 ∷ 181 ∷ b's' ∷ [])
        || bytes_eq u (206 ∷ 188 ∷ b's' ∷ [])
    then some 1_000
    else if bytes_eq u (codes "ms")
    then some 1_000_000
    else if bytes_eq u (codes "s")
    then some 1_000_000_000
    else if bytes_eq u (codes "m")
    then some 60_000_000_000
    else if bytes_eq u (codes "h")
    then some 3_600_000_000_000
    else none

-- A point and digits after it, if there is a point.
unfoldable pub point : Bytes → Fraction × Bytes
unfolding no_fraction leading_fraction fraction_digit
point [] = (no_fraction, [])
point (c ∷ s) = if c == b'.' then leading_fraction no_fraction s else (no_fraction, c ∷ s)

-- Whether a digit stands ahead, and whether one stands behind a point.
unfoldable pub starts_digit : Bytes → Bool
starts_digit [] = false
starts_digit (c ∷ s) = is_digit c

unfoldable pub starts_point : Bytes → Bool
starts_point [] = false
starts_point (c ∷ s) = c == b'.' && starts_digit s

-- uint64(float64(f) * (float64(unit) / scale)), on the digits of a fraction, their places and a
-- unit, is the parameter `scaled`.
module _ (scaled : ℕ → ℕ → ℕ → ℕ) where
  -- The value of a term and of the fraction, without overflow.
  unfoldable pub term_value : ℕ → Fraction → ℕ → Option ℕ
  term_value v f unit =
      let whole = v * unit in
      let sum = add64 whole (scaled f.digits f.places unit) in
      if ltb (half_word / unit) v
      then none
      else if f.digits == 0
      then some whole
      else if ltb half_word sum
      then none
      else some sum

  -- What follows the number of a term: the unit.
  unfoldable pub term_unit : ℕ → Fraction → Bytes → Option (ℕ × Bytes)
  term_unit v f s =
      let (u, rest) = take_unit s in
      if bytes_eq u [] then none else elim (unit_of u) [
        | none ↦ none
        | some unit ↦ elim (term_value v f unit) [ none ↦ none | some n ↦ some (n, rest) ]
      ]

  -- One round of the loop over the terms: the nanoseconds of the term, and what follows it.
  unfoldable pub term : Bytes → Option (ℕ × Bytes)
  term s = elim (leading_int 0 s) [
    | none ↦ none
    | some (v, s') ↦
        let (f, s'') = point s' in
        if not (starts_digit s || starts_point s') then none else term_unit v f s''
  ]

  -- The loop, with fuel for the bytes that are left.
  unfoldable pub terms : ℕ → ℕ → Bytes → Option ℕ
  terms fuel d [] = some d
  terms zero d (c ∷ s) = none
  terms (suc fuel) d (c ∷ s) = elim (term (c ∷ s)) [
    | none ↦ none
    | some (v, rest) ↦
        let more = terms fuel (add64 d v) rest in if ltb half_word (add64 d v) then none else more
  ]

  -- Duration(d), negated for a minus sign; without one it has to fit.
  signed : Bool → Option ℕ → Option Int64
  signed neg none = none
  signed true (some d) = some ((word - d) % word)
  signed false (some d) = if ltb max_int d then none else some d

  magnitude : Bool → Bytes → Option Int64
  unfolding signed
  magnitude neg s =
      if bytes_eq s (codes "0")
      then some 0
      else if bytes_eq s []
      then none
      else signed neg (terms (length s) 0 s)

  unfoldable pub parse_duration : Bytes → Option Int64
  unfolding magnitude
  parse_duration [] = none
  parse_duration (c ∷ s) =
      if c == b'-'
      then magnitude true s
      else if c == b'+'
      then magnitude false s
      else magnitude false (c ∷ s)

durations :
    (parse_duration (λ f k u. f * u / 10 ^ k) (codes "1h30m") ≡ some 5_400_000_000_000)
    × (parse_duration (λ f k u. f * u / 10 ^ k) (codes "-1.5s") ≡ some (word - 1_500_000_000))
    × (parse_duration (λ f k u. f * u / 10 ^ k) (codes "1.h") ≡ some 3_600_000_000_000)
    × (parse_duration (λ f k u. f * u / 10 ^ k) (codes ".s") ≡ none)
    × (parse_duration (λ f k u. f * u / 10 ^ k) (codes "3") ≡ none)
    × (parse_duration (λ f k u. f * u / 10 ^ k) (codes "9223372036854775808ns") ≡ none)
unfolding leading_fraction fraction_digit no_fraction parse_duration terms term leading_int
    starts_digit term_unit take_unit point unit_of term_value starts_point
durations = (refl, refl, refl, refl, refl, refl)
