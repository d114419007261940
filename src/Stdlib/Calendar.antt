-- ===== src/Stdlib/Calendar.antt =====
-- time.ParseInLocation for the layout "2006/01/02 15:04" and a zone east of UTC.
use takuhai.Base.{
  Bool, Bytes, Option, Time, [], all_if, codes, if◌then◌else◌, leb, ltb, none, not, refl, some, suc,
  zero, zero_time, ℕ, ◌%◌, ◌&&◌, ◌*◌, ◌+◌, ◌-◌, ◌/◌, ◌==◌, ◌||◌, ◌∷◌, ◌≡◌,
}
use takuhai.Stdlib.Decimal.{is_digit}

is_leap : ℕ → Bool
is_leap y = y % 4 == 0 && (not (y % 100 == 0) || y % 400 == 0)

-- daysIn
days_in : ℕ → ℕ → ℕ
unfolding is_leap
days_in y m =
    if m == 2
    then (if is_leap y then 29 else 28)
    else if m == 4 || m == 6 || m == 9 || m == 11
    then 30
    else 31

-- The days of the months before a month.
days_before : ℕ → ℕ → ℕ
unfolding days_in
days_before y zero = 0
days_before y (suc zero) = 0
days_before y (suc (suc m)) = days_before y (suc m) + days_in y (suc m)

-- The days of the years from 0 on before a year.
days_before_year : ℕ → ℕ
days_before_year zero = 0
days_before_year (suc y) = 365 * suc y + 1 + y / 4 - y / 100 + y / 400

-- The number of two digits.
two : ℕ → ℕ → ℕ
two a b = (a - b'0') * 10 + (b - b'0')

-- An instant from its fields, in minutes of the zone; the checks are those of time.Parse. A date in
-- the first hours of the year 0, which the zone puts before it, is taken to be its start.
instant : ℕ → ℕ → ℕ → ℕ → ℕ → ℕ → Option Time
unfolding days_before days_before_year days_in
instant offset y m d h mi =
    let minutes = ((days_before_year y + days_before y m + (d - 1)) * 24 + h) * 60 + mi in
    if m == 0 || ltb 12 m || leb 24 h || leb 60 mi || d == 0 || ltb (days_in y m) d
    then none
    else some ((minutes - offset) * 60_000_000_000)

-- The date of a text of the layout, for a zone by its offset in minutes.
unfoldable pub parse_in_location : ℕ → Bytes → Option Time
unfolding two instant
parse_in_location offset
      (y0 ∷ y1 ∷ y2 ∷ y3 ∷ s0 ∷ m0 ∷ m1 ∷ s1 ∷ d0 ∷ d1 ∷ s2 ∷ h0 ∷ h1 ∷ s3 ∷ n0 ∷ n1 ∷ []) =
    if all_if is_digit (y0 ∷ y1 ∷ y2 ∷ y3 ∷ m0 ∷ m1 ∷ d0 ∷ d1 ∷ h0 ∷ h1 ∷ n0 ∷ n1 ∷ [])
      && s0 == b'/'
      && s1 == b'/'
      && s2 == b' '
      && s3 == b':'
    then instant offset (two y0 y1 * 100 + two y2 y3) (two m0 m1) (two d0 d1) (two h0 h1)
        (two n0 n1)
    else none
parse_in_location offset _ = none

dates :
    (parse_in_location 480 (codes "0001/01/01 08:00") ≡ some zero_time)
    × (parse_in_location 0 (codes "1970/01/01 00:01") ≡ some 62_167_219_260_000_000_000)
    × (parse_in_location 480 (codes "2026/02/29 10:00") ≡ none)
    × (parse_in_location 480 (codes "2024/13/01 10:00") ≡ none)
unfolding parse_in_location
dates = (refl, refl, refl, refl)
