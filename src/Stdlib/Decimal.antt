-- ===== src/Stdlib/Decimal.antt =====
-- strconv.Itoa and strconv.Atoi on 64-bit integers.
use takuhai.Base.{
  All, Bool, Bool-cases, Bytes, Int64, Option, [], ap, arith, codes, false, half_word,
  if◌then◌else◌, inl, inr, is_neg, leb, ltb, ltb→lt, lt→ltb, max_int, none, refl, some, subst, suc,
  true, word, zero, ℕ, ◌%◌, ◌&&◌, ◌*◌, ◌+◌, ◌-◌, ◌/◌, ◌<◌, ◌==◌, ◌^◌, ◌∙◌, ◌∷◌, ◌≡◌, ◌≤◌,
}
use native.Mathlib.Nat.{pow-suc}

abbrev pub is_digit : ℕ → Bool
is_digit c = leb b'0' c && leb c b'9'

-- The number that a run of digits spells behind n; none where a byte is no digit.
abbrev pub scan : Bytes → ℕ → Option ℕ
scan [] n = some n
scan (c ∷ s) n = let rest = scan s (n * 10 + (c - b'0')) in if is_digit c then rest else none

-- A magnitude with its sign, where the value fits an int64.
in_range : Bool → Option ℕ → Option Int64
in_range neg none = none
in_range true (some n) = if leb n half_word then some ((word - n) % word) else none
in_range false (some n) = if ltb n half_word then some n else none

unsigned : Bool → Bytes → Option Int64
unfolding in_range
unsigned neg [] = none
unsigned neg (c ∷ s) = in_range neg (scan (c ∷ s) 0)

unfoldable pub atoi : Bytes → Option Int64
unfolding unsigned
atoi [] = none
atoi (c ∷ s) =
    if c == b'-'
    then unsigned true s
    else if c == b'+'
    then unsigned false s
    else unsigned false (c ∷ s)

-- The digits of n before those already written; a 64-bit number has at most 20.
emit : ℕ → ℕ → Bytes → Bytes
emit zero n out = out
emit (suc f) n out =
    let rest = emit f (n / 10) ((b'0' + n % 10) ∷ out) in
    if ltb n 10 then (b'0' + n) ∷ out else rest

unfoldable pub itoa : Int64 → Bytes
unfolding emit
itoa n = if is_neg n then b'-' ∷ emit 20 (word - n) [] else emit 20 n []

abbrev pub IsDigit : ℕ → Type 0
IsDigit c = (b'0' ≤ c) × (c ≤ b'9')

emit-IsDigit : (f n : ℕ) (out : Bytes) → All IsDigit out → All IsDigit (emit f n out)
unfolding emit
emit-IsDigit zero n out h = h
emit-IsDigit (suc f) n out h = elim (Bool-cases (ltb n 10)) [
  | inl e ↦ rw e (omega (arith, ltb→lt n 10 e), h)
  | inr e ↦ rw e (emit-IsDigit f (n / 10) ((b'0' + n % 10) ∷ out) (omega arith, h))
]

le→leb_false : (n : ℕ) → n ≤ max_int → is_neg n ≡ false
le→leb_false n h = ground arith

tenth_lt_pow : (f n : ℕ) → n < 10 ^ suc f → n / 10 < 10 ^ f
tenth_lt_pow f n h = omega (arith, pow-suc 10 f)

-- Reading what emit writes, from its first digit on, gives the number.
scan-emit : (f n : ℕ) (out : Bytes) → n < 10 ^ suc f → scan (emit (suc f) n out) 0 ≡ scan out n
unfolding emit
scan-emit zero n out h = rw (lt→ltb n 10 (omega arith)) (ground arith)
scan-emit (suc f) n out h = elim (Bool-cases (ltb n 10)) [
  | inl e ↦ rw e (ground (arith, ltb→lt n 10 e))
  | inr e ↦
      rw e
        (scan-emit f (n / 10) ((b'0' + n % 10) ∷ out) (tenth_lt_pow (suc f) n h) ∙ (ground arith))
]

emit-cons : (f n : ℕ) (out : Bytes) → (c : ℕ) × (s : Bytes) × (emit (suc f) n out ≡ c ∷ s)
unfolding emit
emit-cons zero n out = elim (Bool-cases (ltb n 10)) [
  | inl e ↦ (b'0' + n, out, rw e)
  | inr e ↦ (b'0' + n % 10, out, rw e)
]
emit-cons (suc f) n out = elim (Bool-cases (ltb n 10)) [
  | inl e ↦ (b'0' + n, out, rw e)
  | inr e ↦ let (c, s, q) = emit-cons f (n / 10) ((b'0' + n % 10) ∷ out) in (c, s, rw (e) q)
]

unsigned_digits : (c : ℕ) (s : Bytes) → IsDigit c → atoi (c ∷ s) ≡ unsigned false (c ∷ s)
unfolding atoi
unsigned_digits c s h = ground arith

-- A non-negative int64 is printed as digits alone.
pub itoa-IsDigit : (n : ℕ) → n ≤ max_int → All IsDigit (itoa n)
unfolding itoa
itoa-IsDigit n h = rw (le→leb_false n h) (emit-IsDigit 20 n [] tt)

in_range_fits : (n : ℕ) → n ≤ max_int → in_range false (some n) ≡ some n
unfolding in_range
in_range_fits n h = ground arith

atoi_run :
    (n : ℕ) (s t : Bytes) (c : ℕ)
    → s ≡ c ∷ t
    → All IsDigit s
    → scan s 0 ≡ some n
    → n ≤ max_int
    → atoi s ≡ some n
unfolding unsigned
atoi_run n s t c e d r h = rw e (
    unsigned_digits c t (subst (All IsDigit) e d).0
    ∙ (ap (in_range false) (subst (λ u. scan u 0 ≡ some n) e r) ∙ in_range_fits n h))

-- Every non-negative int64 is read back from its print.
pub atoi-itoa : (n : ℕ) → n ≤ max_int → atoi (itoa n) ≡ some n
unfolding itoa
atoi-itoa n h = rw (le→leb_false n h) (
    let (c, t, e) = emit-cons 19 n [] in
    atoi_run n _ t c e (emit-IsDigit 20 n [] tt) (scan-emit 19 n [] (omega arith)) h)

-- A number is printed by at least one digit.
pub itoa-cons : (n : ℕ) → n ≤ max_int → (c : ℕ) × (s : Bytes) × (itoa n ≡ c ∷ s)
unfolding itoa
itoa-cons n h = rw (le→leb_false n h) (emit-cons 19 n [])

pub scan-itoa : (n : ℕ) → n ≤ max_int → scan (itoa n) 0 ≡ some n
unfolding itoa
scan-itoa n h = rw (le→leb_false n h) (scan-emit 19 n [] (omega arith))

prints :
    (itoa 0 ≡ codes "0")
    × (itoa 9_223_372_036_854_775_807 ≡ codes "9223372036854775807")
    × (itoa (word - 12) ≡ codes "-12")
unfolding itoa
prints = (refl, refl, refl)

reads :
    (atoi (codes "+07") ≡ some 7)
    × (atoi (codes "-1") ≡ some (word - 1))
    × (atoi (codes "9223372036854775808") ≡ none)
    × (atoi (codes "-") ≡ none)
unfolding atoi
reads = (refl, refl, refl, refl)
