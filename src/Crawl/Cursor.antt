-- ===== src/Crawl/Cursor.antt =====
-- pkg/crawl/crawl.go, ParseCursor and FormatCursor: the resume point as page:offset.
use takuhai.Base.{
  All, Bool-cases, Bytes, Int64, Option-cases, [], arith, bytes_eq, cut_byte, false, if◌then◌else◌,
  inl, inr, is_neg, max_int, none, refl, some, ℕ, ◌++◌, ◌∷◌, ◌≡◌, ◌≤◌,
}
use takuhai.Errors.{Result, ok, err, malformed_cursor, ◌>>=◌}
use takuhai.Stdlib.Decimal.{itoa, atoi, IsDigit, itoa-IsDigit, atoi-itoa}

-- strconv.Atoi, and the test that the number is not negative.
non_negative : Bytes → Result Int64
non_negative s = elim (atoi s) [
  | none ↦ err malformed_cursor
  | some n ↦ if is_neg n then err malformed_cursor else ok n
]

pub parse_cursor : Bytes → Result (Int64 × Int64)
parse_cursor cursor = if bytes_eq cursor [] then ok (0, 0) else elim (cut_byte b':' cursor) [
  | none ↦ err malformed_cursor
  | some (p, o) ↦ do page ← non_negative p; offset ← non_negative o; ok (page, offset)
]

pub format_cursor : Int64 → Int64 → Bytes
format_cursor page offset = itoa page ++ (b':' ∷ itoa offset)

cut_byte-digits : (s t : Bytes) → All IsDigit s → cut_byte b':' (s ++ (b':' ∷ t)) ≡ some (s, t)
cut_byte-digits [] t h = refl
cut_byte-digits (c ∷ s) t h = ground (arith, cut_byte-digits s t h.1)

not_empty : (s t : Bytes) (c : ℕ) → bytes_eq (s ++ (c ∷ t)) [] ≡ false
not_empty [] t c = refl
not_empty (d ∷ s) t c = refl

non_negative-itoa : (n : ℕ) → n ≤ max_int → non_negative (itoa n) ≡ ok n
unfolding non_negative
non_negative-itoa n h = rw (atoi-itoa n h, non_negative) (ground arith)

-- A resume point with page and offset below 2 ^ 63 is read back from its text.
pub parse-format :
    (page offset : ℕ)
    → page ≤ max_int
    → offset ≤ max_int
    → parse_cursor (format_cursor page offset) ≡ ok (page, offset)
unfolding parse_cursor format_cursor
parse-format page offset p o = rw (
  not_empty (itoa page) (itoa offset) b':',
  cut_byte-digits (itoa page) (itoa offset) (itoa-IsDigit page p),
  non_negative-itoa page p,
  non_negative-itoa offset o,
)

non_negative_bound : (s : Bytes) (n : ℕ) → non_negative s ≡ ok n → n ≤ max_int
unfolding non_negative
non_negative_bound s n h = ground arith

both-eq-ok :
    {A B : Type 0} (m : Result A) (n : Result B) {a : A} {b : B}
    → ◌>>=◌ {B = A × B} m (λ x. n >>= λ y. ok (x, y)) ≡ ok (a, b)
    → (m ≡ ok a) × (n ≡ ok b)
both-eq-ok (err e) n h = cc
both-eq-ok (ok x) (err e) h = cc
both-eq-ok (ok x) (ok y) h = ground arith

-- An accepted cursor has a page and an offset that are not negative as Go integers.
parse_cursor_bounds :
    (s : Bytes) (page offset : ℕ)
    → parse_cursor s ≡ ok (page, offset)
    → (page ≤ max_int) × (offset ≤ max_int)
unfolding parse_cursor
parse_cursor_bounds s page offset h = elim (Bool-cases (bytes_eq s [])) [
  | inl e ↦
      let h' : ◌≡◌ {A = Result (Int64 × Int64)} (ok (0, 0)) (ok (page, offset)) = rw e at h in
      ground arith
  | inr e ↦ elim (Option-cases (cut_byte b':' s)) [
    | inl q ↦
        let h' : ◌≡◌ {A = Result (Int64 × Int64)} (err malformed_cursor) (ok (page, offset)) =
          rw (e, q) at h in
        cc h'
    | inr ((p, o), q) ↦
        let (hp, ho) = both-eq-ok (non_negative p) (non_negative o) (rw (e, q) at h) in
        (non_negative_bound p page hp, non_negative_bound o offset ho)
  ]
]
