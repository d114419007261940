-- ===== src/Stdlib/Duration/Fuel.antt =====
-- The loop over the terms of a duration ends: every term takes a byte, and fuel for each byte is
-- enough.
use takuhai.Base.{
  Bytes, Option, Option-cases, [], add64, arith, bytes_eq, false, if◌then◌else◌, inl, inr, length,
  none, not, refl, some, suc, zero, ℕ, ◌*◌, ◌+◌, ◌-◌, ◌<◌, ◌||◌, ◌∷◌, ◌≡◌, ◌≤◌,
}
use takuhai.Stdlib.Duration.{
  Fraction, leading_int, leading_fraction, fraction_digit, no_fraction, take_unit, point, term_unit,
  term, terms, starts_digit, starts_point,
}

leading_int-length :
    (x : ℕ) (s rest : Bytes) (n : ℕ) → leading_int x s ≡ some (n, rest) → length rest ≤ length s
unfolding leading_int
leading_int-length x [] rest n e = ground (arith, e)
leading_int-length x (c ∷ s) rest n e =
    ground (arith, e, leading_int-length (x * 10 + (c - b'0')) s rest n)

leading_fraction-length : (f : Fraction) (s : Bytes) → length (leading_fraction f s).1 ≤ length s
unfolding leading_fraction
leading_fraction-length f [] = omega arith
leading_fraction-length f (c ∷ s) = ground (arith, leading_fraction-length (fraction_digit f c) s)

point-length : (s : Bytes) → length (point s).1 ≤ length s
unfolding point
point-length [] = omega arith
point-length (c ∷ s) = ground (arith, leading_fraction-length no_fraction s)

take_unit-length : (s : Bytes) → length (take_unit s).0 + length (take_unit s).1 ≡ length s
unfolding take_unit
take_unit-length [] = omega arith
take_unit-length (c ∷ s) = ground (arith, take_unit-length s)

not_empty-length : (u : Bytes) → bytes_eq u [] ≡ false → 0 < length u
not_empty-length [] e = cc e
not_empty-length (c ∷ u) e = omega arith

module _ (scaled : ℕ → ℕ → ℕ → ℕ) where
  term_unit-length :
      (v : ℕ) (f : Fraction) (s rest : Bytes) (n : ℕ)
      → term_unit scaled v f s ≡ some (n, rest)
      → length rest < length s
  unfolding term_unit
  term_unit-length v f s rest n e =
      ground (arith, e, take_unit-length s, not_empty-length (take_unit s).0)

  term-length : (s rest : Bytes) (n : ℕ) → term scaled s ≡ some (n, rest) → length rest < length s
  unfolding term
  term-length s rest n e = elim (Option-cases (leading_int 0 s)) [
    | inl q ↦
        let e' : ◌≡◌ {A = Option (ℕ × Bytes)} none (some (n, rest)) = rw (term, q) at e in cc e'
    | inr ((v, s'), q) ↦
        let used = leading_int-length 0 s s' v q in
        let e' : (if not (starts_digit s || starts_point s')
              then none
              else term_unit scaled v (point s').0 (point s').1)
            ≡ some (n, rest) =
          rw (term, q) at e in
        ground
          (arith, e', used, point-length s', term_unit-length v (point s').0 (point s').1 rest n)
  ]

  -- More fuel than bytes changes nothing.
  pub terms_enough :
      (fuel fuel' d : ℕ) (s : Bytes)
      → length s ≤ fuel
      → length s ≤ fuel'
      → terms scaled fuel d s ≡ terms scaled fuel' d s
  unfolding terms
  terms_enough zero zero d s a b = refl
  terms_enough zero (suc fuel') d [] a b = refl
  terms_enough zero (suc fuel') d (c ∷ s) a b = absurd (omega (arith, a))
  terms_enough (suc fuel) zero d [] a b = refl
  terms_enough (suc fuel) zero d (c ∷ s) a b = absurd (omega (arith, b))
  terms_enough (suc fuel) (suc fuel') d [] a b = refl
  terms_enough (suc fuel) (suc fuel') d (c ∷ s) a b = elim (Option-cases (term scaled (c ∷ s))) [
    | inl q ↦ rw (terms, q) refl
    | inr ((v, rest), q) ↦
        let shorter = term-length (c ∷ s) rest v q in
        rw
          (
            terms,
            q,
            terms_enough fuel fuel' (add64 d v) rest (omega (arith, a, shorter))
                (omega (arith, b, shorter)),
          )
          refl
  ]
