-- ===== src/Stdlib/Regexp/Fuel.antt =====
-- The search for all matches ends: a match of a pattern that begins with a text takes a byte, and
-- fuel for each byte is enough.
use takuhai.Base.{
  Bool, Bool-cases, Bytes, List, Option, Option-cases, [], ap, arith, cut_prefix, if◌then◌else◌,
  inl, inr, length, none, refl, some, some-injective, suc, zero, ℕ, ◌+◌, ◌<◌, ◌∷◌, ◌≡◌, ◌≤◌, ◌⊎◌,
}
use takuhai.Stdlib.Regexp.{
  Piece, text, one, many, few, optional, border, not_ahead, is_ahead, Match, or_else, match_one,
  match_many, match_few, match_at, find, find_all,
}

-- What follows a match is no longer than what stood ahead.
abbrev Shrinks : (Bytes → Option Match) → Type 0
Shrinks next = (s : Bytes) (m : Match) → next s ≡ some m → length m.1 ≤ length s

or_else-cases :
    (a b : Option Match) (m : Match) → or_else a b ≡ some m → (a ≡ some m) ⊎ (b ≡ some m)
unfolding or_else
or_else-cases none b m e = inr e
or_else-cases (some x) b m e = inl e

match_one-Shrinks :
    (test : ℕ → Bool) (next : Bytes → Option Match) → Shrinks next → Shrinks (match_one test next)
unfolding match_one
match_one-Shrinks test next h [] m e = cc e
match_one-Shrinks test next h (c ∷ s) m e = elim (Bool-cases (test c)) [
  | inl hit ↦ omega (arith, h s m (rw hit at e))
  | inr miss ↦ let e' : ◌≡◌ {A = Option Match} none (some m) = rw miss at e in cc e'
]

match_many-Shrinks :
    (test : ℕ → Bool) (next : Bytes → Option Match) → Shrinks next → Shrinks (match_many test next)
unfolding match_many
match_many-Shrinks test next h [] m e = h [] m e
match_many-Shrinks test next h (c ∷ s) m e = elim (Bool-cases (test c)) [
  | inl hit ↦ elim (or_else-cases (match_many test next s) (next (c ∷ s)) m (rw hit at e)) [
    | inl more ↦ omega (arith, match_many-Shrinks test next h s m more)
    | inr here ↦ h (c ∷ s) m here
  ]
  | inr miss ↦ h (c ∷ s) m (rw miss at e)
]

match_few-Shrinks :
    (test : ℕ → Bool) (next : Bytes → Option Match) → Shrinks next → Shrinks (match_few test next)
unfolding match_few
match_few-Shrinks test next h [] m e = h [] m e
match_few-Shrinks test next h (c ∷ s) m e =
    elim (or_else-cases (next (c ∷ s)) (if test c then match_few test next s else none) m e) [
      | inl here ↦ h (c ∷ s) m here
      | inr more ↦ elim (Bool-cases (test c)) [
        | inl hit ↦ omega (arith, match_few-Shrinks test next h s m (rw hit at more))
        | inr miss ↦ let e' : ◌≡◌ {A = Option Match} none (some m) = rw miss at more in cc e'
      ]
    ]

cut_prefix-length :
    (t s rest : Bytes) → cut_prefix t s ≡ some rest → length rest + length t ≡ length s
cut_prefix-length [] s rest e = omega (arith, ap length (some-injective e))
cut_prefix-length (p ∷ t) [] rest e = cc e
cut_prefix-length (p ∷ t) (c ∷ s) rest e = ground (arith, e, cut_prefix-length t s rest)

match_at-text :
    (t : Bytes) (ps : List Piece) (s : Bytes) (m : Match)
    → Shrinks (match_at ps)
    → match_at (text t ∷ ps) s ≡ some m
    → length m.1 + length t ≤ length s
unfolding match_at
match_at-text t ps s m h e = elim (Option-cases (cut_prefix t s)) [
  | inl q ↦ let e' : ◌≡◌ {A = Option Match} none (some m) = rw (match_at, q) at e in cc e'
  | inr (rest, q) ↦
      let e' : match_at ps rest ≡ some m = rw (match_at, q) at e in
      omega (arith, h rest m e', cut_prefix-length t s rest q)
]

match_at-Shrinks : (ps : List Piece) → Shrinks (match_at ps)
unfolding match_at
match_at-Shrinks [] s m e = omega (arith, ap (λ (x : Match). length x.1) (some-injective e))
match_at-Shrinks (text t ∷ ps) s m e = omega (arith, match_at-text t ps s m (match_at-Shrinks ps) e)
match_at-Shrinks (one test ∷ ps) s m e =
    match_one-Shrinks test (match_at ps) (match_at-Shrinks ps) s m e
match_at-Shrinks (many test ∷ ps) s m e =
    match_many-Shrinks test (match_at ps) (match_at-Shrinks ps) s m e
match_at-Shrinks (few test ∷ ps) s m e =
    match_few-Shrinks test (match_at ps) (match_at-Shrinks ps) s m e
match_at-Shrinks (optional test ∷ ps) s m e =
    elim (or_else-cases (match_one test (match_at ps) s) (match_at ps s) m e) [
      | inl once ↦ match_one-Shrinks test (match_at ps) (match_at-Shrinks ps) s m once
      | inr never ↦ match_at-Shrinks ps s m never
    ]
match_at-Shrinks (border ∷ ps) s m e = elim (Option-cases (match_at ps s)) [
  | inl q ↦ let e' : ◌≡◌ {A = Option Match} none (some m) = rw (match_at, q) at e in cc e'
  | inr (m', q) ↦
      let e' : ◌≡◌ {A = Option Match} (some (s ∷ m'.0, m'.1)) (some m) = rw (match_at, q) at e in
      omega (arith, match_at-Shrinks ps s m' q, ap (λ (x : Match). length x.1) (some-injective e'))
]
match_at-Shrinks (not_ahead test ∷ ps) s m e = elim (Bool-cases (is_ahead test s)) [
  | inl q ↦ let e' : ◌≡◌ {A = Option Match} none (some m) = rw (match_at, q) at e in cc e'
  | inr q ↦ match_at-Shrinks ps s m (rw (match_at, q) at e)
]

module _ (c : ℕ) (t : Bytes) (ps : List Piece) where
  find-length :
      (s : Bytes) (m : Match) → find (text (c ∷ t) ∷ ps) s ≡ some m → length m.1 < length s
  unfolding find
  find-length [] m e = omega (arith, match_at-text (c ∷ t) ps [] m (match_at-Shrinks ps) e)
  find-length (d ∷ s) m e =
      elim (or_else-cases (match_at (text (c ∷ t) ∷ ps) (d ∷ s)) (find (text (c ∷ t) ∷ ps) s) m e) [
        | inl here ↦ omega (arith, match_at-text (c ∷ t) ps (d ∷ s) m (match_at-Shrinks ps) here)
        | inr later ↦ omega (arith, find-length s m later)
      ]

  -- More fuel than bytes changes nothing.
  find_all_enough :
      (fuel fuel' : ℕ) (s : Bytes)
      → length s ≤ fuel
      → length s ≤ fuel'
      → find_all fuel (text (c ∷ t) ∷ ps) s ≡ find_all fuel' (text (c ∷ t) ∷ ps) s
  unfolding find_all
  find_all_enough zero zero s a b = refl
  find_all_enough zero (suc fuel') s a b = elim (Option-cases (find (text (c ∷ t) ∷ ps) s)) [
    | inl q ↦ rw (find_all, q) refl
    | inr (m, q) ↦ absurd (omega (arith, a, find-length s m q))
  ]
  find_all_enough (suc fuel) zero s a b = elim (Option-cases (find (text (c ∷ t) ∷ ps) s)) [
    | inl q ↦ rw (find_all, q) refl
    | inr (m, q) ↦ absurd (omega (arith, b, find-length s m q))
  ]
  find_all_enough (suc fuel) (suc fuel') s a b = elim (Option-cases (find (text (c ∷ t) ∷ ps) s)) [
    | inl q ↦ rw (find_all, q) refl
    | inr (m, q) ↦
        let shorter = find-length s m q in
        rw
          (
            find_all,
            q,
            find_all_enough fuel fuel' m.1 (omega (arith, a, shorter)) (omega (arith, b, shorter)),
          )
          refl
  ]
