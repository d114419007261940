-- ===== src/Rows.antt =====
-- The cut of a page into rows, which the parsers of sources/dmhy/html.go and sources/nyaa/parse.go
-- share: a row goes from its opening up to the next.
use takuhai.Base.{
  Bool, Bool-cases, Bytes, List, [], ap, arith, if◌then◌else◌, inl, inr, length, refl, ℕ, ◌++◌, ◌+◌,
  ◌∷◌, ◌≡◌,
}

abbrev pub joined : List Bytes → Bytes
joined [] = []
joined (row ∷ rows) = row ++ joined rows

module _ (opens : Bytes → Bool) where
  -- What stands before the first row, and the rows. No opening starts inside another one.
  unfoldable pub split_at : Bytes → Bytes × List Bytes
  split_at [] = ([], [])
  split_at (c ∷ s) =
      let (front, rows) = split_at s in
      if opens (c ∷ s) then ([], (c ∷ front) ∷ rows) else (c ∷ front, rows)

  -- How often a row opens.
  unfoldable pub count_openings : Bytes → ℕ
  count_openings [] = 0
  count_openings (c ∷ s) = (if opens (c ∷ s) then 1 else 0) + count_openings s

  pub split_at-joined : (s : Bytes) → (split_at s).0 ++ joined (split_at s).1 ≡ s
  unfolding split_at
  split_at-joined [] = refl
  split_at-joined (c ∷ s) = elim (Bool-cases (opens (c ∷ s))) [
    | inl e ↦ rw e (ap (λ t. c ∷ t) (split_at-joined s))
    | inr e ↦ rw e (ap (λ t. c ∷ t) (split_at-joined s))
  ]

  pub length-split_at : (s : Bytes) → length (split_at s).1 ≡ count_openings s
  unfolding split_at count_openings
  length-split_at [] = refl
  length-split_at (c ∷ s) = elim (Bool-cases (opens (c ∷ s))) [
    | inl e ↦ rw e (omega (arith, length-split_at s))
    | inr e ↦ rw e (omega (arith, length-split_at s))
  ]
