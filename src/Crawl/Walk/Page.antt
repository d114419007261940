-- ===== src/Crawl/Walk/Page.antt =====
-- What the loop over the rows of one page does.
use takuhai.Base.{
  All, Bool-cases, List, [], append-nil, append_assoc, arith, false, inl, inr, length,
  length-append, ltb, refl, sym, tests, true, ℕ, ◌++◌, ◌+◌, ◌<◌, ◌∙◌, ◌∷◌, ◌≡◌, ◌≤◌, ◌⊎◌,
}
use takuhai.RawPost.{RawPost}
use takuhai.Crawl.Walk.{
  Cutoff, out_of_window, Rows, exhausted, boundary, budget, at_budget, take_rows,
}

module _ (cutoff : Cutoff) (page_size : ℕ) where
  abbrev pub InWindow : RawPost → Type 0
  InWindow p = out_of_window p.published_at cutoff ≡ false

  abbrev pub OutOfWindow : RawPost → Type 0
  OutOfWindow p = out_of_window p.published_at cutoff ≡ true

  -- The rows split into those taken and those left; where the budget was filled the offset says
  -- where to resume.
  abbrev pub Taken : ℕ → List RawPost → List RawPost → Rows → Type 0
  Taken i rows posts (exhausted ps) =
      (ps ≡ posts ++ rows) × All InWindow rows × (length ps < page_size)
  Taken i rows posts (boundary ps) =
      (taken rest : List RawPost) × (p : RawPost) × (rows ≡ taken ++ p ∷ rest)
      × (ps ≡ posts ++ taken)
      × All InWindow taken
      × OutOfWindow p
      × (length ps ≤ page_size)
  Taken i rows posts (budget ps offset) =
      (taken rest : List RawPost) × (rows ≡ taken ++ rest)
      × (ps ≡ posts ++ taken)
      × All InWindow taken
      × (length ps ≡ page_size)
      × (((rest ≡ []) × (offset ≡ 0))
          ⊎ ((offset ≡ i + length taken) × (0 < length taken) × (0 < length rest)))

  Taken-cons :
      (i : ℕ) (p : RawPost) (rows posts : List RawPost) (r : Rows)
      → InWindow p
      → Taken (i + 1) rows (posts ++ p ∷ []) r
      → Taken i (p ∷ rows) posts r
  Taken-cons i p rows posts (exhausted ps) w (e, a, l) =
      (e ∙ append_assoc posts (p ∷ []) rows, (w, a), l)
  Taken-cons i p rows posts (boundary ps) w (taken, rest, q, er, e, a, o, l) =
      (p ∷ taken, rest, q, rw er, e ∙ append_assoc posts (p ∷ []) taken, (w, a), o, l)
  Taken-cons i p rows posts (budget ps offset) w (taken, rest, er, e, a, l, o) = (
    p ∷ taken,
    rest,
    rw er,
    e ∙ append_assoc posts (p ∷ []) taken,
    (w, a),
    l,
    elim o [ inl u ↦ inl u | inr (f, g, h) ↦ inr (omega arith, omega arith, h) ],
  )

  length-snoc : (posts : List RawPost) (p : RawPost) → length (posts ++ p ∷ []) ≡ length posts + 1
  length-snoc posts p = length-append posts (p ∷ [])

  at_budget_lem :
      (i : ℕ) (p : RawPost) (rest posts : List RawPost)
      → InWindow p
      → length posts + 1 ≡ page_size
      → Taken i (p ∷ rest) posts (at_budget cutoff (i + 1) rest (posts ++ p ∷ []))
  unfolding at_budget
  at_budget_lem i p [] posts w l =
      (p ∷ [], [], refl, refl, (w, tt), length-snoc posts p ∙ l, inl (refl, refl))
  at_budget_lem i p (q ∷ rest) posts w l = elim (Bool-cases (out_of_window q.published_at cutoff)) [
    | inl out ↦
        rw out (p ∷ [], rest, q, refl, refl, (w, tt), out, omega (arith, length-snoc posts p))
    | inr here ↦ rw here (
      p ∷ [],
      q ∷ rest,
      refl,
      refl,
      (w, tt),
      length-snoc posts p ∙ l,
      inr (omega arith, omega arith, omega arith),
    )
  ]

  -- The rows of a page are split as described, whatever the page and the posts so far.
  pub take_rows_lem :
      (i : ℕ) (rows posts : List RawPost)
      → length posts < page_size
      → Taken i rows posts (take_rows cutoff page_size i rows posts)
  unfolding take_rows
  take_rows_lem i [] posts l = (sym (append-nil posts), tt, l)
  take_rows_lem i (p ∷ rest) posts l = elim (Bool-cases (out_of_window p.published_at cutoff)) [
    | inl out ↦ rw out ([], rest, p, refl, sym (append-nil posts), tt, out, omega arith)
    | inr here ↦ elim (Bool-cases (ltb (length posts + 1) page_size)) [
      | inl more ↦
          rw (here, more)
            (Taken-cons i p rest posts _ here (
              take_rows_lem (i + 1) rest (posts ++ p ∷ [])
                (omega (tests, more, length-snoc posts p))))
      | inr full ↦ rw (here, full) (at_budget_lem i p rest posts here (omega (tests, full)))
    ]
  ]
