-- ===== src/Store/Listing/Sorted.antt =====
-- Insertion by a strict order: the result is sorted, a filter commutes with it, and what stands
-- behind an element of a sorted list is what the order puts behind it.
use mathlib.Core.List.{Perm}
use mathlib.Core.List.Perm
use takuhai.Base.{
  All, All-select, All-weaken, Bool, Bool-cases, List, [], ap, false, if_both, if◌then◌else◌, inl,
  inr, length, refl, select, suc, true, ◌++◌, ◌∙◌, ◌∷◌, ◌≡◌, ◌⊎◌,
}
use takuhai.Store.Claim.{insert_by, sort_by}
use takuhai.Store.Claim.Picked.{All-insert_by, All-sort_by}

-- The laws of a strict order.
pub record StrictOrder {ℓ} {A : Type ℓ} (before : A → A → Bool) : Type ℓ where
  pub irrefl : (x : A) → before x x ≡ false
  pub trans : (x y z : A) → before x y ≡ true → before y z ≡ true → before x z ≡ true

module _ {ℓ} {A : Type ℓ} (before : A → A → Bool) where
  abbrev pub Sorted : List A → Type 0
  Sorted [] = Unit {0}
  Sorted (x ∷ xs) = All (λ y. before x y ≡ true) xs × Sorted xs

  -- One of two elements comes before the other.
  abbrev pub Either : A → A → Type 0
  Either x y = (before x y ≡ true) ⊎ (before y x ≡ true)

  abbrev pub Comparable : List A → Type 0
  Comparable [] = Unit {0}
  Comparable (x ∷ xs) = All (Either x) xs × Comparable xs

  pub Comparable-select : (p : A → Bool) (xs : List A) → Comparable xs → Comparable (select p xs)
  Comparable-select p [] c = tt
  Comparable-select p (x ∷ xs) c =
      if_both Comparable (p x) (x ∷ select p xs) (select p xs)
        (All-select (Either x) p xs c.0, Comparable-select p xs c.1) (Comparable-select p xs c.1)

  module _ (order : StrictOrder before) where
    insert_by-Sorted :
        (x : A) (xs : List A) → Sorted xs → All (Either x) xs → Sorted (insert_by before x xs)
    unfolding insert_by
    insert_by-Sorted x [] s c = (tt, tt)
    insert_by-Sorted x (y ∷ ys) s c = elim (Bool-cases (before x y)) [
      | inl e ↦ rw e ((e, All-weaken (λ z h. order.trans x y z e h) ys s.0), s)
      | inr e ↦
          let back : before y x ≡ true = elim c.0 [ inl h ↦ cc (e, h) | inr h ↦ h ] in
          rw e (
            All-insert_by (λ z. before y z ≡ true) before x ys back s.0,
            insert_by-Sorted x ys s.1 c.1,
          )
    ]

    pub sort_by-Sorted : (xs : List A) → Comparable xs → Sorted (sort_by before xs)
    unfolding sort_by
    sort_by-Sorted [] c = tt
    sort_by-Sorted (x ∷ xs) c =
        insert_by-Sorted x (sort_by before xs) (sort_by-Sorted xs c.1)
          (All-sort_by (Either x) before xs c.0)

    insert_by-first :
        (x : A) (xs : List A) → All (λ y. before x y ≡ true) xs → insert_by before x xs ≡ x ∷ xs
    unfolding insert_by
    insert_by-first x [] h = refl
    insert_by-first x (y ∷ ys) h = rw h.0 refl

    select-insert_by :
        (p : A → Bool) (x : A) (xs : List A)
        → Sorted xs
        → select p (insert_by before x xs)
          ≡ (if p x then insert_by before x (select p xs) else select p xs)
    unfolding insert_by
    select-insert_by p x [] s = refl
    select-insert_by p x (y ∷ ys) s = elim (Bool-cases (before x y)) [
      | inl e ↦
          let behind : All (λ z. before x z ≡ true) (y ∷ ys) =
            (e, All-weaken (λ z h. order.trans x y z e h) ys s.0) in
          rw
            (
              e,
              insert_by-first x (select p (y ∷ ys))
                  (All-select (λ z. before x z ≡ true) p (y ∷ ys) behind),
            )
            refl
      | inr e ↦
          let ih = select-insert_by p x ys s.1 in
          elim (Bool-cases (p x)) [
            | inl px ↦ elim (Bool-cases (p y)) [
              | inl py ↦ rw (e, py, ih, px, e) refl
              | inr py ↦ rw (e, py, ih, px) refl
            ]
            | inr px ↦ elim (Bool-cases (p y)) [
              | inl py ↦ rw (e, py, ih, px) refl
              | inr py ↦ rw (e, py, ih, px) refl
            ]
          ]
    ]

    pub select-sort_by :
        (p : A → Bool) (xs : List A)
        → Comparable xs
        → select p (sort_by before xs) ≡ sort_by before (select p xs)
    unfolding sort_by
    select-sort_by p [] c = refl
    select-sort_by p (x ∷ xs) c = elim (Bool-cases (p x)) [
      | inl e ↦
          select-insert_by p x (sort_by before xs) (sort_by-Sorted xs c.1)
          ∙ rw (e, select-sort_by p xs c.1) refl
      | inr e ↦
          select-insert_by p x (sort_by before xs) (sort_by-Sorted xs c.1)
          ∙ rw (e, select-sort_by p xs c.1) refl
    ]

    select-All : (p : A → Bool) (xs : List A) → All (λ x. p x ≡ true) xs → select p xs ≡ xs
    select-All p [] h = refl
    select-All p (x ∷ xs) h = rw (h.0, select-All p xs h.1) refl

    pub All-middle :
        (P : A → Type 0) (xs : List A) (y : A) (ys : List A) → All P (xs ++ y ∷ ys) → P y
    All-middle P [] y ys h = h.0
    All-middle P (x ∷ xs) y ys h = All-middle P xs y ys h.1

    -- What the order puts behind an element of a sorted list.
    pub select-behind :
        (xs : List A) (y : A) (ys : List A)
        → Sorted (xs ++ y ∷ ys)
        → select (before y) (xs ++ y ∷ ys) ≡ ys
    select-behind [] y ys s = rw (order.irrefl y) (select-All (before y) ys s.0)
    select-behind (x ∷ xs) y ys s =
        let first : before x y ≡ true = All-middle (λ z. before x z ≡ true) xs y ys s.0 in
        let back : before y x ≡ false = elim (Bool-cases (before y x)) [
          | inl h ↦ cc (order.trans x y x first h, order.irrefl x)
          | inr h ↦ h
        ] in
        rw back (select-behind xs y ys s.1)

module _ {ℓ} {A : Type ℓ} (before : A → A → Bool) where
  insert_by-Perm : (x : A) (xs : List A) → Perm (insert_by before x xs) (x ∷ xs)
  unfolding insert_by
  insert_by-Perm x [] = Perm.refl (x ∷ [])
  insert_by-Perm x (y ∷ ys) = elim (Bool-cases (before x y)) [
    | inl e ↦ rw e (Perm.refl (x ∷ y ∷ ys))
    | inr e ↦ rw e (Perm.trans (Perm.cons y (insert_by-Perm x ys)) (Perm.swap x y ys))
  ]

  pub sort_by-Perm : (xs : List A) → Perm (sort_by before xs) xs
  unfolding sort_by
  sort_by-Perm [] = Perm.refl []
  sort_by-Perm (x ∷ xs) =
      Perm.trans (insert_by-Perm x (sort_by before xs)) (Perm.cons x (sort_by-Perm xs))

  length-insert_by : (x : A) (xs : List A) → length (insert_by before x xs) ≡ suc (length xs)
  unfolding insert_by
  length-insert_by x [] = refl
  length-insert_by x (y ∷ ys) = elim (Bool-cases (before x y)) [
    | inl e ↦ rw e refl
    | inr e ↦ rw e (ap suc (length-insert_by x ys))
  ]

  pub length-sort_by : (xs : List A) → length (sort_by before xs) ≡ length xs
  unfolding sort_by
  length-sort_by [] = refl
  length-sort_by (x ∷ xs) = length-insert_by x (sort_by before xs) ∙ ap suc (length-sort_by xs)
