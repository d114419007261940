-- ===== src/Store/Claim/Picked.antt =====
-- The rows that a claim picks and the rows that it leases.
use takuhai.Base.{
  All, All-passed, All-take, All-weaken, Bool, Bool-cases, Bytes, List, Time, [], arith, bytes_eq,
  bytes_eq_refl, bytes_eq→≡, if_both, inl, inr, length, length-take, not, refl, select, some, true,
  ℕ, ◌&&◌, ◌∷◌, ◌≡◌, ◌≤◌,
}
use takuhai.Store.{Release, find_release}
use takuhai.Store.Rows.{UniqueKeys, find-own}
use takuhai.Store.Claim.{is_claimable, newer, insert_by, sort_by, chosen, is_among}

module _ {ℓ κ} {A : Type ℓ} (P : A → Type κ) (before : A → A → Bool) where
  pub All-insert_by : (x : A) (xs : List A) → P x → All P xs → All P (insert_by before x xs)
  unfolding insert_by
  All-insert_by x [] p h = (p, tt)
  All-insert_by x (y ∷ ys) p h =
      if_both (All P) (before x y) (x ∷ y ∷ ys) (y ∷ insert_by before x ys) (p, h)
        (h.0, All-insert_by x ys p h.1)

  pub All-sort_by : (xs : List A) → All P xs → All P (sort_by before xs)
  unfolding sort_by
  All-sort_by [] h = tt
  All-sort_by (x ∷ xs) h = All-insert_by x (sort_by before xs) h.0 (All-sort_by xs h.1)

-- A picked row is a row of the table, and is claimable.
abbrev pub Picked : ℕ → Time → List Release → Release → Type 0
Picked m now rs q = (find_release q.infohash rs ≡ some q) × (is_claimable m now q ≡ true)

pub chosen-Picked :
    (m : ℕ) (now : Time) (limit : ℕ) (locked : Bytes → Bool) (rs : List Release)
    → UniqueKeys rs
    → All (Picked m now rs) (chosen m now limit locked rs)
unfolding chosen
chosen-Picked m now limit locked rs u =
    let own : Release → Type 0 = λ q. find_release q.infohash rs ≡ some q in
    let test : Release → Bool = λ r. is_claimable m now r && not (locked r.infohash) in
    All-take (Picked m now rs) limit (sort_by newer (select test rs)) (
      All-sort_by (Picked m now rs) newer (select test rs) (
        All-weaken (λ q h. (h.0, ground (arith, h.1))) (select test rs)
          (All-passed own test rs (find-own rs u))))

pub length-chosen :
    (m : ℕ) (now : Time) (limit : ℕ) (locked : Bytes → Bool) (rs : List Release)
    → length (chosen m now limit locked rs) ≤ limit
unfolding chosen
length-chosen m now limit locked rs = omega (
  arith,
  length-take limit (
      sort_by newer (select (λ (r : Release). is_claimable m now r && not (locked r.infohash)) rs)),
)

pub is_among-Picked :
    (P : Release → Type 0) (picked : List Release) (h : Bytes)
    → All P picked
    → is_among picked h ≡ true
    → (q : Release) × P q × (q.infohash ≡ h)
unfolding is_among
is_among-Picked P [] h a e = cc
is_among-Picked P (q ∷ picked) h a e = elim (Bool-cases (bytes_eq q.infohash h)) [
  | inl hit ↦ (q, a.0, bytes_eq→≡ q.infohash h hit)
  | inr miss ↦ is_among-Picked P picked h a.1 (rw miss at e)
]

pub is_among-member : (picked : List Release) → All (λ q. is_among picked q.infohash ≡ true) picked
unfolding is_among
is_among-member [] = tt
is_among-member (r ∷ picked) = (
  rw (bytes_eq_refl r.infohash) refl,
  All-weaken (λ q h. ground (arith, h)) picked (is_among-member picked),
)
