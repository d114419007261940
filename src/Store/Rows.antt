-- ===== src/Store/Rows.antt =====
-- The table of releases under its primary key: lookups and updates of one row.
use takuhai.Base.{
  All, All-append, All-zip, Bool-cases, Bytes, List, Option, [], ap, arith, bytes_eq, bytes_eq_refl,
  bytes_eq→≡, bytes_ne, false, inl, inr, map, map_option, none, refl, some, some-injective, subst,
  sym, true, ◌++◌, ◌∙◌, ◌∷◌, ◌≡◌, ◌≢◌,
}
use takuhai.Store.{Release, find_release, update_where}

-- No row has the key.
abbrev pub NoRow : Bytes → List Release → Type 0
NoRow h = All (λ r. r.infohash ≢ h)

-- The primary key.
abbrev pub UniqueKeys : List Release → Type 0
UniqueKeys [] = Unit {0}
UniqueKeys (r ∷ rs) = NoRow r.infohash rs × UniqueKeys rs

pub find-NoRow : (h : Bytes) (rs : List Release) → NoRow h rs → find_release h rs ≡ none
find-NoRow h [] n = refl
find-NoRow h (r ∷ rs) n = rw (bytes_ne r.infohash h n.0) (find-NoRow h rs n.1)

pub NoRow-find : (h : Bytes) (rs : List Release) → find_release h rs ≡ none → NoRow h rs
NoRow-find h [] e = tt
NoRow-find h (r ∷ rs) e = elim (Bool-cases (bytes_eq r.infohash h)) [
  | inl q ↦ let e' : ◌≡◌ {A = Option Release} (some r) none = rw q at e in cc e'
  | inr q ↦ (λ same. ground (arith, q, bytes_eq_refl h, same), NoRow-find h rs (rw q at e))
]

-- The row that a lookup finds has the key.
pub find-infohash :
    (h : Bytes) (rs : List Release) (r : Release) → find_release h rs ≡ some r → r.infohash ≡ h
find-infohash h [] r e = cc
find-infohash h (q ∷ rs) r e = ground (arith, find-infohash h rs r, bytes_eq→≡ q.infohash h)

pub update_where-NoRow :
    (h : Bytes) (f : Release → Release) (rs : List Release) → NoRow h rs → update_where h f rs ≡ rs
update_where-NoRow h f [] n = refl
update_where-NoRow h f (r ∷ rs) n =
    rw (bytes_ne r.infohash h n.0) (ap (λ t. r ∷ t) (update_where-NoRow h f rs n.1))

-- A row by row update that keeps the keys keeps the primary key.
pub NoRow-map :
    (h : Bytes) (f : Release → Release)
    → ((r : Release) → (f r).infohash ≡ r.infohash)
    → (rs : List Release) → NoRow h rs
    → NoRow h (map f rs)
NoRow-map h f same [] n = tt
NoRow-map h f same (r ∷ rs) n = (λ e. n.0 (sym (same r) ∙ e), NoRow-map h f same rs n.1)

pub UniqueKeys-map :
    (f : Release → Release)
    → ((r : Release) → (f r).infohash ≡ r.infohash)
    → (rs : List Release) → UniqueKeys rs
    → UniqueKeys (map f rs)
UniqueKeys-map f same [] u = tt
UniqueKeys-map f same (r ∷ rs) u = (
  subst (λ h. NoRow h (map f rs)) (sym (same r)) (NoRow-map r.infohash f same rs u.0),
  UniqueKeys-map f same rs u.1,
)

pub UniqueKeys-snoc :
    (rs : List Release) (r : Release)
    → UniqueKeys rs
    → NoRow r.infohash rs
    → UniqueKeys (rs ++ r ∷ [])
UniqueKeys-snoc [] r u n = (tt, tt)
UniqueKeys-snoc (q ∷ rs) r u n = (
  All-append (λ x. x.infohash ≢ q.infohash) rs (r ∷ []) u.0 (λ e. n.0 (sym e), tt),
  UniqueKeys-snoc rs r u.1 n.1,
)

pub All-map {ℓ} :
    (P Q : Release → Type ℓ) (f : Release → Release)
    → ((r : Release) → P r → Q (f r))
    → (rs : List Release) → All P rs
    → All Q (map f rs)
All-map P Q f keep [] a = tt
All-map P Q f keep (r ∷ rs) a = (keep r a.0, All-map P Q f keep rs a.1)

module _ {ℓ} (P : Release → Type ℓ) where
  pub All-find :
      (h : Bytes) (rs : List Release) (r : Release) → All P rs → find_release h rs ≡ some r → P r
  All-find h [] r a e = cc
  All-find h (q ∷ rs) r a e = elim (Bool-cases (bytes_eq q.infohash h)) [
    | inl hit ↦ let e' : some q ≡ some r = rw hit at e in subst P (some-injective e') a.0
    | inr miss ↦ All-find h rs r a.1 (rw miss at e)
  ]

  -- An update of the one row of a key needs the property of its new value alone.
  pub All-update :
      (h : Bytes) (f : Release → Release) (rs : List Release) (r : Release)
      → UniqueKeys rs
      → find_release h rs ≡ some r
      → P (f r)
      → All P rs
      → All P (update_where h f rs)
  All-update h f [] r u e p a = tt
  All-update h f (q ∷ rs) r u e p a = elim (Bool-cases (bytes_eq q.infohash h)) [
    | inl hit ↦
        let e' : some q ≡ some r = rw hit at e in
        let here = subst (λ k. NoRow k rs) (bytes_eq→≡ q.infohash h hit) u.0 in
        rw hit (
          subst (λ x. P (f x)) (sym (some-injective e')) p,
          subst (All P) (sym (update_where-NoRow h f rs here)) a.1,
        )
    | inr miss ↦ rw miss (a.0, All-update h f rs r u.1 (rw miss at e) p a.1)
  ]

-- The row of a key after an update of that key or of another.
pub find-update_where :
    (h : Bytes) (f : Release → Release) (rs : List Release) {r : Release}
    → ((r : Release) → (f r).infohash ≡ r.infohash)
    → find_release h rs ≡ some r
    → find_release h (update_where h f rs) ≡ some (f r)
find-update_where h f [] same e = cc
find-update_where h f (q ∷ rs) {r} same e = elim (Bool-cases (bytes_eq q.infohash h)) [
  | inl hit ↦
      let e' : some q ≡ some r = rw hit at e in
      let hit' : bytes_eq (f q).infohash h ≡ true = ap (λ x. bytes_eq x h) (same q) ∙ hit in
      rw hit (rw hit' (ap (λ x. some (f x)) (some-injective e')))
  | inr miss ↦ rw (miss, miss) (find-update_where h f rs same (rw miss at e))
]

-- A row of another key after the update.
pub find-update_other :
    (k h : Bytes) (f : Release → Release) (rs : List Release)
    → ((r : Release) → (f r).infohash ≡ r.infohash)
    → k ≢ h
    → find_release h (update_where k f rs) ≡ find_release h rs
find-update_other k h f [] same other = refl
find-update_other k h f (q ∷ rs) same other = elim (Bool-cases (bytes_eq q.infohash k)) [
  | inl hit ↦
      let here = bytes_eq→≡ q.infohash k hit in
      let miss : bytes_eq q.infohash h ≡ false =
        bytes_ne q.infohash h (λ e. other (sym here ∙ e)) in
      rw (hit, ap (λ x. bytes_eq x h) (same q) ∙ miss, miss) (find-update_other k h f rs same other)
  | inr miss ↦ rw miss (elim (Bool-cases (bytes_eq q.infohash h)) [
    | inl found ↦ rw found refl
    | inr none_here ↦ rw none_here (find-update_other k h f rs same other)
  ])
]

-- A lookup after a row by row update that keeps the keys.
pub find-map :
    (h : Bytes) (f : Release → Release)
    → ((r : Release) → (f r).infohash ≡ r.infohash)
    → (rs : List Release) → find_release h (map f rs) ≡ map_option f (find_release h rs)
find-map h f same [] = refl
find-map h f same (r ∷ rs) = elim (Bool-cases (bytes_eq r.infohash h)) [
  | inl hit ↦ rw (hit, ap (λ x. bytes_eq x h) (same r) ∙ hit) refl
  | inr miss ↦ rw (miss, ap (λ x. bytes_eq x h) (same r) ∙ miss) (find-map h f same rs)
]

-- Under the primary key each row is the one that its key finds.
pub find-own :
    (rs : List Release) → UniqueKeys rs → All (λ q. find_release q.infohash rs ≡ some q) rs
find-own [] u = tt
find-own (r ∷ rs) u = (
  rw (bytes_eq_refl r.infohash) refl,
  All-zip (λ q different own. rw (bytes_ne r.infohash q.infohash (λ e. different (sym e))) own) rs
      u.0 (find-own rs u.1),
)
