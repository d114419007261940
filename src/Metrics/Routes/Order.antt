-- ===== src/Metrics/Routes/Order.antt =====
-- The label of a path does not depend on the order in which the map of the routes is iterated.
use takuhai.Base.{
  Bool, Bool-cases, Bytes, Option, Option-cases, [], all_if, ap, arith, bytes_eq, bytes_eq_refl,
  bytes_eq→≡, false, find_if, has_prefix, inl, inr, none, not, refl, some, some-injective, subst,
  sym, true, ◌&&◌, ◌||◌, ◌↔◌, ◌∙◌, ◌∷◌, ◌≡◌, ◌⊎◌,
}
use takuhai.Metrics.Routes.{RouteMap, route, exact_route, prefix_route}
use takuhai.Stdlib.Mux.{exactly, covers, ends_in_slash}

abbrev Entry : Type 0
Entry = Bytes × Bytes

abbrev pub Listed : Bytes × Bytes → RouteMap → Type 0
Listed e [] = ⊥
Listed e (f ∷ fs) = (e ≡ f) ⊎ Listed e fs

-- Two iterations of one map.
abbrev pub SameEntries : RouteMap → RouteMap → Type 0
SameEntries rs ss = (e : Bytes × Bytes) → Listed e rs ↔ Listed e ss

-- Two patterns that some path matches in the same way.
abbrev clash : Entry → Entry → Bool
clash (p, a) (q, b) =
    bytes_eq p q || ((ends_in_slash p && ends_in_slash q) && (has_prefix p q || has_prefix q p))

abbrev pub unambiguous : RouteMap → Bool
unambiguous [] = true
unambiguous (e ∷ es) = all_if (λ f. not (clash e f)) es && unambiguous es

has_prefix-both :
    (p q path : Bytes)
    → has_prefix p path ≡ true
    → has_prefix q path ≡ true
    → (has_prefix p q || has_prefix q p) ≡ true
has_prefix-both [] q path a b = refl
has_prefix-both (c ∷ p) [] path a b = ground arith
has_prefix-both (c ∷ p) (d ∷ q) [] a b = cc
has_prefix-both (c ∷ p) (d ∷ q) (x ∷ path) a b = ground (arith, has_prefix-both p q path)

exactly-clash :
    (path : Bytes) (e f : Entry)
    → exactly path e ≡ true
    → exactly path f ≡ true
    → (clash e f ≡ true) × (clash f e ≡ true)
exactly-clash path (p, a) (q, b) h k =
    let same : p ≡ q = bytes_eq→≡ p path h ∙ sym (bytes_eq→≡ q path k) in
    (rw same (ground (arith, bytes_eq_refl q)), rw same (ground (arith, bytes_eq_refl q)))

covers-clash :
    (path : Bytes) (e f : Entry)
    → covers path e ≡ true
    → covers path f ≡ true
    → (clash e f ≡ true) × (clash f e ≡ true)
covers-clash path (p, a) (q, b) h k =
    (ground (arith, has_prefix-both p q path), ground (arith, has_prefix-both p q path))

-- A test that two entries pass only if they clash.
module _ (test : Entry → Bool)
    (clashes : (e f : Entry)
      → test e ≡ true
      → test f ≡ true
      → (clash e f ≡ true) × (clash f e ≡ true)) where
  apart :
      (e : Entry) (fs : RouteMap) (f : Entry)
      → all_if (λ g. not (clash e g)) fs ≡ true
      → Listed f fs
      → clash e f ≡ false
  apart e [] f h l = absurd l
  apart e (g ∷ fs) f h (inl same) = rw same (ground (arith, h))
  apart e (g ∷ fs) f h (inr l) = apart e fs f (ground (arith, h)) l

  unique :
      (rs : RouteMap) (e f : Entry)
      → unambiguous rs ≡ true
      → Listed e rs
      → Listed f rs
      → test e ≡ true
      → test f ≡ true
      → e ≡ f
  unique [] e f u le lf te tf = absurd le
  unique (r ∷ rs) e f u (inl a) (inl b) te tf = a ∙ sym b
  unique (r ∷ rs) e f u (inl a) (inr lf) te tf =
      let away : clash e f ≡ false = rw a (apart r rs f (ground (arith, u)) lf) in
      cc (away, (clashes e f te tf).0)
  unique (r ∷ rs) e f u (inr le) (inl b) te tf =
      let away : clash f e ≡ false = rw b (apart r rs e (ground (arith, u)) le) in
      cc (away, (clashes e f te tf).1)
  unique (r ∷ rs) e f u (inr le) (inr lf) te tf = unique rs e f (ground (arith, u)) le lf te tf

find_if-Listed :
    (test : Entry → Bool) (rs : RouteMap) (e : Entry)
    → find_if test rs ≡ some e
    → Listed e rs × (test e ≡ true)
find_if-Listed test [] e h = cc
find_if-Listed test (r ∷ rs) e h = elim (Bool-cases (test r)) [
  | inl t ↦
      let same : r ≡ e = some-injective (rw t at h) in
      (inl (sym same), subst (λ x. test x ≡ true) same t)
  | inr n ↦ let (l, t) = find_if-Listed test rs e (rw n at h) in (inr l, t)
]

find_if-none :
    (test : Entry → Bool) (rs : RouteMap) (e : Entry)
    → find_if test rs ≡ none
    → Listed e rs
    → test e ≡ false
find_if-none test [] e h l = absurd l
find_if-none test (r ∷ rs) e h (inl same) = rw same (ground (arith, h))
find_if-none test (r ∷ rs) e h (inr l) = find_if-none test rs e (ground (arith, h)) l

find_if-order :
    (test : Entry → Bool)
    → ((e f : Entry) → test e ≡ true → test f ≡ true → (clash e f ≡ true) × (clash f e ≡ true))
    → (rs ss : RouteMap) → unambiguous rs ≡ true
    → SameEntries rs ss
    → find_if test ss ≡ find_if test rs
find_if-order test clashes rs ss u same = elim (Option-cases (find_if test rs)) [
  | inl n ↦ elim (Option-cases (find_if test ss)) [
    | inl m ↦ m ∙ sym n
    | inr (f, q) ↦
        let (l, t) = find_if-Listed test ss f q in cc (t, find_if-none test rs f n ((same f).1 l))
  ]
  | inr (e, p) ↦
      let (l, t) = find_if-Listed test rs e p in
      elim (Option-cases (find_if test ss)) [
        | inl m ↦ cc (t, find_if-none test ss e m ((same e).0 l))
        | inr (f, q) ↦
            let (k, v) = find_if-Listed test ss f q in
            q ∙ (ap some (unique test clashes rs f e u ((same f).1 k) l v t) ∙ sym p)
      ]
]

exact_route-order :
    (rs ss : RouteMap) (path : Bytes) (o : Option Entry)
    → find_if (covers path) ss ≡ find_if (covers path) rs
    → exact_route ss path o ≡ exact_route rs path o
unfolding exact_route
exact_route-order rs ss path (some (p, label)) e = refl
exact_route-order rs ss path none e = ap prefix_route e

-- Two iterations of a map without clashing patterns give every path the same label.
pub route_order :
    (rs ss : RouteMap) (path : Bytes)
    → unambiguous rs ≡ true
    → SameEntries rs ss
    → route ss path ≡ route rs path
unfolding route
route_order rs ss path u same =
    ap (exact_route ss path) (find_if-order (exactly path) (exactly-clash path) rs ss u same)
    ∙ exact_route-order rs ss path (find_if (exactly path) rs)
        (find_if-order (covers path) (covers-clash path) rs ss u same)
