-- ===== src/Store/Query/Lookup.antt =====
-- What the reads find.
use takuhai.Base.{
  Bool-cases, Bytes, List, Option, Option-cases, [], any_if, ap, arith, bytes_eq, bytes_eq→≡,
  if◌then◌else◌, inl, inr, length, ltb, none, refl, some, subst, sym, ℕ, ◌∙◌, ◌∷◌, ◌≡◌,
}
use takuhai.Errors.{ok, err, ok-injective, guard-eq-ok, database_failure, batch_exceeds_cap}
use takuhai.Store.{Db, Release, Faults, run_query, find_release}
use takuhai.Store.Rows.{UniqueKeys, NoRow, find-NoRow}
use takuhai.Store.Invariant.{Inv}
use takuhai.Store.Query.{magnet_entries, resolve_magnets, max_magnets_batch}

-- The value of a key in a resulting map.
abbrev pub lookup : Bytes → List (Bytes × Bytes) → Option Bytes
lookup h [] = none
lookup h ((k, v) ∷ es) = if bytes_eq k h then some v else lookup h es

abbrev pub magnet_of : Option Release → Option Bytes
magnet_of none = none
magnet_of (some r) = r.magnet

-- The magnet that a map of the asked hashes holds for h.
abbrev asked : List Bytes → Bytes → Option Release → Option Bytes
asked hashes h o = if any_if (bytes_eq h) hashes then magnet_of o else none

asked-none : (hashes : List Bytes) (h : Bytes) → asked hashes h none ≡ none
asked-none hashes h = ground arith

lookup-entries :
    (hashes : List Bytes) (h : Bytes) (rs : List Release)
    → UniqueKeys rs
    → lookup h (magnet_entries hashes rs) ≡ asked hashes h (find_release h rs)
unfolding magnet_entries
lookup-entries hashes h [] u = sym (asked-none hashes h)
lookup-entries hashes h (r ∷ rs) u = elim (Bool-cases (bytes_eq r.infohash h)) [
  | inl hit ↦
      let same = bytes_eq→≡ r.infohash h hit in
      let gone : lookup h (magnet_entries hashes rs) ≡ none =
        lookup-entries hashes h rs u.1
        ∙ ap (asked hashes h) (find-NoRow h rs (subst (λ k. NoRow k rs) same u.0))
        ∙ asked-none hashes h in
      let here : any_if (bytes_eq r.infohash) hashes ≡ any_if (bytes_eq h) hashes =
        ap (λ k. any_if (bytes_eq k) hashes) same in
      elim (Option-cases r.magnet) [
        | inl n ↦ rw (n, magnet_entries, hit, gone) (sym (asked-none hashes h))
        | inr (m, e) ↦ elim (Bool-cases (any_if (bytes_eq h) hashes)) [
          | inl has ↦ rw (e, magnet_entries, here, has, hit) refl
          | inr lacks ↦ rw (e, magnet_entries, here, lacks, gone) refl
        ]
      ]
  | inr miss ↦
      let rest = lookup-entries hashes h rs u.1 in
      elim (Option-cases r.magnet) [
        | inl n ↦ rw (n, magnet_entries, miss) rest
        | inr (m, e) ↦ elim (Bool-cases (any_if (bytes_eq r.infohash) hashes)) [
          | inl has ↦ rw (e, magnet_entries, has, miss) rest
          | inr lacks ↦ rw (e, magnet_entries, lacks, miss) rest
        ]
      ]
]

-- Under the invariant, the map of a batch within the cap holds, for each infohash that was asked for
-- and for no other, the magnet of its release if it has one.
pub resolve_magnets_lem :
    (fails : Faults) (m : ℕ) (hashes : List Bytes) (db : Db) (magnets : List (Bytes × Bytes))
    (h : Bytes)
    → Inv m db
    → resolve_magnets fails hashes db ≡ ok magnets
    → lookup h magnets
      ≡ (if any_if (bytes_eq h) hashes then magnet_of (find_release h db.releases) else none)
unfolding resolve_magnets
resolve_magnets_lem fails m [] db magnets h v e =
    let e' : ok [] ≡ ok magnets = e in ap (lookup h) (sym (ok-injective e'))
resolve_magnets_lem fails m (k ∷ hashes) db magnets h v e =
    let e1 = (guard-eq-ok (ltb max_magnets_batch (length (k ∷ hashes))) batch_exceeds_cap _ e).1 in
    let e2 : (if fails run_query
          then err database_failure
          else ok (magnet_entries (k ∷ hashes) db.releases))
        ≡ ok magnets =
      ground (arith, e1) in
    let e3 = ok-injective (guard-eq-ok (fails run_query) database_failure _ e2).1 in
    ap (lookup h) (sym e3) ∙ lookup-entries (k ∷ hashes) h db.releases v.keys
