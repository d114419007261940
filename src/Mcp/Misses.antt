-- ===== src/Mcp/Misses.antt =====
-- The infohashes that resolve_magnets counts.
use takuhai.Base.{
  Bool, Bool-cases, Bytes, List, Option-cases, [], arith, bytes_eq, bytes_eq→≡, bytes_ne, codes,
  count_if, false, if◌then◌else◌, inl, inr, length, refl, subst, ℕ, ◌+◌, ◌-◌, ◌∷◌, ◌≡◌, ◌≤◌,
}
use takuhai.Errors.{Result, ok, err}
use takuhai.Dispatch.{resolve_magnets_typed}
use takuhai.Mcp.{answered, settle_resolve, resolve_magnets_tool}
use takuhai.Metrics.{Takuhai, CounterVec, total, record_resolved, record_tool, add_positive}
use takuhai.Store.{Db, Release, Faults, has_infohash}
use takuhai.Store.Rows.{NoRow, UniqueKeys}
use takuhai.Store.Invariant.{Inv}
use takuhai.Store.Query.{magnet_entries, resolve_magnets}

count-NoRow : (h : Bytes) (rs : List Release) → NoRow h rs → count_if (has_infohash h) rs ≡ 0
count-NoRow h [] n = refl
count-NoRow h (r ∷ rs) n = rw (bytes_ne r.infohash h n.0) (ground (arith, count-NoRow h rs n.1))

count-UniqueKeys :
    (h : Bytes) (rs : List Release) → UniqueKeys rs → count_if (has_infohash h) rs ≤ 1
count-UniqueKeys h [] u = omega arith
count-UniqueKeys h (r ∷ rs) u = elim (Bool-cases (bytes_eq r.infohash h)) [
  | inr miss ↦ rw miss (ground (arith, count-UniqueKeys h rs u.1))
  | inl hit ↦
      let none_left =
        count-NoRow h rs (subst (λ k. NoRow k rs) (bytes_eq→≡ r.infohash h hit) u.0) in
      rw (hit, none_left) (omega arith)
]

-- One more infohash asked for adds at most the rows that have it.
entries-cons :
    (h : Bytes) (hashes : List Bytes) (rs : List Release)
    → length (magnet_entries (h ∷ hashes) rs)
      ≤ length (magnet_entries hashes rs) + count_if (has_infohash h) rs
unfolding magnet_entries
entries-cons h hashes [] = omega arith
entries-cons h hashes (r ∷ rs) = elim (Option-cases r.magnet) [
  | inl n ↦ rw (n, magnet_entries) (ground (arith, entries-cons h hashes rs))
  | inr (m, e) ↦ rw (e, magnet_entries) (ground (arith, entries-cons h hashes rs))
]

entries-none : (rs : List Release) → magnet_entries [] rs ≡ []
unfolding magnet_entries
entries-none [] = refl
entries-none (r ∷ rs) = elim (Option-cases r.magnet) [
  | inl n ↦ rw (n, magnet_entries) (entries-none rs)
  | inr (m, e) ↦ rw (e, magnet_entries) (entries-none rs)
]

length-entries :
    (hashes : List Bytes) (rs : List Release)
    → UniqueKeys rs
    → length (magnet_entries hashes rs) ≤ length hashes
length-entries [] rs u = rw (entries-none rs) (omega arith)
length-entries (h ∷ hashes) rs u =
    omega (arith, entries-cons h hashes rs, length-entries hashes rs u, count-UniqueKeys h rs u)

resolved-le :
    (fails : Faults) (m : ℕ) (hashes : List Bytes) (db : Db) (magnets : List (Bytes × Bytes))
    → Inv m db
    → resolve_magnets fails hashes db ≡ ok magnets
    → length magnets ≤ length hashes
unfolding resolve_magnets
resolved-le fails m hashes db magnets v e = ground (arith, length-entries hashes db.releases v.keys)

abbrev pub is_label : Bytes → List Bytes → Bool
is_label l [] = false
is_label l (x ∷ ls) = bytes_eq x l

total-add_positive :
    (p : List Bytes → Bool) (l : Bytes) (n : ℕ) (v : CounterVec)
    → total p (add_positive l n v) ≡ total p v + (if p (l ∷ []) then n else 0)
total-add_positive p l n v = ground arith

settle_resolve-answered :
    (asked : List Bytes) (r : Result (List (Bytes × Bytes))) (k : Takuhai)
    (magnets : List (Bytes × Bytes))
    → (settle_resolve asked r k).1 ≡ answered magnets
    → r ≡ ok magnets
unfolding settle_resolve
settle_resolve-answered asked (err e) k magnets h = cc
settle_resolve-answered asked (ok found) k magnets h = cc

-- How the counters of one label grow.
resolved_total :
    (p : List Bytes → Bool) (hits misses : ℕ) (k : Takuhai)
    → total p (record_resolved hits misses k).mcp_resolve_infohashes
      ≡ total p k.mcp_resolve_infohashes
        + (if p (codes "hit" ∷ []) then hits else 0)
        + (if p (codes "miss" ∷ []) then misses else 0)
unfolding record_resolved
resolved_total p hits misses k =
    let first = total-add_positive p (codes "hit") hits k.mcp_resolve_infohashes in
    let second =
      total-add_positive p (codes "miss") misses
        (add_positive (codes "hit") hits k.mcp_resolve_infohashes) in
    omega (arith, first, second)

-- Under the invariant a call of resolve_magnets that succeeds counts every infohash asked for once:
-- the magnets found as hits and the rest as misses, and there are no more hits than were asked for.
pub resolve_counts :
    (fails : Faults) (m : ℕ) (hashes : List Bytes) (db : Db) (k : Takuhai)
    (magnets : List (Bytes × Bytes))
    → Inv m db
    → (resolve_magnets_tool fails hashes db k).1 ≡ answered magnets
    → let after = (resolve_magnets_tool fails hashes db k).0.mcp_resolve_infohashes in
      let before = k.mcp_resolve_infohashes in
      (total (is_label (codes "hit")) after
        ≡ total (is_label (codes "hit")) before + length magnets)
      × (total (is_label (codes "hit")) after + total (is_label (codes "miss")) after
          ≡ total (is_label (codes "hit")) before
            + total (is_label (codes "miss")) before
            + length hashes)
unfolding resolve_magnets_tool resolve_magnets_typed settle_resolve record_tool
resolve_counts fails m hashes db k magnets v e =
    let found = settle_resolve-answered hashes (resolve_magnets fails hashes db) k magnets e in
    let few = resolved-le fails m hashes db magnets v found in
    let k' = record_tool (codes "resolve_magnets") (codes "ok") k in
    let misses = length hashes - length magnets in
    let hit = resolved_total (is_label (codes "hit")) (length magnets) misses k' in
    let miss = resolved_total (is_label (codes "miss")) (length magnets) misses k' in
    rw found (omega (arith, hit, miss, few), omega (arith, hit, miss, few))
