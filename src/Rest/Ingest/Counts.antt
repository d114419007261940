-- ===== src/Rest/Ingest/Counts.antt =====
-- The buckets of a batch.
use takuhai.Base.{
  Bool, Bytes, List, [], ap, arith, false, if◌then◌else◌, length, refl, subst, true, ℕ, ◌+◌, ◌∷◌,
  ◌≡◌,
}
use takuhai.Errors.{ok-injective, Result, ok, err, >>=-eq-ok, Error}
use takuhai.RawPost.{IngestBatch, RawPost}
use takuhai.Store.{Db}
use takuhai.Store.Ingest.{IngestOutcome, new, updated, duplicate, conflict}
use takuhai.Store.Ingest.Grows.{Grown, added_releases, added_items, ingest_n-Grown}
use takuhai.Rest.Ingest.{
  is_skip, count_outcome, and_then, ingest_post, Env, ingest_n, ingest_params, ingest_batch,
  ingest_batch, count_skipped, normalize_infohash, empty_batch,
}

abbrev pub total : IngestBatch → ℕ
total b = b.new + b.updated + b.duplicate + b.conflict + b.skipped

count-total : (o : IngestOutcome) (b : IngestBatch) → total (count_outcome o b) ≡ total b + 1
unfolding count_outcome
count-total new b = omega arith
count-total updated b = omega arith
count-total duplicate b = omega arith
count-total conflict b = omega arith

pub pair_≡ {ℓ κ} :
    {A : Type ℓ} {B : Type κ} {a a' : A} {b b' : B}
    → a ≡ a'
    → b ≡ b'
    → ◌≡◌ {A = A × B} (a, b) (a', b')
pair_≡ p q = cc

-- What a chain that succeeds went through.
pub and_then-eq-ok {ℓ κ} :
    {A : Type ℓ} {B : Type κ} (x : Db × Result A) (f : A → Db → Db × Result B) (db' : Db) (b : B)
    → and_then x f ≡ (db', ok b)
    → (db1 : Db) × (a : A) × (x ≡ (db1, ok a)) × (f a db1 ≡ (db', ok b))
and_then-eq-ok (db1, ok a) f db' b e = (db1, a, refl, e)
and_then-eq-ok (db1, err x) f db' b e = cc (ap (λ y. y.1) e)

-- What the ingest of a post adds to the tables and to the buckets.
abbrev Grows : ℕ → Db → Db → IngestBatch → IngestBatch → Type 0
Grows n db db' b b' =
    (total b' ≡ total b + n)
    × (length db'.releases + b.new ≡ length db.releases + b'.new)
    × (length db'.raw_items + b.new + b.updated ≡ length db.raw_items + b'.new + b'.updated)

Grows-trans :
    (n k : ℕ) (db db1 db2 : Db) (b b1 b2 : IngestBatch)
    → Grows n db db1 b b1
    → Grows k db1 db2 b1 b2
    → Grows (n + k) db db2 b b2
Grows-trans n k db db1 db2 b b1 b2 (g1, g2, g3) (h1, h2, h3) =
    (omega (arith, g1, h1), omega (arith, g2, h2), omega (arith, g3, h3))

count-Grows :
    (o : IngestOutcome) (b : IngestBatch) (db db' : Db)
    → Grown (added_releases o) (added_items o) db db'
    → Grows 1 db db' b (count_outcome o b)
unfolding count_outcome
count-Grows new b db db' (g1, g2) = (omega arith, omega (arith, g1), omega (arith, g2))
count-Grows updated b db db' (g1, g2) = (omega arith, omega (arith, g1), omega (arith, g2))
count-Grows duplicate b db db' (g1, g2) = (omega arith, omega (arith, g1), omega (arith, g2))
count-Grows conflict b db db' (g1, g2) = (omega arith, omega (arith, g1), omega (arith, g2))

skipped-Grows :
    (skip : Bool) (x : Error) (b b' : IngestBatch) (db db' : Db)
    → db ≡ db'
    → (if skip then ok (count_skipped b) else err x) ≡ ok b'
    → Grows 1 db db' b b'
skipped-Grows false x b b' db db' same e = cc
skipped-Grows true x b b' db db' same e =
    subst (λ d. Grows 1 db d b b') same
      (subst (Grows 1 db db b) (ok-injective e) (omega arith, omega arith, omega arith))

ingest_post-Grows :
    (env : Env) (post : RawPost) (h : Result Bytes) (b b' : IngestBatch) (db db' : Db)
    → ingest_post env post h b db ≡ (db', ok b')
    → Grows 1 db db' b b'
unfolding ingest_post
ingest_post-Grows env post (ok ih) b b' db db' e =
    let (o, done, same) =
      >>=-eq-ok (ingest_n env.fails env.now (ingest_params post ih) db).1 _ (ap (λ y. y.1) e) in
    let q : ingest_n env.fails env.now (ingest_params post ih) db ≡ (db', ok o) =
      pair_≡ (ap (λ y. y.0) e) done in
    subst (Grows 1 db db' b) (ok-injective same)
      (count-Grows o b db db' (ingest_n-Grown env.fails env.now (ingest_params post ih) db db' o q))
ingest_post-Grows env post (err x) b b' db db' e =
    skipped-Grows (is_skip x) x b b' db db' (ap (λ y. y.0) e) (ap (λ y. y.1) e)

ingest_batch-Grows :
    (env : ℕ → Env) (i : ℕ) (posts : List RawPost) (b b' : IngestBatch) (db db' : Db)
    → ingest_batch env i posts b db ≡ (db', ok b')
    → Grows (length posts) db db' b b'
unfolding ingest_batch
ingest_batch-Grows env i [] b b' db db' e =
    let same_b : b ≡ b' = ok-injective (ap (λ y. y.1) e) in
    let same_db : db ≡ db' = ap (λ y. y.0) e in
    subst (λ x. Grows 0 db x b b') same_db
      (subst (Grows 0 db db b) same_b (omega arith, omega arith, omega arith))
ingest_batch-Grows env i (post ∷ posts) b b' db db' e =
    let first = ingest_post (env i) post (normalize_infohash post.magnet) b db in
    let (db1, b1, here, rest) =
      and_then-eq-ok first (λ b1 db1. ingest_batch env (i + 1) posts b1 db1) db' b' e in
    let g = ingest_post-Grows (env i) post (normalize_infohash post.magnet) b b1 db db1 here in
    let h = ingest_batch-Grows env (i + 1) posts b1 b' db1 db' rest in
    let (t1, t2, t3) = Grows-trans 1 (length posts) db db1 db' b b1 b' g h in
    (omega (arith, t1), t2, t3)

-- A batch that succeeds puts every post in exactly one bucket; its new bucket is the number of
-- releases that it added, and the new and updated buckets that of the raw items.
pub batch_counts :
    (env : ℕ → Env) (posts : List RawPost) (b : IngestBatch) (db db' : Db)
    → ingest_batch env 0 posts empty_batch db ≡ (db', ok b)
    → (total b ≡ length posts)
      × (length db'.releases ≡ length db.releases + b.new)
      × (length db'.raw_items ≡ length db.raw_items + b.new + b.updated)
batch_counts env posts b db db' e =
    let (t1, t2, t3) = ingest_batch-Grows env 0 posts empty_batch b db db' e in
    (omega (arith, t1), omega (arith, t2), omega (arith, t3))
