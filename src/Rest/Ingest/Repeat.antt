-- ===== src/Rest/Ingest/Repeat.antt =====
-- The same batch once more, as a crawler sends it that lost the answer.
use takuhai.Base.{
  Bool, Bytes, List, Time, [], ap, arith, false, if◌then◌else◌, inl, inr, length, refl, subst, sym,
  true, ℕ, ◌+◌, ◌∙◌, ◌∷◌, ◌≡◌,
}
use takuhai.Errors.{ok-injective, Result, ok, err, >>=-eq-ok, Error}
use takuhai.RawPost.{IngestBatch, RawPost}
use takuhai.Infohash.{normalize_infohash}
use takuhai.Store.{Db, healthy, is_canonical_infohash}
use takuhai.Store.Ingest.{IngestOutcome, duplicate, conflict, ingest_n}
use takuhai.Store.Ingest.Seen.{Seen, ingest_n-Seen, ingested-Seen, ingest_n-again}
use takuhai.Rest.Ingest.{
  Env, is_skip, count_outcome, count_skipped, and_then, ingest_params, ingest_post, ingest_batch,
  empty_batch,
}
use takuhai.Rest.Ingest.Canonical.{normalize-is_canonical}
use takuhai.Rest.Ingest.Counts.{and_then-eq-ok, pair_≡, batch_counts}

-- The database works, at the time that the clock shows for each call.
abbrev pub works : (ℕ → Time) → ℕ → Env
works clock i = record { now = clock i; fails = healthy }

-- Every post with an infohash has an item.
abbrev Known : Db → RawPost → Type 0
Known db post =
    (h : Bytes) → normalize_infohash post.magnet ≡ ok h → Seen post.source post.source_id db

ingest_post-Seen :
    (env : Env) (post : RawPost) (h : Result Bytes) (b : IngestBatch) (db : Db)
    (source source_id : Bytes)
    → Seen source source_id db
    → Seen source source_id (ingest_post env post h b db).0
unfolding ingest_post
ingest_post-Seen env post (ok ih) b db source source_id s =
    ingest_n-Seen env.fails env.now (ingest_params post ih) db source source_id s
ingest_post-Seen env post (err x) b db source source_id s = s

-- What a post that does not end the batch went through.
ingest_post-eq-ok :
    (env : Env) (post : RawPost) (ih : Bytes) (b b' : IngestBatch) (db db' : Db)
    → ingest_post env post (ok ih) b db ≡ (db', ok b')
    → (o : IngestOutcome) × (ingest_n env.fails env.now (ingest_params post ih) db ≡ (db', ok o))
      × (count_outcome o b ≡ b')
unfolding ingest_post
ingest_post-eq-ok env post ih b b' db db' e =
    let (o, done, same) =
      >>=-eq-ok (ingest_n env.fails env.now (ingest_params post ih) db).1 _ (ap (λ y. y.1) e) in
    (o, pair_≡ (ap (λ y. y.0) e) done, ok-injective same)

ingest_post-Known :
    (env : Env) (post : RawPost) (b b' : IngestBatch) (db db' : Db)
    → ingest_post env post (normalize_infohash post.magnet) b db ≡ (db', ok b')
    → Known db' post
ingest_post-Known env post b b' db db' e h q =
    let e' : ingest_post env post (ok h) b db ≡ (db', ok b') = rw q at e in
    let (o, done, counted) = ingest_post-eq-ok env post h b b' db db' e' in
    ingested-Seen env.fails env.now (ingest_params post h) db db' o
      (normalize-is_canonical post.magnet h q) done

ingest_batch-Seen :
    (env : ℕ → Env) (i : ℕ) (posts : List RawPost) (b b' : IngestBatch) (db db' : Db)
    (source source_id : Bytes)
    → ingest_batch env i posts b db ≡ (db', ok b')
    → Seen source source_id db
    → Seen source source_id db'
unfolding ingest_batch
ingest_batch-Seen env i [] b b' db db' source source_id e s =
    subst (Seen source source_id) (ap (λ y. y.0) e) s
ingest_batch-Seen env i (post ∷ posts) b b' db db' source source_id e s =
    let first = ingest_post (env i) post (normalize_infohash post.magnet) b db in
    let (db1, b1, here, rest) =
      and_then-eq-ok first (λ b1 db1. ingest_batch env (i + 1) posts b1 db1) db' b' e in
    ingest_batch-Seen env (i + 1) posts b1 b' db1 db' source source_id rest (
      subst (Seen source source_id) (ap (λ y. y.0) here)
        (ingest_post-Seen (env i) post (normalize_infohash post.magnet) b db source source_id s))

-- What repeating adds to the buckets of the second batch, by those of the first.
record Repeats (b b' a a' : IngestBatch) : Type 0 where
  none_new : a'.new ≡ a.new
  none_updated : a'.updated ≡ a.updated
  skipped : a'.skipped + b.skipped ≡ a.skipped + b'.skipped

count-skipped : (o : IngestOutcome) (b : IngestBatch) → (count_outcome o b).skipped ≡ b.skipped
unfolding count_outcome
count-skipped IngestOutcome.new b = refl
count-skipped IngestOutcome.updated b = refl
count-skipped IngestOutcome.duplicate b = refl
count-skipped IngestOutcome.conflict b = refl

outcome-Repeats :
    (o : IngestOutcome) (b b' a : IngestBatch)
    → count_outcome o b ≡ b'
    → Repeats b b' a (count_outcome duplicate a) × Repeats b b' a (count_outcome conflict a)
unfolding count_outcome
outcome-Repeats o b b' a e =
    let same : a.skipped + b.skipped ≡ a.skipped + b'.skipped =
      ap (λ n. a.skipped + n) (sym (count-skipped o b) ∙ ap (λ z. z.skipped) e) in
    (
      record { none_new = refl; none_updated = refl; skipped = same },
      record { none_new = refl; none_updated = refl; skipped = same },
    )

skip_again :
    (skip : Bool) (x : Error) (b b' a : IngestBatch)
    → (if skip then ok (count_skipped b) else err x) ≡ ok b'
    → ((if skip then ok (count_skipped a) else err x) ≡ ok (count_skipped a))
      × Repeats b b' a (count_skipped a)
skip_again false x b b' a e = cc
skip_again true x b b' a e = (
  refl,
  record {
    none_new = refl;
    none_updated = refl;
    skipped = omega (arith, ap (λ z. z.skipped) (ok-injective e));
  },
)

-- One post again, once the tables have its item.
post_again :
    (env : Env) (now : Time) (post : RawPost) (h : Result Bytes) (b b' a : IngestBatch)
    (db db' last : Db)
    → ingest_post env post h b db ≡ (db', ok b')
    → ((ih : Bytes)
        → h ≡ ok ih
        → (is_canonical_infohash ih ≡ true) × Seen post.source post.source_id last)
    → (a' : IngestBatch) × (ingest_post (record { now = now; fails = healthy }) post h a last
        ≡ (last, ok a'))
      × Repeats b b' a a'
unfolding ingest_post
post_again env now post (err x) b b' a db db' last e k =
    let (same, r) = skip_again (is_skip x) x b b' a (ap (λ y. y.1) e) in
    (count_skipped a, pair_≡ refl same, r)
post_again env now post (ok ih) b b' a db db' last e k =
    let (o, done, counted) = ingest_post-eq-ok env post ih b b' db db' e in
    let (c, seen) = k ih refl in
    let (as_duplicate, as_conflict) = outcome-Repeats o b b' a counted in
    elim (ingest_n-again now (ingest_params post ih) last c seen) [
      | inl q ↦ (count_outcome duplicate a, rw q refl, as_duplicate)
      | inr q ↦ (count_outcome conflict a, rw q refl, as_conflict)
    ]

batch_again :
    (env : ℕ → Env) (clock : ℕ → Time) (i : ℕ) (posts : List RawPost) (b b' a : IngestBatch)
    (db last : Db)
    → ingest_batch env i posts b db ≡ (last, ok b')
    → (a' : IngestBatch) × (ingest_batch (works clock) i posts a last ≡ (last, ok a'))
      × Repeats b b' a a'
unfolding ingest_batch
batch_again env clock i [] b b' a db last e =
    let same = ok-injective (ap (λ y. y.1) e) in
    (
      a,
      refl,
      record {
        none_new = refl;
        none_updated = refl;
        skipped = ap (λ z. a.skipped + z.skipped) same;
      },
    )
batch_again env clock i (post ∷ posts) b b' a db last e =
    let h = normalize_infohash post.magnet in
    let (db1, b1, here, rest) =
      and_then-eq-ok (ingest_post (env i) post h b db)
        (λ b1 db1. ingest_batch env (i + 1) posts b1 db1) last b' e in
    let known = ingest_post-Known (env i) post b b1 db db1 here in
    let (a1, q, r) = post_again (env i) (clock i) post h b b1 a db db1 last here λ ih n. (
      normalize-is_canonical post.magnet ih n,
      ingest_batch-Seen env (i + 1) posts b1 b' db1 last post.source post.source_id rest
          (known ih n),
    ) in
    let (a', q', r') = batch_again env clock (i + 1) posts b1 b' a1 db1 last rest in
    (
      a',
      ap (λ x. and_then x λ b db. ingest_batch (works clock) (i + 1) posts b db) q ∙ q',
      record {
        none_new = r'.none_new ∙ r.none_new;
        none_updated = r'.none_updated ∙ r.none_updated;
        skipped = omega (arith, r.skipped, r'.skipped);
      },
    )

-- A batch that succeeded, whatever its outcomes, changes nothing when it is ingested again while
-- the database works: it succeeds, no post is new or updated, the same posts are skipped, and all
-- others are duplicates or conflicts.
pub ingest_batch-twice :
    (env : ℕ → Env) (clock : ℕ → Time) (posts : List RawPost) (b : IngestBatch) (db db' : Db)
    → ingest_batch env 0 posts empty_batch db ≡ (db', ok b)
    → (again : IngestBatch) × (ingest_batch (works clock) 0 posts empty_batch db' ≡ (db', ok again))
      × (again.new ≡ 0)
      × (again.updated ≡ 0)
      × (again.skipped ≡ b.skipped)
      × (again.duplicate + again.conflict + b.skipped ≡ length posts)
ingest_batch-twice env clock posts b db db' e =
    let (again, q, r) = batch_again env clock 0 posts empty_batch b empty_batch db db' e in
    let (all, releases, items) = batch_counts (works clock) posts again db' db' q in
    (
      again,
      q,
      r.none_new,
      r.none_updated,
      omega (arith, r.skipped),
      omega (arith, all, r.none_new, r.none_updated, r.skipped),
    )
