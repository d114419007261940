-- ===== src/Rest/Ingest/Canonical.antt =====
-- The infohash that a post is ingested under.
use takuhai.Base.{All, Bytes, [], all_if, arith, ltb, not, refl, true, ◌&&◌, ◌||◌, ◌∷◌, ◌≡◌}
use takuhai.Errors.{ok}
use takuhai.Stdlib.Hex.{is_lower_hex}
use takuhai.Infohash.{normalize_infohash}
use takuhai.Infohash.Canonical.{normalize-IsCanonical}
use takuhai.Store.{is_canonical_infohash}

digits_pass :
    (s : Bytes)
    → All (λ c. is_lower_hex c ≡ true) s
    → all_if (λ c. not ((ltb c b'0' || ltb b'9' c) && (ltb c b'a' || ltb b'f' c))) s ≡ true
digits_pass [] h = refl
digits_pass (c ∷ s) h = ground (arith, digits_pass s h.1, h.0)

-- Whatever NormalizeInfohash returns passes the store's own check of canonical infohashes.
pub normalize-is_canonical :
    (raw h : Bytes) → normalize_infohash raw ≡ ok h → is_canonical_infohash h ≡ true
unfolding is_canonical_infohash
normalize-is_canonical raw h e =
    let c = normalize-IsCanonical raw h e in rw c.size (digits_pass h c.digits)
