-- ===== src/Infohash/Magnet.antt =====
-- Magnet links: the v1 btih is found behind its marker, whatever stands around it.
use takuhai.Base.{
  All, Bool, Bytes, [], ap, append_assoc, arith, bytes_eq, codes, contains, drop, false, has_prefix,
  if◌then◌else◌, length, length-append, none, refl, some, sym, true, up_to_byte, ℕ, ◌++◌, ◌||◌, ◌∙◌,
  ◌∷◌, ◌≡◌, ◌≤◌,
}
use takuhai.Errors.{err, skip_infohash}
use takuhai.Stdlib.Trim.{IsVisible, trim_space_visible}
use takuhai.Infohash.{btih_marker, after_first, canonical_btih, payload_btih, normalize_infohash}
use takuhai.Infohash.Canonical.{Lacks}

-- A prefix no longer than u is sought in u alone.
has_prefix-append : (p u v : Bytes) → length p ≤ length u → has_prefix p (u ++ v) ≡ has_prefix p u
has_prefix-append [] u v h = refl
has_prefix-append (x ∷ p) [] v h = absurd (omega arith)
has_prefix-append (x ∷ p) (c ∷ u) v h = ground (arith, has_prefix-append p u v)

-- The marker without its last byte.
abbrev marker_start : Bytes
marker_start = codes "urn:btih"

or_false : (a b : Bool) → (a || b) ≡ false → (a ≡ false) × (b ≡ false)
or_false a b h = ground arith

room : (c : ℕ) (pre : Bytes) → length btih_marker ≤ length (c ∷ pre ++ marker_start)
room c pre = omega (arith, length-append pre marker_start)

ne_nil : (pre s : Bytes) (c : ℕ) → bytes_eq (pre ++ (c ∷ s)) [] ≡ false
ne_nil [] s c = refl
ne_nil (d ∷ pre) s c = refl

after_first-marker :
    (pre t : Bytes)
    → contains btih_marker (pre ++ marker_start) ≡ false
    → after_first btih_marker (pre ++ (btih_marker ++ t)) ≡ some t
after_first-marker [] t h = refl
after_first-marker (c ∷ pre) t h =
    let (here, later) =
      or_false (has_prefix btih_marker (c ∷ pre ++ marker_start))
        (contains btih_marker (pre ++ marker_start)) h in
    let fits = has_prefix-append btih_marker (c ∷ pre ++ marker_start) (b':' ∷ t) (room c pre) in
    let absent : has_prefix btih_marker (c ∷ pre ++ (btih_marker ++ t)) ≡ false =
      ap (λ r. has_prefix btih_marker (c ∷ r)) (sym (append_assoc pre marker_start (b':' ∷ t)))
      ∙ (fits ∙ here) in
    ap
      (λ b.
        if b
        then some (drop 9 (c ∷ pre ++ (btih_marker ++ t)))
        else after_first btih_marker (pre ++ (btih_marker ++ t)))
      absent
    ∙ after_first-marker pre t later

up_to_byte_end : (b : ℕ) (h rest : Bytes) → Lacks b h → up_to_byte b (h ++ (b ∷ rest)) ≡ h
up_to_byte_end b [] rest l = ground arith
up_to_byte_end b (c ∷ h) rest l = ground (arith, up_to_byte_end b h rest l.1)

-- In a visible text whose part before the marker does not hold it, the infohash is that of the
-- bytes between the first marker and the ampersand behind it.
pub normalize_magnet :
    (pre h rest : Bytes)
    → All IsVisible (pre ++ (btih_marker ++ (h ++ (b'&' ∷ rest))))
    → contains btih_marker (pre ++ marker_start) ≡ false
    → Lacks b'&' h
    → normalize_infohash (pre ++ (btih_marker ++ (h ++ (b'&' ∷ rest)))) ≡ canonical_btih h
unfolding normalize_infohash payload_btih
normalize_magnet pre h rest v m l =
    rw
      (
        trim_space_visible (pre ++ (btih_marker ++ (h ++ (b'&' ∷ rest)))) v,
        ne_nil pre (codes "rn:btih:" ++ (h ++ (b'&' ∷ rest))) b'u',
        after_first-marker pre (h ++ (b'&' ∷ rest)) m,
      )
      (ap canonical_btih (up_to_byte_end b'&' h rest l))

-- A visible magnet that does not hold the v1 marker, such as one of a pure v2 torrent, is skipped.
normalize_v2 :
    (s : Bytes)
    → All IsVisible s
    → after_first btih_marker s ≡ none
    → has_prefix (codes "magnet:") s ≡ true
    → normalize_infohash s ≡ err skip_infohash
unfolding normalize_infohash payload_btih
normalize_v2 [] v m p = cc
normalize_v2 (c ∷ s) v m p = rw (trim_space_visible (c ∷ s) v, m, payload_btih, p)
