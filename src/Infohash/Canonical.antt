-- ===== src/Infohash/Canonical.antt =====
-- What NormalizeInfohash returns is canonical, and a canonical infohash is returned unchanged.
use takuhai.Base.{
  ==_iff, All, Bool-cases, Bytes, Option, [], all_if, ap, arith, bytes_eq, bytes_ne, codes,
  contains, false, has_prefix, inl, inr, length, length-map, none, not, refl, some, subst, suc,
  true, up_to_byte, ℕ, ◌==◌, ◌||◌, ◌∙◌, ◌∷◌, ◌≡◌, ◌≢◌,
}
use takuhai.Errors.{ok, skip_infohash, guard-eq-ok, err}
use takuhai.Stdlib.Trim.{trim_space, IsVisible, trim_space_visible}
use takuhai.Stdlib.Hex.{
  to_lower, to_upper, to_lower_byte, hex_encode, is_lower_hex, hex_encode-lower, length-hex_encode,
  IsByte,
}
use takuhai.Stdlib.Base32.{decode_string}
use takuhai.Stdlib.Base32.Range.{decode_string-IsByte}
use takuhai.Infohash.{
  btih_marker, after_first, is_hex_byte, is_hex40, encode_btih, canonical_btih, payload_btih,
  normalize_infohash,
}

-- 40 lower case hexadecimal digits.
pub record IsCanonical (h : Bytes) : Type 0 where
  pub size : length h ≡ 40
  pub digits : All (λ c. is_lower_hex c ≡ true) h

to_lower-hex :
    (s : Bytes) → all_if is_hex_byte s ≡ true → All (λ c. is_lower_hex c ≡ true) (to_lower s)
to_lower-hex [] h = tt
to_lower-hex (c ∷ s) h = (ground arith, to_lower-hex s (ground arith))

encode_btih-IsCanonical :
    (o : Option Bytes) (h : Bytes)
    → ((b : Bytes) → o ≡ some b → All IsByte b)
    → encode_btih o ≡ ok h
    → IsCanonical h
unfolding encode_btih
encode_btih-IsCanonical none h bytes e = cc
encode_btih-IsCanonical (some b) h bytes e = elim (Bool-cases (length b == 20)) [
  | inl q ↦
      let canonical : IsCanonical (hex_encode b) = record {
        size = omega (arith, length-hex_encode b, (==_iff (length b) 20).0 q);
        digits = hex_encode-lower b (bytes b refl);
      } in
      subst IsCanonical (ground arith) canonical
  | inr q ↦ absurd (ground arith)
]

hex40-IsCanonical : (s : Bytes) → length s ≡ 40 → is_hex40 s ≡ true → IsCanonical (to_lower s)
unfolding is_hex40
hex40-IsCanonical s l e = record {
  size = length-map to_lower_byte s ∙ l;
  digits = to_lower-hex s e;
}

canonical_btih-IsCanonical : (s h : Bytes) → canonical_btih s ≡ ok h → IsCanonical h
unfolding canonical_btih
canonical_btih-IsCanonical s h e = ground (
  arith,
  hex40-IsCanonical s,
  encode_btih-IsCanonical (decode_string (to_upper s)) h (decode_string-IsByte (to_upper s)),
)

payload_btih-IsCanonical :
    (o : Option Bytes) (s h : Bytes) → payload_btih o s ≡ ok h → IsCanonical h
unfolding payload_btih
payload_btih-IsCanonical (some t) s h e = canonical_btih-IsCanonical (up_to_byte b'&' t) h e
payload_btih-IsCanonical none s h e =
    canonical_btih-IsCanonical s h
      (guard-eq-ok (has_prefix (codes "magnet:") s || contains (codes "urn:btmh:") s) skip_infohash
        (canonical_btih s) e).1

-- An infohash that NormalizeInfohash returns is 40 lower case hexadecimal digits.
pub normalize-IsCanonical : (raw h : Bytes) → normalize_infohash raw ≡ ok h → IsCanonical h
unfolding normalize_infohash
normalize-IsCanonical raw h e =
    let s = trim_space raw in
    let o = after_first btih_marker s in
    payload_btih-IsCanonical o s h
      (guard-eq-ok (bytes_eq s []) skip_infohash (payload_btih o s) e).1

-- No byte is the given one.
abbrev pub Lacks : ℕ → Bytes → Type 0
Lacks b = All (λ c. c ≢ b)

has_prefix-Lacks :
    (b : ℕ) (p s : Bytes)
    → Lacks b s
    → all_if (λ c. not (c == b)) p ≡ false
    → has_prefix p s ≡ false
has_prefix-Lacks b [] s l h = cc
has_prefix-Lacks b (x ∷ p) [] l h = refl
has_prefix-Lacks b (x ∷ p) (c ∷ s) l h = ground (arith, has_prefix-Lacks b p s l.1)

pub after_first-Lacks :
    (b : ℕ) (p s : Bytes)
    → Lacks b s
    → all_if (λ c. not (c == b)) p ≡ false
    → after_first p s ≡ none
after_first-Lacks b p [] l h = rw (has_prefix-Lacks b p [] tt h)
after_first-Lacks b p (c ∷ s) l h =
    rw (has_prefix-Lacks b p (c ∷ s) l h) (after_first-Lacks b p s l.1 h)

contains-Lacks :
    (b : ℕ) (p s : Bytes) → Lacks b s → all_if (λ c. not (c == b)) p ≡ false → contains p s ≡ false
contains-Lacks b p [] l h = has_prefix-Lacks b p [] tt h
contains-Lacks b p (c ∷ s) l h = rw (has_prefix-Lacks b p (c ∷ s) l h) (contains-Lacks b p s l.1 h)

-- A visible text with no colon is taken for a bare btih.
pub normalize_bare :
    (s : Bytes) → All IsVisible s → Lacks b':' s → s ≢ [] → normalize_infohash s ≡ canonical_btih s
unfolding normalize_infohash payload_btih
normalize_bare s v l n = rw (
  trim_space_visible s v,
  bytes_ne s [] n,
  after_first-Lacks b':' btih_marker s l refl,
  payload_btih,
  has_prefix-Lacks b':' (codes "magnet:") s l refl,
  contains-Lacks b':' (codes "urn:btmh:") s l refl,
)

pub hex-IsVisible : (s : Bytes) → all_if is_hex_byte s ≡ true → All IsVisible s × Lacks b':' s
hex-IsVisible [] h = (tt, tt)
hex-IsVisible (c ∷ s) h = ground (arith, hex-IsVisible s)

pub ne_nil_of_length : (s : Bytes) (n : ℕ) → length s ≡ suc n → s ≢ []
ne_nil_of_length [] n l e = absurd (omega arith)
ne_nil_of_length (c ∷ s) n l e = cc

-- Forty hexadecimal digits of either case are returned in lower case.
pub normalize_hex :
    (s : Bytes)
    → length s ≡ 40
    → all_if is_hex_byte s ≡ true
    → normalize_infohash s ≡ ok (to_lower s)
unfolding canonical_btih is_hex40
normalize_hex s l h =
    let (v, c) = hex-IsVisible s h in normalize_bare s v c (ne_nil_of_length s 39 l) ∙ rw (l, h)

lower_hex :
    (s : Bytes)
    → All (λ c. is_lower_hex c ≡ true) s
    → (all_if is_hex_byte s ≡ true) × (to_lower s ≡ s)
lower_hex [] h = (refl, refl)
lower_hex (c ∷ s) h = ground (arith, lower_hex s h.1)

-- A canonical infohash is returned as it is, so normalizing twice is normalizing once.
pub normalize_fixed : (h : Bytes) → IsCanonical h → normalize_infohash h ≡ ok h
normalize_fixed h c =
    let (hex, same) = lower_hex h c.digits in normalize_hex h c.size hex ∙ ap ok same

pub normalize_empty : normalize_infohash [] ≡ err skip_infohash
unfolding normalize_infohash
normalize_empty = rw (trim_space_visible [] tt) refl
