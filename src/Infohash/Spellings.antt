-- ===== src/Infohash/Spellings.antt =====
-- The spellings of one torrent: hexadecimal digits of either case, and base32.
use takuhai.Base.{
  All, Bytes, [], all_if, ap, arith, length, length-map, map, refl, sym, true, ℕ, ◌*◌, ◌+◌, ◌<◌,
  ◌∙◌, ◌∷◌, ◌≡◌,
}
use takuhai.Errors.{ok}
use takuhai.Stdlib.Trim.{IsVisible}
use takuhai.Stdlib.Hex.{
  to_lower, to_upper, hex_encode, hex_value, is_lower_hex, number, number-hex_encode,
}
use takuhai.Stdlib.Base32.{base32_value}
use takuhai.Stdlib.Base32.Value.{IsBase32, decode_string_btih}
use takuhai.Infohash.{is_hex_byte, encode_btih, canonical_btih, normalize_infohash}
use takuhai.Infohash.Canonical.{
  Lacks, ne_nil_of_length, normalize-IsCanonical, normalize_bare, normalize_hex,
}

base32-IsVisible : (s : Bytes) → All IsBase32 (to_upper s) → All IsVisible s × Lacks b':' s
base32-IsVisible [] h = (tt, tt)
base32-IsVisible (c ∷ s) h = ground (arith, base32-IsVisible s h.1)

-- A base32 btih of 32 characters, of either case, is turned into the hexadecimal digits of the
-- same number.
normalize_base32 :
    (s : Bytes)
    → All IsBase32 (to_upper s)
    → length s ≡ 32
    → (h : Bytes) × (normalize_infohash s ≡ ok h)
      × (number 16 0 (map hex_value h) ≡ number 32 0 (map base32_value (to_upper s)))
unfolding canonical_btih encode_btih
normalize_base32 s b l =
    let (v, c) = base32-IsVisible s b in
    let (bs, run, len, small, val) = decode_string_btih (to_upper s) b (length-map _ s ∙ l) in
    (
      hex_encode bs,
      normalize_bare s v c (ne_nil_of_length s 31 l) ∙ rw (l, run, encode_btih) (rw len),
      number-hex_encode 0 bs small ∙ val 0,
    )

hex_value_lt : (c : ℕ) → is_lower_hex c ≡ true → hex_value c < 16
hex_value_lt c h = ground arith

hex_value_inj :
    (c d : ℕ) → is_lower_hex c ≡ true → is_lower_hex d ≡ true → hex_value c ≡ hex_value d → c ≡ d
hex_value_inj c d p q e = ground arith

-- Lower case hexadecimal texts of one length that stand for one number are one text.
number_inj :
    (acc acc' : ℕ) (xs ys : Bytes)
    → length xs ≡ length ys
    → All (λ c. is_lower_hex c ≡ true) xs
    → All (λ c. is_lower_hex c ≡ true) ys
    → number 16 acc (map hex_value xs) ≡ number 16 acc' (map hex_value ys)
    → (acc ≡ acc') × (xs ≡ ys)
number_inj acc acc' [] [] l hx hy e = (e, refl)
number_inj acc acc' [] (y ∷ ys) l hx hy e = absurd (omega arith)
number_inj acc acc' (x ∷ xs) [] l hx hy e = absurd (omega arith)
number_inj acc acc' (x ∷ xs) (y ∷ ys) l hx hy e =
    let ih =
      number_inj (acc * 16 + hex_value x) (acc' * 16 + hex_value y) xs ys (omega arith) hx.1 hy.1
        e in
    let p = hex_value_lt x hx.0 in
    let q = hex_value_lt y hy.0 in
    let same = hex_value_inj x y hx.0 hy.0 (omega (arith, ih.0, p, q)) in
    (omega (arith, ih.0, p, q), cc (ih.1, same))

hex_value-lower :
    (s : Bytes) → all_if is_hex_byte s ≡ true → map hex_value (to_lower s) ≡ map hex_value s
hex_value-lower [] h = refl
hex_value-lower (c ∷ s) h = ground (arith, hex_value-lower s)

-- A hexadecimal and a base32 spelling of one number, each of either case, are normalized to the
-- same infohash.
pub normalize_same :
    (s t : Bytes)
    → length s ≡ 40
    → all_if is_hex_byte s ≡ true
    → length t ≡ 32
    → All IsBase32 (to_upper t)
    → number 16 0 (map hex_value s) ≡ number 32 0 (map base32_value (to_upper t))
    → normalize_infohash s ≡ normalize_infohash t
normalize_same s t ls hs lt bt e =
    let (h, run, val) = normalize_base32 t bt lt in
    let lower = normalize_hex s ls hs in
    let cs = normalize-IsCanonical s (to_lower s) lower in
    let ct = normalize-IsCanonical t h run in
    lower
    ∙ (ap ok
          (number_inj 0 0 (to_lower s) h (cs.size ∙ sym ct.size) cs.digits ct.digits
            (ap (number 16 0) (hex_value-lower s hs) ∙ (e ∙ sym val))).1
        ∙ sym run)
