-- ===== src/Infohash/Tests.antt =====
-- Runs.
use takuhai.Base.{
  All, All-all_if, Bytes, [], all_if, arith, codes, leb, refl, true, ◌&&◌, ◌++◌, ◌==◌, ◌∷◌, ◌≡◌,
}
use takuhai.Stdlib.Base32.Value.{IsBase32}
use takuhai.Stdlib.Base32.{is_base32}
use takuhai.Stdlib.Trim.{IsVisible}
use takuhai.Errors.{ok}
use takuhai.Infohash.{normalize_infohash, canonical_btih, btih_marker, to_upper, to_upper}
use takuhai.Infohash.Canonical.{IsCanonical, normalize-IsCanonical, normalize_hex, Lacks}
use takuhai.Infohash.Spellings.{normalize_same}
use takuhai.Infohash.Magnet.{normalize_magnet}
use takuhai.Stdlib.Hex.{to_lower}

visible : (s : Bytes) → all_if (λ c. leb 33 c && leb c 126) s ≡ true → All IsVisible s
visible [] h = tt
visible (c ∷ s) h = ((ground (arith, h), ground (arith, h)), visible s (ground (arith, h)))

zeros-only : (s : Bytes) → all_if (λ c. c == b'0') s ≡ true → Lacks b'&' s
zeros-only [] h = tt
zeros-only (c ∷ s) h = (λ e. ground (arith, h, e), zeros-only s (ground (arith, h)))

abbrev upper_hex : Bytes
upper_hex = codes "0123456789ABCDEF0123456789ABCDEF01234567"

abbrev zeros_hex : Bytes
zeros_hex = codes "0000000000000000000000000000000000000000"

abbrev zeros_base32 : Bytes
zeros_base32 = codes "aaaaaaaaaaaaaaaaaaaaaaaaaaaaaaaa"

normalize_hex_example : normalize_infohash upper_hex ≡ ok (to_lower upper_hex)
normalize_hex_example = normalize_hex upper_hex refl refl

normalize-IsCanonical_example : IsCanonical (to_lower upper_hex)
normalize-IsCanonical_example =
    normalize-IsCanonical upper_hex (to_lower upper_hex) (normalize_hex upper_hex refl refl)

zeros-IsBase32 : All IsBase32 (to_upper zeros_base32)
zeros-IsBase32 = All-all_if is_base32 (to_upper zeros_base32) refl

normalize_same_example : normalize_infohash zeros_hex ≡ normalize_infohash zeros_base32
normalize_same_example = normalize_same zeros_hex zeros_base32 refl refl refl zeros-IsBase32 refl

abbrev v2_magnet : Bytes
v2_magnet = codes "magnet:?xt=urn:btmh:1220ab"

v2-IsVisible : All IsVisible v2_magnet
v2-IsVisible = visible v2_magnet refl

abbrev magnet_start : Bytes
magnet_start = codes "magnet:?xt="

abbrev magnet_end : Bytes
magnet_end = codes "dn=x"

abbrev whole_magnet : Bytes
whole_magnet = magnet_start ++ (btih_marker ++ (zeros_hex ++ (b'&' ∷ magnet_end)))

magnet-IsVisible : All IsVisible whole_magnet
magnet-IsVisible = visible whole_magnet refl

zeros-Lacks : Lacks b'&' zeros_hex
zeros-Lacks = zeros-only zeros_hex refl

normalize_magnet_example :
    normalize_infohash (magnet_start ++ (btih_marker ++ (zeros_hex ++ (b'&' ∷ magnet_end))))
    ≡ canonical_btih zeros_hex
normalize_magnet_example =
    normalize_magnet magnet_start zeros_hex magnet_end magnet-IsVisible refl zeros-Lacks
