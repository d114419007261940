-- ===== src/Infohash.antt =====
-- internal/infohash/infohash.go: the canonical v1 btih of a post's magnet, 40 lower case
-- hexadecimal digits, or the sentinel for a post that has none.
pub mod Canonical
pub mod Spellings
pub mod Magnet
mod Tests
use takuhai.Base.{
  Bool, Bytes, Option, [], all_if, bytes_eq, codes, contains, drop, has_prefix, if◌then◌else◌,
  length, ltb, none, not, some, up_to_byte, ℕ, ◌&&◌, ◌==◌, ◌||◌, ◌∷◌,
}
use takuhai.Errors.{Result, ok, err, skip_infohash}
use takuhai.Stdlib.Trim.{trim_space}
use takuhai.Stdlib.Hex.{to_lower, to_upper, hex_encode}
use takuhai.Stdlib.Base32.{decode_string}

abbrev pub btih_marker : Bytes
btih_marker = codes "urn:btih:"

-- s[i+len(sep):] for i = strings.Index(s, sep), where sep occurs.
abbrev pub after_first : Bytes → Bytes → Option Bytes
after_first sep [] = if has_prefix sep [] then some [] else none
after_first sep (c ∷ s) =
    if has_prefix sep (c ∷ s) then some (drop (length sep) (c ∷ s)) else after_first sep s

abbrev pub is_hex_byte : ℕ → Bool
is_hex_byte c =
    not ((ltb c b'0' || ltb b'9' c) && (ltb c b'a' || ltb b'f' c) && (ltb c b'A' || ltb b'F' c))

pub is_hex40 : Bytes → Bool
is_hex40 s = all_if is_hex_byte s

-- hex.EncodeToString(b), where the decoding gave 20 bytes.
encode_btih : Option Bytes → Result Bytes
encode_btih none = err skip_infohash
encode_btih (some b) = if length b == 20 then ok (hex_encode b) else err skip_infohash

pub canonical_btih : Bytes → Result Bytes
unfolding is_hex40 encode_btih
canonical_btih s =
    if length s == 40
    then if is_hex40 s then ok (to_lower s) else err skip_infohash
    else if length s == 32
    then encode_btih (decode_string (to_upper s))
    else err skip_infohash

-- The v1 btih of a magnet or urn, whose text behind the marker is given if there is one, or the
-- bare text.
pub payload_btih : Option Bytes → Bytes → Result Bytes
payload_btih (some t) s = canonical_btih (up_to_byte b'&' t)
payload_btih none s =
    if has_prefix (codes "magnet:") s || contains (codes "urn:btmh:") s
    then err skip_infohash
    else canonical_btih s

pub normalize_infohash : Bytes → Result Bytes
normalize_infohash raw =
    let s = trim_space raw in
    if bytes_eq s [] then err skip_infohash else payload_btih (after_first btih_marker s) s
