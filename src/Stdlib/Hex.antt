-- ===== src/Stdlib/Hex.antt =====
-- hex.EncodeToString, strings.ToLower and strings.ToUpper on ASCII bytes, and the number that a
-- run of digits stands for.
use takuhai.Base.{
  All, Bool, Bytes, List, [], ap, arith, codes, if◌then◌else◌, leb, length, ltb, map, refl, true, ℕ,
  ◌%◌, ◌&&◌, ◌*◌, ◌+◌, ◌-◌, ◌/◌, ◌<◌, ◌||◌, ◌∙◌, ◌∷◌, ◌≡◌,
}

abbrev pub to_lower_byte : ℕ → ℕ
to_lower_byte c = if leb b'A' c && leb c b'Z' then c + 32 else c

abbrev pub to_upper_byte : ℕ → ℕ
to_upper_byte c = if leb b'a' c && leb c b'z' then c - 32 else c

-- A byte from 0x80 on is left as it is. Where the sources use these, a text with such a byte is
-- refused whatever its letters are turned into.
abbrev pub to_lower : Bytes → Bytes
to_lower = map to_lower_byte

abbrev pub to_upper : Bytes → Bytes
to_upper = map to_upper_byte

hex_digit : ℕ → ℕ
hex_digit d = if ltb d 10 then b'0' + d else b'a' + (d - 10)

unfoldable pub hex_encode : Bytes → Bytes
unfolding hex_digit
hex_encode [] = []
hex_encode (b ∷ bs) = hex_digit (b / 16) ∷ hex_digit (b % 16) ∷ hex_encode bs

-- The value of digits in a base, most significant first, behind acc.
abbrev pub number : ℕ → ℕ → List ℕ → ℕ
number base acc [] = acc
number base acc (d ∷ ds) = number base (acc * base + d) ds

-- The value of a hexadecimal digit, of either case.
abbrev pub hex_value : ℕ → ℕ
hex_value c = if leb c b'9' then c - b'0' else if leb c b'F' then c - b'A' + 10 else c - b'a' + 10

abbrev pub IsByte : ℕ → Type 0
IsByte b = b < 256

-- A lower case hexadecimal digit.
abbrev pub is_lower_hex : ℕ → Bool
is_lower_hex c = (leb b'0' c && leb c b'9') || (leb b'a' c && leb c b'f')

hex_digit-lower : (d : ℕ) → d < 16 → is_lower_hex (hex_digit d) ≡ true
unfolding hex_digit
hex_digit-lower d h = ground arith

hex_value-digit : (d : ℕ) → d < 16 → hex_value (hex_digit d) ≡ d
unfolding hex_digit
hex_value-digit d h = ground arith

pub hex_encode-lower :
    (bs : Bytes) → All IsByte bs → All (λ c. is_lower_hex c ≡ true) (hex_encode bs)
unfolding hex_encode
hex_encode-lower [] h = tt
hex_encode-lower (b ∷ bs) h = (
  hex_digit-lower (b / 16) (omega arith),
  (hex_digit-lower (b % 16) (omega arith), hex_encode-lower bs h.1),
)

pub length-hex_encode : (bs : Bytes) → length (hex_encode bs) ≡ 2 * length bs
unfolding hex_encode
length-hex_encode [] = refl
length-hex_encode (b ∷ bs) = omega (arith, length-hex_encode bs)

-- The digits of the encoding stand for the number that the bytes stand for.
pub number-hex_encode :
    (acc : ℕ) (bs : Bytes)
    → All IsByte bs
    → number 16 acc (map hex_value (hex_encode bs)) ≡ number 256 acc bs
unfolding hex_encode
number-hex_encode acc [] h = refl
number-hex_encode acc (b ∷ bs) h =
    rw (hex_value-digit (b / 16) (omega arith), hex_value-digit (b % 16) (omega arith))
      (ap (λ n. number 16 n (map hex_value (hex_encode bs))) (omega arith)
        ∙ number-hex_encode (acc * 256 + b) bs h.1)

encodes : hex_encode (0 ∷ 171 ∷ 255 ∷ []) ≡ codes "00abff"
unfolding hex_encode
encodes = refl
