-- ===== src/Stdlib/Base32.antt =====
-- base32.StdEncoding.DecodeString: new lines are dropped, then the text is decoded in quanta of
-- eight characters, the last of which may end in padding. The shifts and the bitwise or of the
-- decoder join disjoint bits, so they are products, quotients and sums here.
pub mod Value
pub mod Range
use takuhai.Base.{
  Bool, Bytes, List, Option, [], all_if, codes, false, if◌then◌else◌, leb, length, ltb, none, not,
  refl, select, some, suc, take, true, zero, ℕ, ◌%◌, ◌&&◌, ◌*◌, ◌++◌, ◌+◌, ◌-◌, ◌/◌, ◌==◌, ◌||◌,
  ◌∷◌, ◌≡◌,
}

abbrev pub decode_char : ℕ → Option ℕ
decode_char c =
    if leb b'A' c && leb c b'Z'
    then some (c - b'A')
    else if leb b'2' c && leb c b'7'
    then some (c - b'2' + 26)
    else none

-- Padding from position j of a quantum on: enough of it, nothing else, and a possible position.
padding : ℕ → Bytes → List ℕ → Option (List ℕ × Bool × Bytes)
padding j src ds =
    if ltb (length src + j) 7
    then none
    else if not (all_if (λ c. c == b'=') (take (7 - j) src))
    then none
    else if j == 3 || j == 6
    then none
    else some (ds, true, src)

-- The digits of one quantum, whether the text ends with it, and what stands behind it.
read_quantum : ℕ → Bytes → List ℕ → Option (List ℕ × Bool × Bytes)
unfolding padding
read_quantum zero src ds = some (ds, false, src)
read_quantum (suc k) [] ds = none
read_quantum (suc k) (c ∷ src) ds =
    let j = 7 - k in
    let digit = decode_char c in
    let rest = read_quantum k src in
    if c == b'=' && leb 2 j && ltb (length src) 8
    then padding j src ds
    else elim digit [ none ↦ none | some d ↦ rest (ds ++ d ∷ []) ]

-- The bytes of a quantum of 2, 4, 5, 7 or 8 digits.
pack : List ℕ → Bytes
pack (a ∷ b ∷ []) = ((a * 8) % 256 + b / 4) ∷ []
pack (a ∷ b ∷ c ∷ d ∷ []) = ((a * 8) % 256 + b / 4) ∷ ((b * 64) % 256 + (c * 2) % 256 + d / 16) ∷ []
pack (a ∷ b ∷ c ∷ d ∷ e ∷ []) =
    ((a * 8) % 256 + b / 4)
    ∷ ((b * 64) % 256 + (c * 2) % 256 + d / 16)
    ∷ ((d * 16) % 256 + e / 2)
    ∷ []
pack (a ∷ b ∷ c ∷ d ∷ e ∷ f ∷ g ∷ []) =
    ((a * 8) % 256 + b / 4)
    ∷ ((b * 64) % 256 + (c * 2) % 256 + d / 16)
    ∷ ((d * 16) % 256 + e / 2)
    ∷ ((e * 128) % 256 + (f * 4) % 256 + g / 8)
    ∷ []
pack (a ∷ b ∷ c ∷ d ∷ e ∷ f ∷ g ∷ h ∷ []) =
    ((a * 8) % 256 + b / 4)
    ∷ ((b * 64) % 256 + (c * 2) % 256 + d / 16)
    ∷ ((d * 16) % 256 + e / 2)
    ∷ ((e * 128) % 256 + (f * 4) % 256 + g / 8)
    ∷ ((g * 32) % 256 + h)
    ∷ []
pack ds = []

-- A quantum takes at least one character, so the length of the text is enough fuel.
decode : ℕ → Bytes → Option Bytes
decode fuel [] = some []
decode zero (c ∷ src) = none
decode (suc fuel) (c ∷ src) = elim (read_quantum 8 (c ∷ src) []) [
  | none ↦ none
  | some (ds, true, rest) ↦ some (pack ds)
  | some (ds, false, rest) ↦ elim (decode fuel rest) [
    | none ↦ none
    | some bs ↦ some (pack ds ++ bs)
  ]
]

unfoldable pub decode_string : Bytes → Option Bytes
unfolding decode read_quantum pack
decode_string s = let src = select (λ c. not (c == 13 || c == 10)) s in decode (length src) src

-- A character of the alphabet.
abbrev pub is_base32 : ℕ → Bool
is_base32 c = (leb b'A' c && leb c b'Z') || (leb b'2' c && leb c b'7')

abbrev pub base32_value : ℕ → ℕ
base32_value c = if leb b'A' c then c - b'A' else c - b'2' + 26

decodes : decode_string (codes "NBSWY3DP") ≡ some (codes "hello")
unfolding decode_string
decodes = refl

decodes_padded : decode_string (codes "MZXW6===") ≡ some (codes "foo")
unfolding decode_string
decodes_padded = refl

refuses : decode_string (codes "MZXW6==") ≡ none
unfolding decode_string
refuses = refl
