-- ===== src/Stdlib/Base32/Range.antt =====
-- Whatever the text, what is decoded is bytes.
use takuhai.Base.{
  All, All-append, Bool, Bool-cases, Bytes, List, Option, Option-cases, [], arith, false, inl, inr,
  leb, length, ltb, none, not, select, some, subst, suc, true, zero, ℕ, ◌&&◌, ◌++◌, ◌-◌, ◌<◌, ◌==◌,
  ◌||◌, ◌∷◌, ◌≡◌,
}
use takuhai.Stdlib.Hex.{IsByte}
use takuhai.Stdlib.Base32.{decode_char, padding, read_quantum, pack, decode, decode_string}

abbrev IsDigit32 : ℕ → Type 0
IsDigit32 d = d < 32

decode_char-lt : (c d : ℕ) → decode_char c ≡ some d → d < 32
decode_char-lt c d h = ground arith

-- A quantum that is read holds digits below 32.
abbrev Reads : Option (List ℕ × Bool × Bytes) → Type 0
Reads none = Unit {0}
Reads (some (ds, end, rest)) = All IsDigit32 ds

padding-Reads : (j : ℕ) (src ds : Bytes) → All IsDigit32 ds → Reads (padding j src ds)
unfolding padding
padding-Reads j src ds h = ground arith

read_quantum-Reads : (k : ℕ) (src ds : Bytes) → All IsDigit32 ds → Reads (read_quantum k src ds)
unfolding read_quantum
read_quantum-Reads zero src ds h = h
read_quantum-Reads (suc k) [] ds h = tt
read_quantum-Reads (suc k) (c ∷ src) ds h =
    elim (Bool-cases (c == b'=' && leb 2 (7 - k) && ltb (length src) 8)) [
      | inl p ↦ rw p (padding-Reads (7 - k) src ds h)
      | inr n ↦ elim (Option-cases (decode_char c)) [
        | inl q ↦ rw (n, q, read_quantum) tt
        | inr (d, q) ↦
            rw (n, q, read_quantum)
              (read_quantum-Reads k src (ds ++ d ∷ [])
                (All-append IsDigit32 ds (d ∷ []) h (decode_char-lt c d q, tt)))
      ]
    ]

pack-IsByte : (ds : List ℕ) → All IsDigit32 ds → All IsByte (pack ds)
unfolding pack
pack-IsByte (a ∷ b ∷ []) h = omega arith
pack-IsByte (a ∷ b ∷ c ∷ d ∷ []) h = omega arith
pack-IsByte (a ∷ b ∷ c ∷ d ∷ e ∷ []) h = omega arith
pack-IsByte (a ∷ b ∷ c ∷ d ∷ e ∷ f ∷ g ∷ []) h = omega arith
pack-IsByte (a ∷ b ∷ c ∷ d ∷ e ∷ f ∷ g ∷ i ∷ []) h = omega arith
pack-IsByte _ h = tt

abbrev Each : Option Bytes → Type 0
Each none = Unit {0}
Each (some bs) = All IsByte bs

decode_quantum-Each :
    (fuel c : ℕ) (s ds rest : Bytes) (end : Bool)
    → read_quantum 8 (c ∷ s) [] ≡ some (ds, end, rest)
    → All IsDigit32 ds
    → Each (decode fuel rest)
    → Each (decode (suc fuel) (c ∷ s))
unfolding decode
decode_quantum-Each fuel c s ds rest true q h ih = rw (q, decode) (pack-IsByte ds h)
decode_quantum-Each fuel c s ds rest false q h ih = elim (Option-cases (decode fuel rest)) [
  | inl r ↦ rw (q, decode) (rw (r, decode) tt)
  | inr (bs, r) ↦
      rw (q, decode)
        (rw (r, decode) (All-append IsByte (pack ds) bs (pack-IsByte ds h) (subst Each r ih)))
]

decode-Each : (fuel : ℕ) (s : Bytes) → Each (decode fuel s)
unfolding decode
decode-Each zero [] = tt
decode-Each (suc fuel) [] = tt
decode-Each zero (c ∷ s) = tt
decode-Each (suc fuel) (c ∷ s) = elim (Option-cases (read_quantum 8 (c ∷ s) [])) [
  | inl q ↦ rw (q, decode) tt
  | inr ((ds, end, rest), q) ↦
      decode_quantum-Each fuel c s ds rest end q
        (subst Reads q (read_quantum-Reads 8 (c ∷ s) [] tt)) (decode-Each fuel rest)
]

-- A text is decoded to bytes, each below 256.
pub decode_string-IsByte : (s bs : Bytes) → decode_string s ≡ some bs → All IsByte bs
unfolding decode_string
decode_string-IsByte s bs e =
    let src = select (λ c. not (c == 13 || c == 10)) s in
    subst Each e (decode-Each (length src) src)
