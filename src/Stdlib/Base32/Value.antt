-- ===== src/Stdlib/Base32/Value.antt =====
-- Whole quanta of base32 characters are decoded to bytes that stand for the same number.
use takuhai.Base.{
  All, All-append, Bytes, List, Option, [], ap, arith, false, length, map, not, refl, select, some,
  suc, true, zero, ℕ, ◌*◌, ◌++◌, ◌+◌, ◌<◌, ◌==◌, ◌||◌, ◌∙◌, ◌∷◌, ◌≡◌, ◌≤◌,
}
use takuhai.Stdlib.Hex.{number, IsByte}
use takuhai.Stdlib.Base32.{is_base32, base32_value, read_quantum, pack, decode, decode_string}

abbrev pub IsBase32 : ℕ → Type 0
IsBase32 c = is_base32 c ≡ true

base32_value-lt : (c : ℕ) → IsBase32 c → base32_value c < 32
base32_value-lt c h = ground arith

read_quantum_step :
    (k c : ℕ) (src ds : Bytes)
    → IsBase32 c
    → read_quantum (suc k) (c ∷ src) ds ≡ read_quantum k src (ds ++ base32_value c ∷ [])
unfolding read_quantum
read_quantum_step k c src ds h = ground arith

read_quantum_done : (src ds : Bytes) → read_quantum 0 src ds ≡ some (ds, false, src)
unfolding read_quantum
read_quantum_done src ds = refl

pack_value :
    (a b c d e f g h acc : ℕ)
    → a < 32
    → b < 32
    → c < 32
    → d < 32
    → e < 32
    → f < 32
    → g < 32
    → h < 32
    → number 256 acc (pack (a ∷ b ∷ c ∷ d ∷ e ∷ f ∷ g ∷ h ∷ []))
      ≡ number 32 acc (a ∷ b ∷ c ∷ d ∷ e ∷ f ∷ g ∷ h ∷ [])
unfolding pack
pack_value a b c d e f g h acc ha hb hc hd he hf hg hh = omega arith

pack_bytes :
    (a b c d e f g h : ℕ)
    → a < 32
    → b < 32
    → c < 32
    → d < 32
    → e < 32
    → f < 32
    → g < 32
    → h < 32
    → All IsByte (pack (a ∷ b ∷ c ∷ d ∷ e ∷ f ∷ g ∷ h ∷ []))
unfolding pack
pack_bytes a b c d e f g h ha hb hc hd he hf hg hh = omega arith

number-append :
    (base acc : ℕ) (xs ys : List ℕ)
    → number base acc (xs ++ ys) ≡ number base (number base acc xs) ys
number-append base acc [] ys = refl
number-append base acc (x ∷ xs) ys = number-append base (acc * base + x) xs ys

-- What a run of n quanta is decoded to.
abbrev pub Decoded : ℕ → Bytes → Option Bytes → Type 0
Decoded n s r =
    (bs : Bytes) × (r ≡ some bs)
    × (length bs ≡ 5 * n)
    × All IsByte bs
    × ((acc : ℕ) → number 256 acc bs ≡ number 32 acc (map base32_value s))

quantum_read :
    (c1 c2 c3 c4 c5 c6 c7 c8 : ℕ) (src : Bytes)
    → All IsBase32 (c1 ∷ c2 ∷ c3 ∷ c4 ∷ c5 ∷ c6 ∷ c7 ∷ c8 ∷ [])
    → read_quantum 8 (c1 ∷ c2 ∷ c3 ∷ c4 ∷ c5 ∷ c6 ∷ c7 ∷ c8 ∷ src) []
      ≡ some (map base32_value (c1 ∷ c2 ∷ c3 ∷ c4 ∷ c5 ∷ c6 ∷ c7 ∷ c8 ∷ []), false, src)
quantum_read c1 c2 c3 c4 c5 c6 c7 c8 src (h1, (h2, (h3, (h4, (h5, (h6, (h7, (h8, h)))))))) =
    read_quantum_step 7 c1 _ _ h1
    ∙ (read_quantum_step 6 c2 _ _ h2
        ∙ (read_quantum_step 5 c3 _ _ h3
            ∙ (read_quantum_step 4 c4 _ _ h4
                ∙ (read_quantum_step 3 c5 _ _ h5
                    ∙ (read_quantum_step 2 c6 _ _ h6
                        ∙ (read_quantum_step 1 c7 _ _ h7
                            ∙ (read_quantum_step 0 c8 _ _ h8 ∙ read_quantum_done src _)))))))

module _ (c1 c2 c3 c4 c5 c6 c7 c8 : ℕ) where
  abbrev quantum : Bytes
  quantum = c1 ∷ c2 ∷ c3 ∷ c4 ∷ c5 ∷ c6 ∷ c7 ∷ c8 ∷ []

  quantum_value :
      (acc : ℕ)
      → All IsBase32 quantum
      → number 256 acc (pack (map base32_value quantum)) ≡ number 32 acc (map base32_value quantum)
  quantum_value acc (h1, (h2, (h3, (h4, (h5, (h6, (h7, (h8, h)))))))) =
      pack_value _ _ _ _ _ _ _ _ acc (base32_value-lt c1 h1) (base32_value-lt c2 h2)
        (base32_value-lt c3 h3) (base32_value-lt c4 h4) (base32_value-lt c5 h5)
        (base32_value-lt c6 h6) (base32_value-lt c7 h7) (base32_value-lt c8 h8)

  quantum_bytes : All IsBase32 quantum → All IsByte (pack (map base32_value quantum))
  quantum_bytes (h1, (h2, (h3, (h4, (h5, (h6, (h7, (h8, h)))))))) =
      pack_bytes _ _ _ _ _ _ _ _ (base32_value-lt c1 h1) (base32_value-lt c2 h2)
        (base32_value-lt c3 h3) (base32_value-lt c4 h4) (base32_value-lt c5 h5)
        (base32_value-lt c6 h6) (base32_value-lt c7 h7) (base32_value-lt c8 h8)

  -- One more quantum in front.
  Decoded-quantum :
      (n fuel : ℕ) (src : Bytes)
      → All IsBase32 quantum
      → Decoded n src (decode fuel src)
      → Decoded (suc n) (quantum ++ src) (decode (suc fuel) (quantum ++ src))
  unfolding decode
  Decoded-quantum n fuel src h (bs, run, len, small, val) = (
    pack (map base32_value quantum) ++ bs,
    rw (quantum_read c1 c2 c3 c4 c5 c6 c7 c8 src h, decode) (rw (run, decode)),
    unfold pack in (omega (arith, len)),
    All-append IsByte (pack (map base32_value quantum)) bs (quantum_bytes h) small,
    λ acc.
        number-append 256 acc (pack (map base32_value quantum)) bs
        ∙ (ap (λ m. number 256 m bs) (quantum_value acc h)
            ∙ val (number 32 acc (map base32_value quantum))),
  )

decode_quanta :
    (n fuel : ℕ) (s : Bytes)
    → All IsBase32 s
    → length s ≡ 8 * n
    → n ≤ fuel
    → Decoded n s (decode fuel s)
unfolding decode
decode_quanta zero fuel [] h e f = ([], refl, refl, tt, λ acc. refl)
decode_quanta zero fuel (c ∷ s) h e f = absurd (omega arith)
decode_quanta (suc n) fuel [] h e f = absurd (omega arith)
decode_quanta (suc n) fuel (a ∷ []) h e f = absurd (omega arith)
decode_quanta (suc n) fuel (a ∷ b ∷ []) h e f = absurd (omega arith)
decode_quanta (suc n) fuel (a ∷ b ∷ c ∷ []) h e f = absurd (omega arith)
decode_quanta (suc n) fuel (a ∷ b ∷ c ∷ d ∷ []) h e f = absurd (omega arith)
decode_quanta (suc n) fuel (a ∷ b ∷ c ∷ d ∷ i ∷ []) h e f = absurd (omega arith)
decode_quanta (suc n) fuel (a ∷ b ∷ c ∷ d ∷ i ∷ j ∷ []) h e f = absurd (omega arith)
decode_quanta (suc n) fuel (a ∷ b ∷ c ∷ d ∷ i ∷ j ∷ k ∷ []) h e f = absurd (omega arith)
decode_quanta (suc n) zero (a ∷ b ∷ c ∷ d ∷ i ∷ j ∷ k ∷ l ∷ s) h e f = absurd (omega arith)
decode_quanta (suc n) (suc fuel) (a ∷ b ∷ c ∷ d ∷ i ∷ j ∷ k ∷ l ∷ s) h e f =
    let (h1, (h2, (h3, (h4, (h5, (h6, (h7, (h8, hs)))))))) = h in
    Decoded-quantum a b c d i j k l n fuel s (h1, (h2, (h3, (h4, (h5, (h6, (h7, (h8, tt))))))))
      (decode_quanta n fuel s hs (omega arith) (omega arith))

select_keeps : (s : Bytes) → All IsBase32 s → select (λ c. not (c == 13 || c == 10)) s ≡ s
select_keeps [] h = refl
select_keeps (c ∷ s) h = ground (arith, select_keeps s h.1)

-- Four quanta of the alphabet, as in a base32 btih, are decoded to twenty bytes of the same value.
pub decode_string_btih :
    (s : Bytes) → All IsBase32 s → length s ≡ 32 → Decoded 4 s (decode_string s)
unfolding decode_string
decode_string_btih s h e = rw (select_keeps s h) (decode_quanta 4 (length s) s h e (omega arith))
