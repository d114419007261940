-- ===== src/Stdlib/Trim.antt =====
-- strings.TrimSpace over the bytes of a text: white space is what unicode.IsSpace says, in UTF-8.
use takuhai.Base.{
  All, All-append, Bool, Bytes, [], arith, codes, if◌then◌else◌, leb, refl, reverse, suc, zero, ℕ,
  ◌&&◌, ◌-◌, ◌==◌, ◌||◌, ◌∷◌, ◌≡◌, ◌≤◌,
}
use mathlib.Core.List.{reverse-reverse, reverse-cons}

is_space1 : ℕ → Bool
is_space1 c = (leb 9 c && leb c 13) || c == 32

is_space2 : ℕ → ℕ → Bool
is_space2 x y = x == 0xC2 && (y == 0x85 || y == 0xA0)

is_space3 : ℕ → ℕ → ℕ → Bool
is_space3 x y z =
    (x == 0xE1 && y == 0x9A && z == 0x80)
    || (x == 0xE2
        && y == 0x80
        && ((leb 0x80 z && leb z 0x8A) || z == 0xA8 || z == 0xA9 || z == 0xAF))
    || (x == 0xE2 && y == 0x81 && z == 0x9F)
    || (x == 0xE3 && y == 0x80 && z == 0x80)

-- The width of the white space character at the front, 0 if there is none.
space_width : Bytes → ℕ
unfolding is_space1 is_space2 is_space3
space_width [] = 0
space_width (x ∷ []) = if is_space1 x then 1 else 0
space_width (x ∷ y ∷ []) = if is_space1 x then 1 else if is_space2 x y then 2 else 0
space_width (x ∷ y ∷ z ∷ s) =
    if is_space1 x then 1 else if is_space2 x y then 2 else if is_space3 x y z then 3 else 0

-- The same for a text that is read backwards.
space_width_back : Bytes → ℕ
unfolding is_space1 is_space2 is_space3
space_width_back [] = 0
space_width_back (z ∷ []) = if is_space1 z then 1 else 0
space_width_back (z ∷ y ∷ []) = if is_space1 z then 1 else if is_space2 y z then 2 else 0
space_width_back (z ∷ y ∷ x ∷ s) =
    if is_space1 z then 1 else if is_space2 y z then 2 else if is_space3 x y z then 3 else 0

-- The first argument counts the bytes of a white space character that are still to be dropped.
trim_by : (Bytes → ℕ) → ℕ → Bytes → Bytes
trim_by width k [] = []
trim_by width (suc k) (c ∷ s) = trim_by width k s
trim_by width zero (c ∷ s) =
    let w = width (c ∷ s) in if w == 0 then c ∷ s else trim_by width (w - 1) s

unfoldable pub trim_space : Bytes → Bytes
unfolding trim_by space_width space_width_back
trim_space s = reverse (trim_by space_width_back 0 (reverse (trim_by space_width 0 s)))

-- strings.Fields, of which only the first two are asked for: the bytes up to white space, and what
-- stands there.
first_field : Bytes → Bytes × Bytes
unfolding space_width
first_field [] = ([], [])
first_field (c ∷ s) =
    let (field, rest) = first_field s in
    if space_width (c ∷ s) == 0 then (c ∷ field, rest) else ([], c ∷ s)

-- The first two fields, empty where there are fewer.
unfoldable pub two_fields : Bytes → Bytes × Bytes
unfolding first_field
two_fields s =
    let (field, rest) = first_field (trim_space s) in (field, (first_field (trim_space rest)).0)

-- A visible ASCII character.
abbrev pub IsVisible : ℕ → Type 0
IsVisible c = (33 ≤ c) × (c ≤ 126)

width_visible : (c : ℕ) (s : Bytes) → IsVisible c → space_width (c ∷ s) ≡ 0
unfolding space_width
width_visible c [] h = ground arith
width_visible c (d ∷ []) h = ground arith
width_visible c (d ∷ e ∷ s) h = ground arith

width_back_visible : (c : ℕ) (s : Bytes) → IsVisible c → space_width_back (c ∷ s) ≡ 0
unfolding space_width_back
width_back_visible c [] h = ground arith
width_back_visible c (d ∷ []) h = ground arith
width_back_visible c (d ∷ e ∷ s) h = ground arith

trim_by_fixed :
    (width : Bytes → ℕ) (c : ℕ) (s : Bytes) → width (c ∷ s) ≡ 0 → trim_by width 0 (c ∷ s) ≡ c ∷ s
unfolding trim_by
trim_by_fixed width c s h = rw h

All-reverse : (s : Bytes) → All IsVisible s → All IsVisible (reverse s)
All-reverse [] h = tt
All-reverse (c ∷ s) h =
    rw (reverse-cons c s) (All-append IsVisible (reverse s) (c ∷ []) (All-reverse s h.1) (h.0, tt))

trim_back_visible : (s : Bytes) → All IsVisible s → trim_by space_width_back 0 s ≡ s
unfolding trim_by
trim_back_visible [] h = refl
trim_back_visible (c ∷ s) h = trim_by_fixed space_width_back c s (width_back_visible c s h.0)

trim_front_visible : (s : Bytes) → All IsVisible s → trim_by space_width 0 s ≡ s
unfolding trim_by
trim_front_visible [] h = refl
trim_front_visible (c ∷ s) h = trim_by_fixed space_width c s (width_visible c s h.0)

-- A text of visible ASCII characters has nothing to trim.
pub trim_space_visible : (s : Bytes) → All IsVisible s → trim_space s ≡ s
unfolding trim_space
trim_space_visible s h =
    rw (trim_front_visible s h, trim_back_visible (reverse s) (All-reverse s h)) (reverse-reverse s)

trims : trim_space (codes "\t  a b \n") ≡ codes "a b"
unfolding trim_space
trims = refl

trims_unicode : trim_space (0xE3 ∷ 0x80 ∷ 0x80 ∷ 97 ∷ 0xC2 ∷ 0xA0 ∷ []) ≡ codes "a"
unfolding trim_space
trims_unicode = refl
