-- ===== src/Stdlib/Regexp.antt =====
-- package regexp, for patterns that are sequences of texts and of single characters, repeated or
-- not: the leftmost match, and of those the one that a backtracking search finds first. Matching
-- goes byte by byte, which comes to the same for patterns that name ASCII characters only.
pub mod Fuel
use takuhai.Base.{
  Bool, Bytes, List, Option, [], cut_prefix, false, if◌then◌else◌, leb, length, map_option, none,
  not, some, suc, take, true, zero, ℕ, ◌&&◌, ◌++◌, ◌-◌, ◌==◌, ◌||◌, ◌∷◌,
}

-- A text; one character of a class; such characters, as many or as few as possible; at most one;
-- a border of a group; and that no character of a class is ahead.
pub data Piece : Type 0 where
  text : Bytes → Piece
  one : (ℕ → Bool) → Piece
  many : (ℕ → Bool) → Piece
  few : (ℕ → Bool) → Piece
  optional : (ℕ → Bool) → Piece
  border : Piece
  not_ahead : (ℕ → Bool) → Piece

-- What stands behind each border, and behind the match.
abbrev pub Match : Type 0
Match = List Bytes × Bytes

unfoldable pub or_else {ℓ} : {A : Type ℓ} → Option A → Option A → Option A
or_else none b = b
or_else (some a) b = some a

unfoldable pub match_one : (ℕ → Bool) → (Bytes → Option Match) → Bytes → Option Match
match_one test next [] = none
match_one test next (c ∷ s) = let rest = next s in if test c then rest else none

unfoldable pub match_many : (ℕ → Bool) → (Bytes → Option Match) → Bytes → Option Match
unfolding or_else
match_many test next [] = next []
match_many test next (c ∷ s) =
    let more = match_many test next s in
    if test c then or_else more (next (c ∷ s)) else next (c ∷ s)

unfoldable pub match_few : (ℕ → Bool) → (Bytes → Option Match) → Bytes → Option Match
unfolding or_else
match_few test next [] = next []
match_few test next (c ∷ s) =
    let more = match_few test next s in or_else (next (c ∷ s)) (if test c then more else none)

unfoldable pub is_ahead : (ℕ → Bool) → Bytes → Bool
is_ahead test [] = false
is_ahead test (c ∷ s) = test c

unfoldable pub match_at : List Piece → Bytes → Option Match
unfolding or_else match_one match_many match_few is_ahead
match_at [] s = some ([], s)
match_at (text t ∷ ps) s = elim (cut_prefix t s) [ none ↦ none | some rest ↦ match_at ps rest ]
match_at (one test ∷ ps) s = match_one test (match_at ps) s
match_at (many test ∷ ps) s = match_many test (match_at ps) s
match_at (few test ∷ ps) s = match_few test (match_at ps) s
match_at (optional test ∷ ps) s = or_else (match_one test (match_at ps) s) (match_at ps s)
match_at (border ∷ ps) s = map_option (λ (m : Match). (s ∷ m.0, m.1)) (match_at ps s)
match_at (not_ahead test ∷ ps) s =
    let rest = match_at ps s in if is_ahead test s then none else rest

-- FindStringSubmatch
unfoldable pub find : List Piece → Bytes → Option Match
unfolding or_else match_at
find ps [] = match_at ps []
find ps (c ∷ s) = let later = find ps s in or_else (match_at ps (c ∷ s)) later

-- FindAllStringSubmatch, with fuel for the matches.
unfoldable pub find_all : ℕ → List Piece → Bytes → List Match
unfolding find
find_all zero ps s = []
find_all (suc fuel) ps s = elim (find ps s) [
  | none ↦ []
  | some (borders, rest) ↦ (borders, rest) ∷ find_all fuel ps rest
]

-- The text of the group between its borders.
unfoldable pub between : Bytes → Bytes → Bytes
between start end = take (length start - length end) start

-- The groups of a match, whose borders come in pairs.
unfoldable pub groups : List Bytes → List Bytes
unfolding between
groups [] = []
groups (start ∷ []) = []
groups (start ∷ end ∷ borders) = between start end ∷ groups borders

unfoldable pub not_char : ℕ → ℕ → Bool
not_char c d = not (c == d)

unfoldable pub any_char : ℕ → Bool
any_char c = true

-- \s
unfoldable pub is_blank : ℕ → Bool
is_blank c = c == 9 || c == 10 || c == 12 || c == 13 || c == 32

-- ReplaceAllString with nothing, for a pattern that begins with a border; with fuel for the matches.
unfoldable pub delete_all : ℕ → List Piece → Bytes → Bytes
unfolding find between
delete_all zero ps s = s
delete_all (suc fuel) ps s = elim (find ps s) [
  | none ↦ s
  | some ([], rest) ↦ s
  | some (start ∷ borders, rest) ↦ between s start ++ delete_all fuel ps rest
]

-- \w
unfoldable pub is_word : ℕ → Bool
is_word c =
    (leb b'0' c && leb c b'9')
    || (leb b'A' c && leb c b'Z')
    || (leb b'a' c && leb c b'z')
    || c == b'_'
