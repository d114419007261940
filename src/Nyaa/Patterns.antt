-- ===== src/Nyaa/Patterns.antt =====
-- sources/nyaa/parse.go: the patterns that pick the fields of a listing page.
use takuhai.Base.{
  Bool, Bytes, List, [], codes, false, has_prefix, leb, none, not, some, true, ℕ, ◌&&◌, ◌++◌, ◌+◌,
  ◌==◌, ◌||◌, ◌∷◌,
}
use takuhai.Stdlib.Decimal.{is_digit}
use takuhai.Stdlib.Regexp.{
  Piece, text, one, many, few, border, not_ahead, not_char, any_char, is_blank, is_word, find,
}

-- Whether a pattern matches somewhere.
pub matches_in : List Piece → Bytes → Bool
matches_in ps s = elim (find ps s) [ none ↦ false | some m ↦ true ]

-- listTableRe; the word boundary ahead of the name holds right after the quote, or after a character
-- that belongs to no word.
abbrev list_class : List Piece
list_class =
    text (codes "torrent-list") ∷ not_ahead is_word ∷ many (not_char b'"') ∷ text (codes "\"") ∷ []

pub has_list_table : Bytes → Bool
unfolding matches_in
has_list_table page =
    matches_in (text (codes "class=\"") ∷ list_class) page
    || matches_in
        (text (codes "class=\"")
          ∷ many (not_char b'"')
          ∷ one (λ c. not (c == b'"' || is_word c))
          ∷ list_class)
        page

-- listRowRe
abbrev pub opens_row : Bytes → Bool
opens_row s =
    has_prefix (codes "<tr class=\"default\">") s
    || has_prefix (codes "<tr class=\"success\">") s
    || has_prefix (codes "<tr class=\"danger\">") s

-- A text in either case of its ASCII letters.
folded : ℕ → ℕ → Bool
folded c d =
    d == c || (leb b'a' c && leb c b'z' && d + 32 == c) || (leb b'A' c && leb c b'Z' && d == c + 32)

any_case : Bytes → List Piece
unfolding folded
any_case [] = []
any_case (c ∷ s) = one (folded c) ∷ any_case s

-- noResultsRe
pub no_results : List Piece
unfolding any_case
no_results =
    any_case (codes "<h3")
    ++ (not_ahead is_word
        ∷ many (not_char b'>')
        ∷ text (codes ">")
        ∷ many is_blank
        ∷ (any_case (codes "No results found") ++ (many is_blank ∷ any_case (codes "</h3>"))))

abbrev pub view_anchor : List Piece
view_anchor =
    text (codes "<a")
    ∷ border
    ∷ many (not_char b'>')
    ∷ border
    ∷ text (codes "href=\"/view/")
    ∷ border
    ∷ one is_digit
    ∷ many is_digit
    ∷ border
    ∷ text (codes "\"")
    ∷ border
    ∷ many (not_char b'>')
    ∷ border
    ∷ text (codes ">")
    ∷ border
    ∷ few any_char
    ∷ border
    ∷ text (codes "</a>")
    ∷ []

unfoldable pub is_name : ℕ → Bool
is_name c = is_word c || c == b'-'

abbrev pub attribute : List Piece
attribute =
    border
    ∷ one is_name
    ∷ many is_name
    ∷ border
    ∷ text (codes "=\"")
    ∷ border
    ∷ many (not_char b'"')
    ∷ border
    ∷ text (codes "\"")
    ∷ []

abbrev pub magnet_link : List Piece
magnet_link =
    text (codes "href=\"")
    ∷ border
    ∷ text (codes "magnet:")
    ∷ many (not_char b'"')
    ∷ border
    ∷ text (codes "\"")
    ∷ []

abbrev pub size_cell : List Piece
size_cell =
    text (codes "<td class=\"text-center\">")
    ∷ many is_blank
    ∷ border
    ∷ few (not_char b'<')
    ∷ border
    ∷ many is_blank
    ∷ text (codes "</td>")
    ∷ []

abbrev pub timestamp : List Piece
timestamp =
    text (codes "data-timestamp=\"")
    ∷ border
    ∷ one is_digit
    ∷ many is_digit
    ∷ border
    ∷ text (codes "\"")
    ∷ []

abbrev pub tag : List Piece
tag = border ∷ text (codes "<") ∷ many (not_char b'>') ∷ text (codes ">") ∷ []
