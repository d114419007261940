-- ===== src/Dmhy/Patterns.antt =====
-- sources/dmhy/html.go: the patterns that pick the fields of an archive page.
use takuhai.Base.{Bool, Bytes, List, [], codes, ℕ, ◌==◌, ◌||◌, ◌∷◌}
use takuhai.Stdlib.Decimal.{is_digit}
use takuhai.Stdlib.Regexp.{
  Piece, text, one, many, few, optional, border, not_char, any_char, is_blank,
}

abbrev pub archive_row : Bytes
archive_row = codes "<tr class=\"\">"

abbrev pub list_table : Bytes
list_table = codes "id=\"topic_list\""

abbrev pub title_cell : List Piece
title_cell =
    text (codes "<td class=\"title\">") ∷ border ∷ few any_char ∷ border ∷ text (codes "</td>") ∷ []

abbrev pub anchor : List Piece
anchor =
    text (codes "<a")
    ∷ many (not_char b'>')
    ∷ text (codes "href=\"")
    ∷ border
    ∷ many (not_char b'"')
    ∷ border
    ∷ text (codes "\"")
    ∷ many (not_char b'>')
    ∷ text (codes ">")
    ∷ border
    ∷ few any_char
    ∷ border
    ∷ text (codes "</a>")
    ∷ []

abbrev pub data_magnet : List Piece
data_magnet =
    text (codes "data-magnet=\"")
    ∷ border
    ∷ text (codes "magnet:")
    ∷ many (not_char b'"')
    ∷ border
    ∷ text (codes "\"")
    ∷ []

abbrev pub arrow_magnet : List Piece
arrow_magnet =
    text (codes "class=\"")
    ∷ many (not_char b'"')
    ∷ text (codes "arrow-magnet\"")
    ∷ many (not_char b'>')
    ∷ text (codes "href=\"")
    ∷ border
    ∷ text (codes "magnet:")
    ∷ many (not_char b'"')
    ∷ border
    ∷ text (codes "\"")
    ∷ []

pub is_size_char : ℕ → Bool
is_size_char c = is_digit c || c == b'.'

pub is_size_unit : ℕ → Bool
is_size_unit c = c == b'K' || c == b'M' || c == b'G' || c == b'T'

abbrev pub size_cell : List Piece
size_cell =
    text (codes "align=\"center\">")
    ∷ border
    ∷ one is_size_char
    ∷ many is_size_char
    ∷ many is_blank
    ∷ optional is_size_unit
    ∷ text (codes "B")
    ∷ border
    ∷ text (codes "<")
    ∷ []

abbrev digit : Piece
digit = one is_digit

abbrev pub hidden_date : List Piece
hidden_date =
    text (codes "display:")
    ∷ many is_blank
    ∷ text (codes "none")
    ∷ optional (λ c. c == b';')
    ∷ text (codes "\">")
    ∷ many is_blank
    ∷ border
    ∷ digit
    ∷ digit
    ∷ digit
    ∷ digit
    ∷ text (codes "/")
    ∷ digit
    ∷ digit
    ∷ text (codes "/")
    ∷ digit
    ∷ digit
    ∷ text (codes " ")
    ∷ digit
    ∷ digit
    ∷ text (codes ":")
    ∷ digit
    ∷ digit
    ∷ border
    ∷ []
