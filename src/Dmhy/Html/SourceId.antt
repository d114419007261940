-- ===== src/Dmhy/Html/SourceId.antt =====
-- The stable id of a topic.
use takuhai.Base.{
  All, Bytes, [], any_if, arith, max_int, refl, true, up_to_byte, ℕ, ◌++◌, ◌==◌, ◌∷◌, ◌≡◌, ◌≤◌,
}
use takuhai.Stdlib.Decimal.{itoa, IsDigit, itoa-IsDigit}
use takuhai.Dmhy.Html.{view_marker, behind, id_part, row_source_id}

has_underscore : (digits rest : Bytes) → any_if (λ c. c == b'_') (digits ++ b'_' ∷ rest) ≡ true
has_underscore [] rest = refl
has_underscore (c ∷ digits) rest = ground (arith, has_underscore digits rest)

up_to_underscore :
    (digits rest : Bytes) → All IsDigit digits → up_to_byte b'_' (digits ++ b'_' ∷ rest) ≡ digits
up_to_underscore [] rest h = refl
up_to_underscore (c ∷ digits) rest h = ground (arith, up_to_underscore digits rest h.1)

id_part-digits :
    (digits rest : Bytes) → All IsDigit digits → id_part (digits ++ b'_' ∷ rest) ≡ digits
unfolding id_part
id_part-digits digits rest h =
    rw (id_part, has_underscore digits rest) (up_to_underscore digits rest h)

-- The link of a topic, /topics/view/ with its number, an underscore and anything, gives the number
-- as id, so a post that is crawled again under another title keeps its id.
row_source_id-itoa :
    (n : ℕ) (title : Bytes)
    → n ≤ max_int
    → row_source_id (view_marker ++ (itoa n ++ (b'_' ∷ title))) ≡ itoa n
unfolding row_source_id behind
row_source_id-itoa n title fits = id_part-digits (itoa n) title (itoa-IsDigit n fits)
