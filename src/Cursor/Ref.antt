-- ===== src/Cursor/Ref.antt =====
-- internal/cursor/cursor.go, ValidateRef: the regular expression ^[a-z][a-z0-9_-]*:.+$, in which
-- the dot matches any byte but a new line.
use takuhai.Base.{
  All, Bool, Bool-cases, Bytes, [], all_if, ap, arith, bytes_eq, codes, false, if◌then◌else◌, inl,
  inr, leb, not, refl, true, ℕ, ◌&&◌, ◌++◌, ◌==◌, ◌||◌, ◌↔◌, ◌∷◌, ◌≡◌,
}
use takuhai.Errors.{Result, ok, err, invalid_ref}

abbrev pub is_lower_letter : ℕ → Bool
is_lower_letter c = leb b'a' c && leb c b'z'

abbrev pub is_name_byte : ℕ → Bool
is_name_byte c = is_lower_letter c || (leb b'0' c && leb c b'9') || c == b'_' || c == b'-'

abbrev pub is_value : Bytes → Bool
is_value s = not (bytes_eq s []) && all_if (λ c. not (c == 10)) s

-- The part behind the first letter.
abbrev after_letter : Bytes → Bool
after_letter [] = false
after_letter (c ∷ s) = if c == b':' then is_value s else is_name_byte c && after_letter s

matches_ref : Bytes → Bool
matches_ref [] = false
matches_ref (c ∷ s) = is_lower_letter c && after_letter s

pub validate_ref : Bytes → Result (Unit {0})
unfolding matches_ref
validate_ref ref = if matches_ref ref then ok tt else err invalid_ref

-- A namespace, a colon and a value.
pub record IsRef (ref : Bytes) : Type 0 where
  pub letter : ℕ
  pub name : Bytes
  pub value : Bytes
  pub split : ref ≡ letter ∷ (name ++ (b':' ∷ value))
  pub letter_lower : is_lower_letter letter ≡ true
  pub name_bytes : All (λ c. is_name_byte c ≡ true) name
  pub value_present : is_value value ≡ true

after_letter_sound :
    (s : Bytes)
    → after_letter s ≡ true
    → (name value : Bytes) × (s ≡ name ++ (b':' ∷ value))
      × All (λ c. is_name_byte c ≡ true) name
      × (is_value value ≡ true)
after_letter_sound [] h = cc
after_letter_sound (c ∷ s) h = elim (Bool-cases (c == b':')) [
  | inl e ↦ ([], s, ground arith, tt, ground arith)
  | inr e ↦
      let (name, value, q, n, v) = after_letter_sound s (ground arith) in
      (c ∷ name, value, ap (λ t. c ∷ t) q, (ground arith, n), v)
]

after_letter_complete :
    (name value : Bytes)
    → All (λ c. is_name_byte c ≡ true) name
    → is_value value ≡ true
    → after_letter (name ++ (b':' ∷ value)) ≡ true
after_letter_complete [] value n v = v
after_letter_complete (c ∷ name) value n v = ground (arith, after_letter_complete name value n.1)

IsRef-sound : (ref : Bytes) → validate_ref ref ≡ ok tt → IsRef ref
unfolding validate_ref
IsRef-sound [] h = cc
IsRef-sound (c ∷ s) h =
    let (name, value, q, n, v) = after_letter_sound s (ground arith) in
    record {
      letter = c;
      name = name;
      value = value;
      split = ap (λ t. c ∷ t) q;
      letter_lower = ground arith;
      name_bytes = n;
      value_present = v;
    }

ref_complete : (ref : Bytes) → IsRef ref → validate_ref ref ≡ ok tt
unfolding validate_ref
ref_complete ref r =
    rw (r.split, r.letter_lower, after_letter_complete r.name r.value r.name_bytes r.value_present)

-- A ref is accepted exactly if it is a lower case letter and name bytes, a colon, and a value that
-- is not empty and holds no new line.
pub validate_ref_iff : (ref : Bytes) → (validate_ref ref ≡ ok tt) ↔ IsRef ref
validate_ref_iff ref = (IsRef-sound ref, ref_complete ref)

pub tvdb-valid : validate_ref (codes "tvdb:1") ≡ ok tt
unfolding validate_ref
tvdb-valid = refl
