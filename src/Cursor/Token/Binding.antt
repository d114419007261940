-- ===== src/Cursor/Token/Binding.antt =====
-- Cursors round trip, and are bound to their request.
use takuhai.Base.{
  ==_refl, Bool-cases, Bytes, bytes_eq, bytes_eq_refl, bytes_ne, false, inl, inr, refl, some, ◌==◌,
  ◌≡◌, ◌≢◌, ◌⊎◌,
}
use takuhai.Errors.{ok, err, invalid_cursor}
use takuhai.Cursor.Token.{
  CursorPath, catalog, delta, Cursor, Codec, path_number, wire, encode, decode_payload, decode,
}

-- A cursor that the formats give back is decoded under its own ref and path to itself.
pub decode-encode :
    (codec : Codec) (c : Cursor)
    → codec.unmarshal (encode codec c) ≡ some (wire codec c)
    → codec.parse_time (codec.format_time c.key) ≡ some c.key
    → decode codec (encode codec c) c.ref c.path ≡ ok c
unfolding decode decode_payload wire
decode-encode codec c text time =
    rw (text, decode, time, decode_payload, bytes_eq_refl c.ref, ==_refl (path_number c.path)) refl

path_number-ne : (p q : CursorPath) → p ≢ q → (path_number p == path_number q) ≡ false
path_number-ne catalog catalog h = absurd (h refl)
path_number-ne catalog delta h = refl
path_number-ne delta catalog h = refl
path_number-ne delta delta h = absurd (h refl)

-- A cursor that the formats give back is refused under another ref, and on the other path.
pub decode_refuses :
    (codec : Codec) (c : Cursor) (ref : Bytes) (path : CursorPath)
    → codec.unmarshal (encode codec c) ≡ some (wire codec c)
    → codec.parse_time (codec.format_time c.key) ≡ some c.key
    → (c.ref ≢ ref) ⊎ (c.path ≢ path)
    → decode codec (encode codec c) ref path ≡ err invalid_cursor
unfolding decode decode_payload wire
decode_refuses codec c ref path text time (inl other) =
    rw (text, decode, time, decode_payload, bytes_ne c.ref ref other) refl
decode_refuses codec c ref path text time (inr other) = elim (Bool-cases (bytes_eq c.ref ref)) [
  | inl e ↦ rw (text, decode, time, decode_payload, e, path_number-ne c.path path other) refl
  | inr e ↦ rw (text, decode, time, decode_payload, e) refl
]
