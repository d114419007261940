-- ===== src/Cursor/Token/Tests.antt =====
-- Runs with a small format for cursors.
use takuhai.Base.{
  Bytes, Option, Time, [], bytes_eq, codes, drop, false, inr, length, none, refl, some, take, ◌++◌,
  ◌∷◌, ◌≡◌,
}
use takuhai.Errors.{err, invalid_cursor}
use takuhai.Cursor.Token.{catalog, delta, Cursor, WireCursor, Codec, wire, encode, decode}
use takuhai.Cursor.Token.Binding.{decode_refuses}

-- Each text after its length.
abbrev write : WireCursor → Bytes
write w = w.v ∷ w.p ∷ length w.r ∷ length w.k ∷ w.r ++ w.k ++ w.h

abbrev read : Bytes → Option WireCursor
read (v ∷ p ∷ r ∷ k ∷ text) =
    some
      (record { v = v; r = take r text; p = p; k = take k (drop r text); h = drop k (drop r text) })
read _ = none

abbrev read_time : Bytes → Option Time
read_time (t ∷ []) = some t
read_time _ = none

abbrev pub small_codec : Codec
small_codec = record {
  marshal = write;
  unmarshal = read;
  format_time = λ t. t ∷ [];
  parse_time = read_time;
}

abbrev seek : Cursor
seek = record { ref = codes "tvdb:1"; path = delta; key = 9; infohash = codes "ab" }

seek-text : read (encode small_codec seek) ≡ some (wire small_codec seek)
unfolding encode wire
seek-text = refl

decode_refuses_example :
    decode small_codec (encode small_codec seek) (codes "tvdb:1") catalog ≡ err invalid_cursor
decode_refuses_example =
    decode_refuses small_codec seek (codes "tvdb:1") catalog seek-text refl (inr λ e. cc e)

-- The small format reads a catalog cursor without a ref back.
pub small_cursor :
    (t : Time) (h : Bytes)
    → let c : Cursor = record { ref = []; path = catalog; key = t; infohash = h } in
      (bytes_eq (encode small_codec c) [] ≡ false)
      × (small_codec.unmarshal (encode small_codec c) ≡ some (wire small_codec c))
      × (small_codec.parse_time (small_codec.format_time t) ≡ some t)
unfolding encode wire
small_cursor t h = (refl, refl, refl)
