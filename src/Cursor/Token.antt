-- ===== src/Cursor/Token.antt =====
-- internal/cursor/cursor.go, Encode and Decode: the opaque cursors of the list of releases.
pub mod Binding
pub mod Tests
use takuhai.Base.{Bytes, Int64, Option, Time, bytes_eq, if◌then◌else◌, none, not, some, ◌==◌}
use takuhai.Errors.{Result, ok, err, invalid_cursor}

pub data CursorPath : Type 0 where
  catalog delta : CursorPath

pub record Cursor : Type 0 where
  pub ref : Bytes
  pub path : CursorPath
  pub key : Time
  pub infohash : Bytes

pub record WireCursor : Type 0 where
  pub v : Int64
  pub r : Bytes
  pub p : Int64
  pub k : Bytes
  pub h : Bytes

-- The two text formats that Encode and Decode go through: base64 of JSON, and RFC3339Nano.
pub record Codec : Type 0 where
  pub marshal : WireCursor → Bytes
  pub unmarshal : Bytes → Option WireCursor
  pub format_time : Time → Bytes
  pub parse_time : Bytes → Option Time

abbrev pub cursor_version : Int64
cursor_version = 1

abbrev pub path_number : CursorPath → Int64
path_number catalog = 0
path_number delta = 1

pub wire : Codec → Cursor → WireCursor
wire codec c = record {
  v = cursor_version;
  r = c.ref;
  p = path_number c.path;
  k = codec.format_time c.key;
  h = c.infohash;
}

pub encode : Codec → Cursor → Bytes
encode codec c = codec.marshal (wire codec c)

-- The checks on a payload that parses, in the source's order.
pub decode_payload : Codec → Bytes → CursorPath → WireCursor → Result Cursor
decode_payload codec ref path w =
    if not (w.v == cursor_version) then err invalid_cursor else elim (codec.parse_time w.k) [
      | none ↦ err invalid_cursor
      | some key ↦
          if not (bytes_eq w.r ref)
          then err invalid_cursor
          else if not (w.p == path_number path)
          then err invalid_cursor
          else ok (record { ref = w.r; path = path; key = key; infohash = w.h })
    ]

pub decode : Codec → Bytes → Bytes → CursorPath → Result Cursor
decode codec encoded ref path = elim (codec.unmarshal encoded) [
  | none ↦ err invalid_cursor
  | some w ↦ decode_payload codec ref path w
]
