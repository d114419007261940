-- ===== src/Dmhy/Jsonl.antt =====
-- sources/dmhy/cmd/takuhai-dmhy/parse.go: the posts of saved archive pages, written as lines of JSON.
pub mod Written
pub mod Archive
mod Tests
use takuhai.Base.{
  Bool, Bytes, Int64, List, Option, [], bytes_eq, codes, false, if◌then◌else◌, length, ltb,
  map_option, none, not, some, ℕ, ◌&&◌, ◌++◌, ◌+◌, ◌||◌, ◌∷◌,
}
use takuhai.RawPost.{RawPost}
use takuhai.Dmhy.Html.{parse_archive_page}

pub record ParseCmd : Type 0 where
  pub files : List Bytes
  pub out : Bytes
  pub keep_going : Bool

-- What the command meets: the files, what stdin holds, whether the output can be created, and
-- whether a line can be written behind as many others.
pub record Outside : Type 0 where
  pub read_file : Bytes → Option Bytes
  pub stdin : Option Bytes
  pub creates : Bytes → Bool
  pub writes : ℕ → Bool

pub data Fatal : Type 0 where
  open_failure write_failure some_failed : Fatal
  unparsed : Bytes → Fatal

-- The lines that were written, how many files failed, whether stdin was read to its end, and the
-- error that stopped the command.
pub record Emitted : Type 0 where
  pub written : List RawPost
  pub failures : ℕ
  pub drained : Bool
  pub fatal : Option Fatal

abbrev pub nothing : Emitted
nothing = record { written = []; failures = 0; drained = false; fatal = none }

abbrev pub is_stdin : Bytes → Bool
is_stdin name = bytes_eq name (codes "-")

-- os.ReadFile, or io.ReadAll of stdin, which gives nothing more the second time.
pub read_input : Outside → Bool → Bytes → Option Bytes
read_input w drained name =
    if is_stdin name
    then (if drained then map_option (λ _. []) w.stdin else w.stdin)
    else w.read_file name

-- The loop over the posts of a file.
pub write_posts : Outside → List RawPost → Emitted → Emitted
write_posts w [] s = s
write_posts w (p ∷ posts) s =
    let rest = write_posts w posts (record s { written = s.written ++ p ∷ [] }) in
    if w.writes (length s.written) then rest else record s { fatal = some write_failure }

-- The loop ends with a fatal error, and goes on without.
pub go_on : (Emitted → Emitted) → Option Fatal → Emitted → Emitted
go_on loop (some e) s = s
go_on loop none s = loop s

-- What Run makes of it: files that failed are an error too.
pub finish : Emitted → List RawPost × Option Fatal
finish s = elim s.fatal [
  | some e ↦ (s.written, some e)
  | none ↦ (s.written, if ltb 0 s.failures then some some_failed else none)
]

module _ (scale : Bytes → ℕ → Option Int64) (w : Outside) where
  -- parseFile
  unfoldable pub parse_file : Bool → Bytes → Option (List RawPost)
  parse_file drained name = elim (read_input w drained name) [
    | none ↦ none
    | some html ↦ parse_archive_page scale html
  ]

  -- What one file adds.
  pub emit_parsed : Bool → Bytes → Option (List RawPost) → Emitted → Emitted
  unfolding write_posts
  emit_parsed keep name none s =
      let s' = record s { failures = s.failures + 1 } in
      if keep then s' else record s' { fatal = some (unparsed name) }
  emit_parsed keep name (some posts) s = write_posts w posts s

  pub emit_file : Bool → Bytes → Emitted → Emitted
  unfolding parse_file emit_parsed
  emit_file keep name s =
      emit_parsed keep name (parse_file s.drained name)
        (record s { drained = s.drained || is_stdin name })

  -- emit
  pub emit : Bool → List Bytes → Emitted → Emitted
  unfolding emit_file go_on
  emit keep [] s = s
  emit keep (name ∷ files) s = let s' = emit_file keep name s in go_on (emit keep files) s'.fatal s'

  -- Run: the lines of the output, and the error.
  pub run : ParseCmd → List RawPost × Option Fatal
  unfolding emit finish
  run c =
      if not (is_stdin c.out) && not (w.creates c.out)
      then ([], some open_failure)
      else finish (emit c.keep_going c.files nothing)
