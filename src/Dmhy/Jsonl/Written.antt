-- ===== src/Dmhy/Jsonl/Written.antt =====
-- What the command has written when it ends without an error.
use takuhai.Base.{
  Bool, Bool-cases, Bytes, Int64, List, Option, Option-cases, [], ap, append-nil, append_assoc,
  arith, false, if◌then◌else◌, inl, inr, length, ltb, map_option, none, not, refl, some, sym, true,
  ℕ, ◌&&◌, ◌++◌, ◌||◌, ◌∙◌, ◌∷◌, ◌≡◌, ◌≤◌,
}
use takuhai.RawPost.{RawPost}
use takuhai.Dmhy.Jsonl.{
  ParseCmd, Outside, Fatal, Emitted, nothing, is_stdin, write_posts, go_on, parse_file, emit_parsed,
  emit_file, emit, finish, run, write_failure, some_failed, open_failure,
}

module _ (scale : Bytes → ℕ → Option Int64) (w : Outside) where
  -- The posts of the files, if all of them parse.
  unfoldable pub posts_of : Bool → List Bytes → Option (List RawPost)
  posts_of drained [] = some []
  posts_of drained (name ∷ files) = elim (parse_file scale w drained name) [
    | none ↦ none
    | some posts ↦ map_option (λ rest. posts ++ rest) (posts_of (drained || is_stdin name) files)
  ]

posts_of-cons :
    (scale : Bytes → ℕ → Option Int64) (w : Outside) (drained : Bool) (name : Bytes)
    (files : List Bytes) {posts rest : List RawPost}
    → parse_file scale w drained name ≡ some posts
    → posts_of scale w (drained || is_stdin name) files ≡ some rest
    → posts_of scale w drained (name ∷ files) ≡ some (posts ++ rest)
unfolding posts_of
posts_of-cons scale w drained name files {posts} found tail =
    rw (found, posts_of) (ap (map_option (λ rest. posts ++ rest)) tail)

-- Posts that are written without a fatal error stand behind what was there.
write_posts-ok :
    (w : Outside) (posts : List RawPost) (s : Emitted)
    → (write_posts w posts s).fatal ≡ none
    → write_posts w posts s ≡ record s { written = s.written ++ posts }
unfolding write_posts
write_posts-ok w [] s h = ap (λ l. record s { written = l }) (sym (append-nil s.written))
write_posts-ok w (p ∷ posts) s h = elim (Bool-cases (w.writes (length s.written))) [
  | inr bad ↦ let e : ◌≡◌ {A = Option Fatal} (some write_failure) none = rw bad at h in cc e
  | inl good ↦
      let s' = record s { written = s.written ++ p ∷ [] } in
      let h' : (write_posts w posts s').fatal ≡ none = rw good at h in
      rw good (
        write_posts-ok w posts s' h'
        ∙ ap (λ l. record s { written = l }) (append_assoc s.written (p ∷ []) posts))
]

write_posts-failures :
    (w : Outside) (posts : List RawPost) (s : Emitted)
    → (write_posts w posts s).failures ≡ s.failures
unfolding write_posts
write_posts-failures w [] s = refl
write_posts-failures w (p ∷ posts) s =
    ground (arith, write_posts-failures w posts (record s { written = s.written ++ p ∷ [] }))

module _ (scale : Bytes → ℕ → Option Int64) (w : Outside) where
  emit_parsed-grows :
      (keep : Bool) (name : Bytes) (o : Option (List RawPost)) (s : Emitted)
      → s.failures ≤ (emit_parsed scale w keep name o s).failures
  unfolding emit_parsed
  emit_parsed-grows true name none s = omega arith
  emit_parsed-grows false name none s = omega arith
  emit_parsed-grows keep name (some posts) s = omega (arith, write_posts-failures w posts s)

  emit-grows :
      (keep : Bool) (files : List Bytes) (s : Emitted)
      → s.failures ≤ (emit scale w keep files s).failures
  unfolding emit emit_file go_on
  emit-grows keep [] s = omega arith
  emit-grows keep (name ∷ files) s =
      let given = record s { drained = s.drained || is_stdin name } in
      let s' = emit_file scale w keep name s in
      let first = emit_parsed-grows keep name (parse_file scale w s.drained name) given in
      elim (Option-cases s'.fatal) [
        | inr (e, q) ↦ rw (q, go_on) first
        | inl q ↦ rw (q, go_on) (omega (arith, first, emit-grows keep files s'))
      ]

  emit_parsed-ok :
      (keep : Bool) (name : Bytes) (o : Option (List RawPost)) (s : Emitted)
      → (emit_parsed scale w keep name o s).fatal ≡ none
      → (emit_parsed scale w keep name o s).failures ≡ 0
      → (posts : List RawPost) × (o ≡ some posts)
        × (emit_parsed scale w keep name o s ≡ record s { written = s.written ++ posts })
  unfolding emit_parsed
  emit_parsed-ok true name none s h z = absurd (omega (arith, z))
  emit_parsed-ok false name none s h z = absurd (omega (arith, z))
  emit_parsed-ok keep name (some posts) s h z = (posts, refl, write_posts-ok w posts s h)

  emit-ok :
      (keep : Bool) (files : List Bytes) (s : Emitted)
      → (emit scale w keep files s).fatal ≡ none
      → (emit scale w keep files s).failures ≡ 0
      → (posts : List RawPost) × (posts_of scale w s.drained files ≡ some posts)
        × ((emit scale w keep files s).written ≡ s.written ++ posts)
  unfolding emit emit_file go_on posts_of
  emit-ok keep [] s h z = ([], refl, sym (append-nil s.written))
  emit-ok keep (name ∷ files) s h z =
      let given = record s { drained = s.drained || is_stdin name } in
      let parsed = parse_file scale w s.drained name in
      let s' = emit_file scale w keep name s in
      elim (Option-cases s'.fatal) [
        | inr (e, q) ↦
            let e' : ◌≡◌ {A = Option Fatal} (some e) none = sym q ∙ (rw (q, go_on) at h) in cc e'
        | inl q ↦
            let h' : (emit scale w keep files s').fatal ≡ none = rw (q, go_on) at h in
            let z' : (emit scale w keep files s').failures ≡ 0 = rw (q, go_on) at z in
            let calm : s'.failures ≡ 0 = omega (arith, z', emit-grows keep files s') in
            let (posts, found, same) = emit_parsed-ok keep name parsed given q calm in
            let (rest, tail, text) = emit-ok keep files s' h' z' in
            let drained : posts_of scale w (s.drained || is_stdin name) files ≡ some rest =
              ap (λ (x : Emitted). posts_of scale w x.drained files) (sym same) ∙ tail in
            (
              posts ++ rest,
              posts_of-cons scale w s.drained name files found drained,
              rw (q, go_on)
                  (text
                    ∙ ap (λ (x : Emitted). x.written ++ rest) same
                    ∙ append_assoc s.written posts rest),
            )
      ]

finish-ok :
    (s : Emitted)
    → (finish s).1 ≡ none
    → (s.fatal ≡ none) × (s.failures ≡ 0) × ((finish s).0 ≡ s.written)
unfolding finish
finish-ok s h = elim (Option-cases s.fatal) [
  | inr (e, q) ↦ let e' : ◌≡◌ {A = Option Fatal} (some e) none = rw (q, finish) at h in cc e'
  | inl q ↦
      let h' : (if ltb 0 s.failures then some some_failed else none) ≡ none = rw (q, finish) at h in
      (q, ground (arith, h'), rw (q, finish) refl)
]

-- The command that ends without an error has read and parsed every file, whether it keeps going or
-- not, and its output is the posts of the files in their order, each on its line.
pub run-ok :
    (scale : Bytes → ℕ → Option Int64) (w : Outside) (c : ParseCmd)
    → (run scale w c).1 ≡ none
    → (posts : List RawPost) × (posts_of scale w false c.files ≡ some posts)
      × ((run scale w c).0 ≡ posts)
unfolding run
run-ok scale w c h = elim (Bool-cases (not (is_stdin c.out) && not (w.creates c.out))) [
  | inl bad ↦ let e : ◌≡◌ {A = Option Fatal} (some open_failure) none = rw (bad, run) at h in cc e
  | inr good ↦
      let (f, z, same) =
        finish-ok (emit scale w c.keep_going c.files nothing) (rw (good, run) at h) in
      let (posts, found, text) = emit-ok scale w c.keep_going c.files nothing f z in
      (posts, found, rw (good, run) (same ∙ text))
]
