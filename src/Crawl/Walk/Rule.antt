-- ===== src/Crawl/Walk/Rule.antt =====
-- The rule by which a property of every successful walk is proved: round by round.
use takuhai.Base.{List, Option, inl, inr, length, some, subst, suc, zero, ℕ, ◌<◌, ◌≡◌, ◌⊎◌}
use takuhai.Errors.{Result, ok, err, Result-cases}
use takuhai.RawPost.{RawPost}
use takuhai.Crawl.Walk.{
  Config, Cutoff, State, Turn, done, again, CrawlResponse, finish, turn, page_rows, walk,
}
use takuhai.Crawl.Walk.Round.{AtFloor, AtBoundary, AtBudget, GoesOn, Turned, turn_lem}

module _ {Body : Type 0} (c : Config Body) (cutoff : Cutoff) (page_size : ℕ) where
  abbrev pub Ends : State → List RawPost → CrawlResponse → Type 0
  Ends s rows r =
      AtFloor c.threshold cutoff page_size s rows r
      ⊎ (AtBoundary c.threshold cutoff page_size s rows r
          ⊎ AtBudget c.threshold cutoff page_size s rows r)

  abbrev pub Continues : State → List RawPost → State → Type 0
  Continues = GoesOn c.threshold cutoff page_size

  module _ {ℓ} (P : State → CrawlResponse → Type ℓ)
      (last : (s : State) (rows : List RawPost) (r : CrawlResponse)
        → page_rows c s.page ≡ ok rows
        → Ends s rows r
        → P s r)
      (before : (s : State) (rows : List RawPost) (s' : State) (r : CrawlResponse)
        → page_rows c s.page ≡ ok rows
        → Continues s rows s'
        → P s' r
        → P s r) where
    finish_rule :
        (rest : State → Option (Result CrawlResponse)) (s : State) (rows : List RawPost) (t : Turn)
        (r : CrawlResponse)
        → page_rows c s.page ≡ ok rows
        → Turned c.threshold cutoff page_size s rows t
        → ((s' : State) → length s'.posts < page_size → rest s' ≡ some (ok r) → P s' r)
        → finish rest t ≡ some (ok r)
        → P s r
    unfolding finish
    finish_rule rest s rows (done r') r q turned ih e =
        let same : r' ≡ r = cc e in last s rows r q (subst (Ends s rows) same turned)
    finish_rule rest s rows (again s') r q turned ih e =
        before s rows s' r q turned (ih s' turned.room e)

    pub walk_rule :
        (fuel : ℕ) (s : State) (r : CrawlResponse)
        → length s.posts < page_size
        → walk c fuel cutoff page_size s ≡ some (ok r)
        → P s r
    unfolding walk
    walk_rule zero s r l e = cc
    walk_rule (suc fuel) s r l e = elim (Result-cases (page_rows c s.page)) [
      | inl (rows, q) ↦
          finish_rule (walk c fuel cutoff page_size) s rows
            (turn c.threshold cutoff page_size s rows) r q
            (turn_lem c.threshold cutoff page_size s rows l) (λ s' l' e'. walk_rule fuel s' r l' e')
            (rw (q, walk) at e)
      | inr (x, q) ↦
          let e' : ◌≡◌ {A = Option (Result CrawlResponse)} (some (err x)) (some (ok r)) =
            rw (q, walk) at e in
          cc e'
    ]
