-- ===== src/Store/Submit/Once.antt =====
-- The row of a submission that settles its release.
use takuhai.Base.{
  Time, ap, arith, inl, inr, leb, refl, some, some-injective, sym, true, ℕ, ◌+◌, ◌∙◌, ◌≡◌, ◌≢◌, ◌≤◌,
  ◌⊎◌,
}
use takuhai.Store.{Db, Release, MatchStatus, find_release}
use takuhai.Store.Rows.{find-update_where}
use takuhai.Store.Submit.{
  SubmitStatus, SubmitParams, new_attempts, final_status, resolve, apply_submit,
}
use takuhai.Store.Submit.Keeps.{Accepted, resolve-infohash}

-- The row of an accepted submission afterwards.
pub find-Accepted :
    (m : ℕ) (now : Time) (p : SubmitParams) (db db' : Db) (r : Release) (status : MatchStatus)
    → Accepted m now p db db' r status
    → find_release p.infohash db'.releases
      ≡ some (resolve p now (new_attempts p.status r.attempt_count) status r)
unfolding apply_submit
find-Accepted m now p db db' r status (found, _, _, _, same) =
    let n = new_attempts p.status r.attempt_count in
    ap (λ x. find_release p.infohash x.releases) (sym same)
    ∙ find-update_where p.infohash (resolve p now n status) db.releases
        (resolve-infohash p now n status) found

pub resolve-status :
    (p : SubmitParams) (now : Time) (n : ℕ) (status : MatchStatus) (r : Release)
    → (status ≢ MatchStatus.unmatched)
    → (resolve p now n status r).match_status ≡ status
unfolding resolve
resolve-status p now n MatchStatus.unmatched r h = absurd (h refl)
resolve-status p now n MatchStatus.matched r h = refl
resolve-status p now n MatchStatus.suppressed r h = refl
resolve-status p now n MatchStatus.exhausted r h = refl

pub final_settled :
    (m : ℕ) (s : SubmitStatus) (n : ℕ) (status : MatchStatus)
    → (s ≢ SubmitStatus.unmatched) ⊎ (m ≤ n)
    → final_status m s n ≡ some status
    → status ≢ MatchStatus.unmatched
unfolding final_status
final_settled m SubmitStatus.matched n status h e q = cc
final_settled m SubmitStatus.suppressed n status h e q = cc
final_settled m SubmitStatus.unknown n status h e q = cc
final_settled m SubmitStatus.unmatched n status (inl h) e q = h refl
final_settled m SubmitStatus.unmatched n status (inr h) e q =
    let spent : leb m n ≡ true = ground (arith, h) in
    let e' : some MatchStatus.exhausted ≡ some status = rw spent at e in cc (some-injective e', q)

-- When the attempts reach the cap, by the attempts before.
pub last_attempt :
    (m n : ℕ) (s : SubmitStatus)
    → (s ≢ SubmitStatus.unmatched) ⊎ (m ≤ n + 1)
    → (s ≢ SubmitStatus.unmatched) ⊎ (m ≤ new_attempts s n)
unfolding new_attempts
last_attempt m n SubmitStatus.matched h = inl (λ e. cc e)
last_attempt m n SubmitStatus.suppressed h = inl (λ e. cc e)
last_attempt m n SubmitStatus.unknown h = inl (λ e. cc e)
last_attempt m n SubmitStatus.unmatched h = h
