-- ===== src/Crawl/Lookback/Print.antt =====
-- A duration in weeks, days and hours is read as what it says.
use takuhai.Base.{
  ==_refl, All, Bytes, [], add64, ap, arith, bytes_eq, codes, false, half_word, length,
  le→ltb_false, max_int, refl, some, subst, true, ℕ, ◌*◌, ◌++◌, ◌+◌, ◌-◌, ◌/◌, ◌==◌, ◌∙◌, ◌∷◌, ◌≡◌,
  ◌≤◌,
}
use takuhai.Errors.{ok}
use takuhai.Stdlib.Decimal.{
  is_digit, atoi, itoa, scan, IsDigit, itoa-IsDigit, scan-itoa, itoa-cons, atoi-itoa,
}
use takuhai.Stdlib.Duration.{
  parse_duration, terms, term, leading_int, starts_digit, term_unit, take_unit, point, unit_of,
  term_value, starts_point,
}
use takuhai.Crawl.Lookback.{
  span_digits, prefix_group, group_value, unit_after, hour, remainder, weeks, parse_lookback, days,
  total, total,
}

IsDigit-is_digit : (c : ℕ) → IsDigit c → is_digit c ≡ true
IsDigit-is_digit c h = ground arith

pub span_digits-append :
    (s t : Bytes) (c : ℕ)
    → All IsDigit s
    → is_digit c ≡ false
    → span_digits (s ++ c ∷ t) ≡ (s, c ∷ t)
unfolding span_digits
span_digits-append [] t c h e = rw e refl
span_digits-append (d ∷ s) t c h e =
    rw (IsDigit-is_digit d h.0, span_digits-append s t c h.1 e) refl

prefix_group-append :
    (s t : Bytes) (c d : ℕ) (s' : Bytes)
    → s ≡ d ∷ s'
    → All IsDigit s
    → is_digit c ≡ false
    → prefix_group c (s ++ c ∷ t) ≡ (s, t)
unfolding prefix_group unit_after
prefix_group-append s t c d s' e h out =
    rw (span_digits-append s t c h out, e, unit_after, ==_refl c) refl

group_value-digits :
    (unit : ℕ → ℕ) (s : Bytes) (n c : ℕ) (t : Bytes)
    → s ≡ c ∷ t
    → atoi s ≡ some n
    → group_value unit s ≡ ok (unit n)
unfolding group_value
group_value-digits unit s n c t e read =
    rw (e, group_value) (let read' : atoi (c ∷ t) ≡ some n = rw e at read in rw read' refl)

scan_grows : (s : Bytes) (x n : ℕ) → scan s x ≡ some n → x ≤ n
scan_grows [] x n e = ground (arith, e)
scan_grows (c ∷ s) x n e = ground (arith, e, scan_grows s (x * 10 + (c - b'0')) n)

leading_int-scan :
    (s t : Bytes) (x n c : ℕ)
    → All IsDigit s
    → is_digit c ≡ false
    → scan s x ≡ some n
    → n ≤ half_word
    → leading_int x (s ++ c ∷ t) ≡ some (n, c ∷ t)
unfolding leading_int
leading_int-scan [] t x n c h out e fits = rw out (ground (arith, e))
leading_int-scan (d ∷ s) t x n c h out e fits =
    let y = x * 10 + (d - b'0') in
    let digit = IsDigit-is_digit d h.0 in
    let e' : scan s y ≡ some n = rw digit at e in
    let grows = scan_grows s y n e' in
    rw
      (
        digit,
        le→ltb_false (half_word / 10) x (omega (arith, grows, fits)),
        le→ltb_false half_word y (omega (arith, grows, fits)),
      )
      (leading_int-scan s t y n c h.1 out e' fits)

-- A Go duration of h hours.
hours_term :
    (scaled : ℕ → ℕ → ℕ → ℕ) (h c : ℕ) (s : Bytes)
    → itoa h ≡ c ∷ s
    → h * hour ≤ max_int
    → term scaled (c ∷ s ++ b'h' ∷ []) ≡ some (h * hour, [])
unfolding term starts_digit term_unit take_unit point unit_of term_value starts_point
hours_term scaled h c s e fits =
    let small : h ≤ max_int = omega (arith, fits) in
    let digits : All IsDigit (c ∷ s) = subst (All IsDigit) e (itoa-IsDigit h small) in
    let scanned : scan (c ∷ s) 0 ≡ some h = subst (λ x. scan x 0 ≡ some h) e (scan-itoa h small) in
    rw
      (
        term,
        leading_int-scan (c ∷ s) [] 0 h b'h' digits refl scanned (omega (arith, small)),
        IsDigit-is_digit c digits.0,
        le→ltb_false (half_word / hour) h (omega (arith, fits)),
      )
      refl

hours_terms :
    (scaled : ℕ → ℕ → ℕ → ℕ) (h c : ℕ) (s : Bytes)
    → itoa h ≡ c ∷ s
    → h * hour ≤ max_int
    → terms scaled (length (c ∷ s ++ b'h' ∷ [])) 0 (c ∷ s ++ b'h' ∷ []) ≡ some (h * hour)
unfolding terms
hours_terms scaled h c s e fits = rw (terms, hours_term scaled h c s e fits) (ground (arith, fits))

append_h : (s : Bytes) → bytes_eq (s ++ b'h' ∷ []) [] ≡ false
append_h [] = refl
append_h (c ∷ s) = refl

more_than_zero : (c : ℕ) (s : Bytes) → bytes_eq (c ∷ s ++ b'h' ∷ []) (codes "0") ≡ false
more_than_zero c s = ground (arith, append_h s)

no_sign : (c : ℕ) → IsDigit c → ((c == b'-') ≡ false) × ((c == b'+') ≡ false)
no_sign c h = (ground arith, ground arith)

hours_parse :
    (scaled : ℕ → ℕ → ℕ → ℕ) (h c : ℕ) (s : Bytes)
    → itoa h ≡ c ∷ s
    → h * hour ≤ max_int
    → parse_duration scaled (c ∷ s ++ b'h' ∷ []) ≡ some (h * hour)
unfolding parse_duration
hours_parse scaled h c s e fits =
    let digits : All IsDigit (c ∷ s) =
      subst (All IsDigit) e (itoa-IsDigit h (omega (arith, fits))) in
    let (minus, plus) = no_sign c digits.0 in
    rw (
      parse_duration,
      minus,
      plus,
      more_than_zero c s,
      hours_terms scaled h c s e fits,
      le→ltb_false max_int (h * hour) fits,
    )

remainder-hours :
    (scaled : ℕ → ℕ → ℕ → ℕ) (h c : ℕ) (s : Bytes)
    → itoa h ≡ c ∷ s
    → h * hour ≤ max_int
    → remainder scaled (itoa h ++ b'h' ∷ []) ≡ ok (h * hour)
unfolding remainder
remainder-hours scaled h c s e fits =
    rw (e, remainder, hours_parse scaled h c s e fits) (ground (arith, fits))

not_short : (s t : Bytes) (c b a : ℕ) → bytes_eq (c ∷ s ++ b ∷ t) (a ∷ []) ≡ false
not_short [] t c b a = ground arith
not_short (d ∷ s) t c b a = ground arith

durations_fit :
    (w d h : ℕ)
    → ((w * 7 + d) * 24 + h) * hour ≤ max_int
    → (weeks w ≡ w * 7 * 24 * hour)
      × (days d ≡ d * 24 * hour)
      × (add64 (add64 (w * 7 * 24 * hour) (d * 24 * hour)) (h * hour)
          ≡ ((w * 7 + d) * 24 + h) * hour)
unfolding weeks days
durations_fit w d h fits = (omega (arith, fits), omega (arith, fits), omega (arith, fits))

parse_lookback-groups :
    (scaled : ℕ → ℕ → ℕ → ℕ) (s w s' d rest : Bytes)
    → bytes_eq s [] ≡ false
    → bytes_eq s (codes "0") ≡ false
    → prefix_group b'w' s ≡ (w, s')
    → prefix_group b'd' s' ≡ (d, rest)
    → parse_lookback scaled s ≡ total scaled w d rest
unfolding parse_lookback
parse_lookback-groups scaled s w s' d rest full more first second =
    rw (full, more, first, second) refl

total-ok :
    (scaled : ℕ → ℕ → ℕ → ℕ) (w d rest : Bytes) (a b c : ℕ)
    → group_value weeks w ≡ ok a
    → group_value days d ≡ ok b
    → remainder scaled rest ≡ ok c
    → total scaled w d rest ≡ ok (add64 (add64 a b) c)
unfolding total
total-ok scaled w d rest a b c first second third = rw (first, second, third) refl

-- A duration of w weeks, d days and h hours is read back from its text with those numbers in
-- decimal, if it fits a time.Duration, whatever the fractions of other durations come to.
pub lookback-itoa :
    (scaled : ℕ → ℕ → ℕ → ℕ) (w d h : ℕ)
    → ((w * 7 + d) * 24 + h) * hour ≤ max_int
    → parse_lookback scaled (itoa w ++ (b'w' ∷ (itoa d ++ (b'd' ∷ (itoa h ++ (b'h' ∷ []))))))
      ≡ ok (((w * 7 + d) * 24 + h) * hour)
lookback-itoa scaled w d h fits =
    let w_fits : w ≤ max_int = omega (arith, fits) in
    let d_fits : d ≤ max_int = omega (arith, fits) in
    let (c, s, e) = itoa-cons w w_fits in
    let (c', s', e') = itoa-cons d d_fits in
    let (c'', s'', e'') = itoa-cons h (omega (arith, fits)) in
    let (in_weeks, in_days, sum) = durations_fit w d h fits in
    let tail = itoa d ++ (b'd' ∷ (itoa h ++ (b'h' ∷ []))) in
    let full : bytes_eq (itoa w ++ b'w' ∷ tail) (codes "0") ≡ false =
      ap (λ x. bytes_eq (x ++ b'w' ∷ tail) (codes "0")) e ∙ not_short s tail c b'w' b'0' in
    let some_text : bytes_eq (itoa w ++ b'w' ∷ tail) [] ≡ false =
      ap (λ x. bytes_eq (x ++ b'w' ∷ tail) []) e in
    parse_lookback-groups scaled (itoa w ++ b'w' ∷ tail) (itoa w) tail (itoa d)
      (itoa h ++ b'h' ∷ []) some_text full
      (prefix_group-append (itoa w) tail b'w' c s e (itoa-IsDigit w w_fits) refl)
      (prefix_group-append (itoa d) (itoa h ++ b'h' ∷ []) b'd' c' s' e' (itoa-IsDigit d d_fits)
        refl)
    ∙ total-ok scaled (itoa w) (itoa d) (itoa h ++ b'h' ∷ []) (w * 7 * 24 * hour) (d * 24 * hour)
        (h * hour) (group_value-digits weeks (itoa w) w c s e (atoi-itoa w w_fits) ∙ ap ok in_weeks)
        (group_value-digits days (itoa d) d c' s' e' (atoi-itoa d d_fits) ∙ ap ok in_days)
        (remainder-hours scaled h c'' s'' e'' (omega (arith, fits)))
    ∙ ap ok sum
