-- ===== src/Errors.antt =====
-- The sentinel errors of the packages infohash, cursor, store, dispatch and crawl, and the
-- failures that carry no sentinel. errors.Is sees the sentinel through fmt.Errorf's %w, so an
-- error is its sentinel; the text around it is left out.
use takuhai.Base.{Bool, false, if◌then◌else◌, inl, inr, refl, true, ◌≡◌, ◌⊎◌}

pub data Error : Type 0 where
  skip_infohash : Error
  invalid_ref : Error
  invalid_cursor : Error
  no_such_release : Error
  no_active_lease : Error
  stale_lease : Error
  invalid_input : Error
  invalid_status : Error
  batch_exceeds_cap : Error
  database_failure : Error
  malformed_cursor : Error
  malformed_lookback : Error
  crawl_fetch : Error
  crawl_parse : Error

-- What a fallible call gives: its value, or the sentinel of its failure.
pub data Result {ℓ} (Value : Type ℓ) : Type ℓ where
  err : Error → Result Value
  ok : Value → Result Value

infixl 5 ◌>>=◌
abbrev pub ◌>>=◌ {ℓ κ} :
    {Value : Type ℓ} {B : Type κ} → Result Value → (Value → Result B) → Result B
err why >>= next = err why
ok value >>= next = next value

-- A guard that was passed.
pub guard-eq-ok {ℓ} :
    {A : Type ℓ} (b : Bool) (e : Error) (r : Result A) {a : A}
    → (if b then err e else r) ≡ ok a
    → (b ≡ false) × (r ≡ ok a)
guard-eq-ok true e r h = cc
guard-eq-ok false e r h = (refl, h)

pub Result-cases {ℓ} :
    {Value : Type ℓ} (given : Result Value)
    → ((value : Value) × (given ≡ ok value)) ⊎ ((why : Error) × (given ≡ err why))
Result-cases (err why) = inr (why, refl)
Result-cases (ok value) = inl (value, refl)

pub ok-injective {ℓ} : {A : Type ℓ} {a b : A} → ok a ≡ ok b → a ≡ b
ok-injective e = cc

-- Inversion of a bind that succeeds.
pub >>=-eq-ok {ℓ κ} :
    {Value : Type ℓ} {Next : Type κ} (given : Result Value) (next : Value → Result Next)
    {out : Next}
    → (given >>= next) ≡ ok out
    → (value : Value) × (given ≡ ok value) × (next value ≡ ok out)
>>=-eq-ok (err why) next h = cc
>>=-eq-ok (ok value) next h = (value, refl, h)
