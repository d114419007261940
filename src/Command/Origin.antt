-- ===== src/Command/Origin.antt =====
-- Where a setting of a command comes from.
use takuhai.Base.{
  Bool-cases, Bytes, Option, Option-cases, ap, inl, inr, ltb, none, refl, some, sym, true, ℕ, ◌∙◌,
  ◌≡◌, ◌≢◌, ◌⊎◌,
}
use takuhai.Command.{
  Env, Failure, Setup, failed, given, env_parsed, parsed_variable, given_or, check_serve,
  known_level, ◌>>=◌,
}

-- A setting is that of its flag, or else what its variable spells if that is set, or else the default.
abbrev pub Origin {ℓ} : {A : Type ℓ} → (Bytes → Option A) → Env → Bytes → A → Option A → A → Type ℓ
Origin parse env name default flag value =
    (flag ≡ some value)
    ⊎ ((flag ≡ none)
        × (((env name ≡ none) × (value ≡ default))
            ⊎ ((text : Bytes) × (env name ≡ some text) × (parse text ≡ some value))))

-- Inversion of a bind that succeeds.
pub >>=-eq-given {ℓ κ} :
    {A : Type ℓ} {B : Type κ} (m : Setup A) (next : A → Setup B) {out : B}
    → (m >>= next) ≡ given out
    → (a : A) × (m ≡ given a) × (next a ≡ given out)
>>=-eq-given (failed why) next h = cc
>>=-eq-given (given a) next h = (a, refl, h)

pub given-injective {ℓ} : {A : Type ℓ} {a b : A} → given a ≡ given b → a ≡ b
given-injective e = cc

pub failed-ne-given {ℓ} : {A : Type ℓ} {why : Failure} {a : A} → failed why ≢ given a
failed-ne-given e = cc

env_parsed-given {ℓ} :
    {A : Type ℓ} (parse : Bytes → Option A) (env : Env) (name : Bytes) (default a : A)
    → env_parsed parse env name default ≡ given a
    → ((env name ≡ none) × (a ≡ default))
      ⊎ ((text : Bytes) × (env name ≡ some text) × (parse text ≡ some a))
unfolding env_parsed parsed_variable
env_parsed-given parse env name default a h = elim (Option-cases (env name)) [
  | inl n ↦ inl (n, sym (given-injective (rw (n, env_parsed) at h)))
  | inr (text, e) ↦ elim (Option-cases (parse text)) [
    | inl n ↦ absurd (failed-ne-given (rw (e, n, env_parsed, parsed_variable) at h))
    | inr (b, q) ↦
        inr (text, e, q ∙ ap some (given-injective (rw (e, q, env_parsed, parsed_variable) at h)))
  ]
]

-- A variable whose text was accepted, with its flag on top.
pub variable-Origin {ℓ} :
    {A : Type ℓ} (parse : Bytes → Option A) (env : Env) (name : Bytes) (default a : A)
    (flag : Option A)
    → env_parsed parse env name default ≡ given a
    → Origin parse env name default flag (given_or a flag)
variable-Origin parse env name default a none h =
    inr (refl, env_parsed-given parse env name default a h)
variable-Origin parse env name default a (some b) h = inl refl

pub check_serve-given {ℓ} :
    {A : Type ℓ} (n_arg : ℕ) (level : Bytes) (cmd : A) {out : A}
    → check_serve n_arg level cmd ≡ given out
    → (known_level level ≡ true) × (cmd ≡ out)
unfolding check_serve
check_serve-given n_arg level cmd e = elim (Bool-cases (ltb 0 n_arg)) [
  | inl more ↦ absurd (failed-ne-given (rw (more, check_serve) at e))
  | inr few ↦ elim (Bool-cases (known_level level)) [
    | inl good ↦ (good, given-injective (rw (few, good, check_serve) at e))
    | inr bad ↦ absurd (failed-ne-given (rw (few, bad, check_serve) at e))
  ]
]
