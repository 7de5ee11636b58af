-- ===== src/Environment.antt =====
-- internal/environment/environment.go: the environments by their names.
use dateilager.Prelude.{
  ℕ, ◌+◌, ◌≡◌, ◌≢◌, ◌⊎◌, inl, inr, refl, ◌&&◌, leb, map, Bytes, bytes_eq, codes, if◌then◌else◌,
}
use dateilager.Result.{Result, ok, err, no_environment}
use dateilager.Api.Fs.{Env, dev, test, prod, unset}

-- strings.ToLower, on ASCII: no other letter becomes one of the names' letters
abbrev lower_code : ℕ → ℕ
lower_code c = if leb 65 c && leb c 90 then c + 32 else c

abbrev pub lower : Bytes → Bytes
lower text = map lower_code text

-- LoadEnvironment, with the value of DL_ENV
unfoldable pub load_environment : Bytes → Result Env
load_environment text =
    let name = lower text in
    if bytes_eq name (codes "dev")
    then ok dev
    else if bytes_eq name (codes "test")
    then ok test
    else if bytes_eq name (codes "prod")
    then ok prod
    else err no_environment

-- String
unfoldable pub env_text : Env → Bytes
env_text dev = codes "dev"
env_text test = codes "test"
env_text prod = codes "prod"
env_text unset = codes "unknown"

-- Each environment but the unset one is loaded from its name, and that one's name is refused.
pub load_environment-env_text :
    (env : Env)
    → ((env ≢ unset) × (load_environment (env_text env) ≡ ok env))
      ⊎ ((env ≡ unset) × (load_environment (env_text env) ≡ err no_environment))
unfolding load_environment env_text bytes_eq
load_environment-env_text dev = inl (λ e. cc e, refl)
load_environment-env_text test = inl (λ e. cc e, refl)
load_environment-env_text prod = inl (λ e. cc e, refl)
load_environment-env_text unset = inr (refl, refl)
