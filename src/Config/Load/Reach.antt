-- ===== src/Config/Load/Reach.antt =====
-- internal/config/config.go: which settings an environment variable reaches.
use Prim.Native.Char.{code}
use realtime_messaging_platf.Prelude.{
  ◌≡◌, ◌≢◌, inl, inr, refl, ap, true, false, ◌==◌, String, List, [], ◌∷◌, All, arith, Bool-cases,
}
use realtime_messaging_platf.Effect.{Result, ok, err}
use realtime_messaging_platf.Config.Defaults.{Config, defaults}
use realtime_messaging_platf.Config.Load.{
  Koanf, env_key, replace_underscores, load, unmarshalled, check_required, required_or,
  validate_required,
}
use realtime_messaging_platf.Config.Load.Settings.{
  Setting, path, value, KoanfContract, has_underscore,
}

-- The loop at an empty text, at an underscore and at any other character.
replace_underscores-has_underscore : (s : String) → has_underscore (replace_underscores s) ≡ false
unfolding replace_underscores
replace_underscores-has_underscore String.[] = refl
replace_underscores-has_underscore (String.◌∷◌ c s) = elim (Bool-cases (code c == b'_')) [
  | inl under ↦ rw under (replace_underscores-has_underscore s)
  | inr other ↦ rw other (rw other (replace_underscores-has_underscore s))
]

required_or-ok :
    (cfg cfg' : Config) (r : Result Unit) → required_or cfg r ≡ ok cfg' → (cfg ≡ cfg') × (r ≡ ok tt)
unfolding required_or
required_or-ok cfg cfg' (ok tt) h = (ground arith, refl)
required_or-ok cfg cfg' (err e) h = absurd (ground arith)

module _ {Keys : Type 0} (k : Koanf Keys) (to_lower : String → String) where
  check_required-ok :
      (r : Result Config) (cfg : Config)
      → check_required k to_lower r ≡ ok cfg
      → (r ≡ ok cfg) × (validate_required cfg ≡ ok tt)
  unfolding check_required
  check_required-ok (err e) cfg h = absurd (ground arith)
  check_required-ok (ok c) cfg h =
      let (c_is, valid) = required_or-ok c cfg (validate_required c) h in
      (ap (λ (x : Config). ok x) c_is, rw c_is at valid)

  unmarshalled-ok :
      (r : Result Keys) (cfg : Config)
      → unmarshalled k to_lower r ≡ ok cfg
      → (keys : Keys) × (r ≡ ok keys)
        × (k.unmarshal keys defaults ≡ ok cfg)
        × (validate_required cfg ≡ ok tt)
  unfolding unmarshalled
  unmarshalled-ok (err e) cfg h = absurd (ground arith)
  unmarshalled-ok (ok keys) cfg h =
      let (u, valid) = check_required-ok (k.unmarshal keys defaults) cfg h in (keys, refl, u, valid)

  fold-env_key-ne-path :
      (c : KoanfContract k) (s : Setting) (env : List (String × String))
      → has_underscore (path s) ≡ true
      → All (λ (e : String × String). c.fold (env_key k to_lower e.0) ≢ c.fold (path s)) env
  unfolding env_key
  fold-env_key-ne-path c s [] h = tt
  fold-env_key-ne-path c s ((name, v) ∷ rest) h = (
    λ e. ground (
      arith,
      replace_underscores-has_underscore (to_lower name),
      c.fold-has_underscore (replace_underscores (to_lower name)),
      c.fold-has_underscore (path s),
      ap (λ (x : String). has_underscore x) e,
    ),
    fold-env_key-ne-path c s rest h,
  )

  -- A setting with an underscore in its path (the ports, the logging settings, the client id and
  -- the service name) keeps its default, whatever the environment holds.
  pub load-default :
      KoanfContract k
      → (s : Setting) (env : List (String × String)) (cfg : Config) → has_underscore (path s) ≡ true
      → load k to_lower env ≡ ok cfg
      → value s cfg ≡ value s defaults
  unfolding load
  load-default contract s env cfg under h =
      let (keys, l, u, valid) = unmarshalled-ok (k.load_env (env_key k to_lower) env) cfg h in
      contract.unset (env_key k to_lower) env keys defaults cfg s l u
        (fold-env_key-ne-path contract s env under)
