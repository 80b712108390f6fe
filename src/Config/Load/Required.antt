-- ===== src/Config/Load/Required.antt =====
-- internal/config/config.go: what Load requires.
use realtime_messaging_platf.Prelude.{
  ◌≡◌, ◌≢◌, ◌∙◌, ◌⊎◌, inl, inr, refl, ap, true, false, String, str_eq, eq_iff, List, [], ◌∷◌, arith,
  Bool-cases,
}
use realtime_messaging_platf.Domain.Errors.{Error, is, config_required}
use realtime_messaging_platf.Effect.{Result, ok, err}
use realtime_messaging_platf.Config.Defaults.{Config, defaults}
use realtime_messaging_platf.Config.Load.{
  Koanf, env_key, load, unmarshalled, check_required, required_or, validate_required, is_empty,
}

validate_required-ok :
    (cfg : Config)
    → validate_required cfg ≡ ok tt
    → cfg.environment ≡ "prod"
    → (cfg.kafka.brokers ≢ []) × (cfg.redis.addr ≢ "")
unfolding validate_required is_empty
validate_required-ok cfg h p =
    let local : str_eq cfg.environment "local" ≡ false = rw p in
    let prod : str_eq cfg.environment "prod" ≡ true = rw p in
    (λ b. ground (arith, ap is_empty b), ground (arith, eq_iff cfg.redis.addr ""))

Result-cases : (r : Result Unit) → (r ≡ ok tt) ⊎ ((e : Error) × (r ≡ err e))
Result-cases (ok tt) = inl refl
Result-cases (err e) = inr (e, refl)

is_empty-eq : (l : List String) → is_empty l ≡ true → l ≡ []
unfolding is_empty
is_empty-eq [] h = refl
is_empty-eq (x ∷ xs) h = absurd (ground arith)

prod_or :
    (cfg : Config)
    → validate_required cfg ≡ ok tt
    → (cfg.environment ≢ "prod") ⊎ ((cfg.kafka.brokers ≢ []) × (cfg.redis.addr ≢ ""))
prod_or cfg h = elim (Bool-cases (str_eq cfg.environment "prod")) [
  | inl prod ↦ inr (validate_required-ok cfg h ((eq_iff cfg.environment "prod").0 prod))
  | inr other ↦ inl (ground (arith, eq_iff cfg.environment "prod"))
]

validate_required-err :
    (cfg : Config) (e : Error)
    → validate_required cfg ≡ err e
    → (is e config_required ≡ true)
      × (cfg.environment ≡ "prod")
      × ((cfg.kafka.brokers ≡ []) ⊎ (cfg.redis.addr ≡ ""))
unfolding validate_required is
validate_required-err cfg e h = (
  ground arith,
  ground (arith, eq_iff cfg.environment "prod"),
  elim (Bool-cases (is_empty cfg.kafka.brokers)) [
    | inl missing ↦ inl (is_empty-eq cfg.kafka.brokers missing)
    | inr present ↦ inr (ground (arith, eq_iff cfg.redis.addr ""))
  ],
)

module _ {Keys : Type 0} (k : Koanf Keys) (to_lower : String → String) where
  load-of_unmarshal :
      (env : List (String × String)) (keys : Keys) (cfg : Config)
      → k.load_env (env_key k to_lower) env ≡ ok keys
      → k.unmarshal keys defaults ≡ ok cfg
      → load k to_lower env ≡ required_or cfg (validate_required cfg)
  unfolding load unmarshalled check_required
  load-of_unmarshal env keys cfg l u = rw (l, unmarshalled) (rw (u, check_required))

  -- Once the environment is read and decoded, Load gives the configuration exactly as decoded, and
  -- outside production or with a broker and the address of Redis; or it fails with the error for a
  -- required setting, in production and without a broker or without the address.
  pub load_required :
      (env : List (String × String)) (keys : Keys) (cfg : Config)
      → k.load_env (env_key k to_lower) env ≡ ok keys
      → k.unmarshal keys defaults ≡ ok cfg
      → ((load k to_lower env ≡ ok cfg)
          × ((cfg.environment ≢ "prod") ⊎ ((cfg.kafka.brokers ≢ []) × (cfg.redis.addr ≢ ""))))
        ⊎ ((e : Error) × (load k to_lower env ≡ err e)
            × (is e config_required ≡ true)
            × (cfg.environment ≡ "prod")
            × ((cfg.kafka.brokers ≡ []) ⊎ (cfg.redis.addr ≡ "")))
  unfolding required_or
  load_required env keys cfg l u =
      let run = load-of_unmarshal env keys cfg l u in
      elim (Result-cases (validate_required cfg)) [
        | inl valid ↦ inl (run ∙ rw (valid, required_or), prod_or cfg valid)
        | inr (e, refused) ↦
            let why = validate_required-err cfg e refused in
            inr (e, run ∙ rw (refused, required_or), why.0, why.1, why.2)
      ]
