-- ===== src/Tests/Config.antt =====
-- A koanf that knows two settings, the name of the environment and the address of Redis.
use realtime_messaging_platf.Prelude.{
  ◌≡◌, ◌≢◌, ◌⊎◌, refl, ap, sym, ◌∙◌, true, String, str_eq, eq_iff, lookup, map, List, [], ◌∷◌,
  Option, some, none, if◌then◌else◌, All, arith,
}
use realtime_messaging_platf.Domain.Errors.{Error, is, config_required}
use realtime_messaging_platf.Effect.{Result, ok, err}
use realtime_messaging_platf.Config.Defaults.{Config, defaults}
use realtime_messaging_platf.Config.Load.{Koanf, load, env_key}
use realtime_messaging_platf.Config.Load.Settings.{
  Setting, path, value, KoanfContract, gateway_http_port,
}
use realtime_messaging_platf.Config.Load.Reach.{load-default}
use realtime_messaging_platf.Config.Load.Required.{load_required}

abbrev Keys : Type 0
Keys = List (String × String)

abbrev or_default : {A : Type 0} → A → Option A → A
or_default a none = a
or_default a (some b) = b

abbrev set_redis : String → Config → Config
set_redis addr c = let r = c.redis in record c { redis = record r { addr = addr } }

abbrev named : (String → String) → Keys → Keys
named key env = map (λ (e : String × String). (key e.0, e.1)) env

abbrev write : Keys → Config → Config
write keys c =
    let addr = or_default c.redis.addr (lookup "redis.addr" keys) in
    let environment = or_default c.environment (lookup "environment" keys) in
    set_redis addr (record c { environment = environment })

abbrev koanf : Koanf Keys
koanf = record { load_env = λ key env. ok (named key env); unmarshal = λ keys c. ok (write keys c) }

lookup-named :
    (key : String → String) (p : String) (env : Keys)
    → All (λ (e : String × String). key e.0 ≢ p) env
    → lookup p (named key env) ≡ none
unfolding lookup
lookup-named key p [] h = refl
lookup-named key p ((name, v) ∷ rest) h =
    ground (arith, h.0, eq_iff (key name) p, lookup-named key p rest h.1)

write-unset :
    (key : String → String) (env : Keys) (c : Config) (s : Setting)
    → All (λ (e : String × String). key e.0 ≢ path s) env
    → value s (write (named key env) c) ≡ value s c
write-unset key env c Setting.environment h = rw (lookup-named key "environment" env h)
write-unset key env c Setting.redis_addr h = rw (lookup-named key "redis.addr" env h)
write-unset key env c Setting.log_level h = refl
write-unset key env c _ h = refl

ok-injective : (c c' : Config) → ◌≡◌ {A = Result Config} (ok c) (ok c') → c ≡ c'
ok-injective c c' h = cc

written :
    (key : String → String) (env keys : Keys) (c c' : Config)
    → koanf.load_env key env ≡ ok keys
    → koanf.unmarshal keys c ≡ ok c'
    → write (named key env) c ≡ c'
written key env keys c c' l u =
    let keys_is : named key env ≡ keys = ground arith in
    ap (λ (x : Keys). write x c) keys_is ∙ ok-injective (write keys c) c' u

abbrev contract : KoanfContract koanf
contract = record {
  fold = λ s. s;
  fold-has_underscore = λ s. refl;
  unset = λ key env keys c c' s l u h.
      ap (value s) (sym (written key env keys c c' l u)) ∙ write-unset key env c s h;
}

abbrev to_lower : String → String
to_lower s =
    if str_eq s "GATEWAY_HTTP_PORT"
    then "gateway_http_port"
    else if str_eq s "ENVIRONMENT"
    then "environment"
    else s

abbrev staging : Keys
staging = ("GATEWAY_HTTP_PORT", "9999") ∷ ("ENVIRONMENT", "staging") ∷ []

load-default_example :
    value gateway_http_port (record defaults { environment = "staging" })
    ≡ value gateway_http_port defaults
unfolding load defaults lookup
load-default_example =
    load-default koanf to_lower contract gateway_http_port staging
      (record defaults { environment = "staging" }) refl refl

abbrev prod : Keys
prod = ("ENVIRONMENT", "prod") ∷ []

abbrev prod_config : Config
prod_config = record defaults { environment = "prod" }

load_required_example :
    ((load koanf to_lower prod ≡ ok prod_config)
      × ((prod_config.environment ≢ "prod")
          ⊎ ((prod_config.kafka.brokers ≢ []) × (prod_config.redis.addr ≢ ""))))
    ⊎ ((e : Error) × (load koanf to_lower prod ≡ err e)
        × (is e config_required ≡ true)
        × (prod_config.environment ≡ "prod")
        × ((prod_config.kafka.brokers ≡ []) ⊎ (prod_config.redis.addr ≡ "")))
unfolding defaults env_key lookup
load_required_example =
    load_required koanf to_lower prod (("environment", "prod") ∷ []) prod_config refl refl
