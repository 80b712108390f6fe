-- ===== src/Config/Load.antt =====
-- internal/config/config.go: Load. The library koanf is a parameter, and so is strings.ToLower.
pub mod Settings
pub mod Reach
pub mod Required
use Prim.Native.Char.{code}
use realtime_messaging_platf.Prelude.{
  Bool, true, false, ◌==◌, String, str_eq, List, [], ◌∷◌, if◌then◌else◌,
}
use realtime_messaging_platf.Domain.Errors.{sentinel, wrap, config_required}
use realtime_messaging_platf.Effect.{Result, ok, err}
use realtime_messaging_platf.Config.Defaults.{Config, defaults}

-- strings.ReplaceAll(s, "_", ".").
unfoldable pub replace_underscores : String → String
replace_underscores String.[] = ""
replace_underscores (String.◌∷◌ c s) =
    String.◌∷◌ (if code c == b'_' then "." else c) (replace_underscores s)

is_empty : List String → Bool
is_empty [] = true
is_empty (_ ∷ _) = false

unfoldable pub validate_required : Config → Result Unit
unfolding is_empty
validate_required cfg =
    if str_eq cfg.environment "local"
    then ok tt
    else if str_eq cfg.environment "prod"
    then if is_empty cfg.kafka.brokers
      then err (wrap "kafka.brokers" (sentinel config_required))
      else if str_eq cfg.redis.addr ""
      then err (wrap "redis.addr" (sentinel config_required))
      else ok tt
    else ok tt

-- What an instance of koanf with delimiter "." does: it loads the environment, each name by a
-- callback, and writes what it has loaded over a configuration.
pub record Koanf (Keys : Type 0) : Type 0 where
  pub load_env : (String → String) → List (String × String) → Result Keys
  pub unmarshal : Keys → Config → Result Config

required_or : Config → Result Unit → Result Config
required_or cfg (ok _) = ok cfg
required_or cfg (err e) = err e

module _ {Keys : Type 0} (k : Koanf Keys) (to_lower : String → String) where
  unfoldable pub env_key : String → String
  unfolding replace_underscores
  env_key s = replace_underscores (to_lower s)

  check_required : Result Config → Result Config
  unfolding validate_required required_or
  check_required (err e) = err (wrap "unmarshal config" e)
  check_required (ok cfg) = required_or cfg (validate_required cfg)

  unmarshalled : Result Keys → Result Config
  unfolding check_required
  unmarshalled (err e) = err (wrap "load env vars" e)
  unmarshalled (ok keys) = check_required (k.unmarshal keys defaults)

  -- `env` is the process's environment.
  unfoldable pub load : List (String × String) → Result Config
  unfolding unmarshalled env_key
  load env = unmarshalled (k.load_env env_key env)
