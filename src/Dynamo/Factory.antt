-- ===== src/Dynamo/Factory.antt =====
-- internal/dynamo/client.go: NewClient. The AWS SDK is a parameter.
use realtime_messaging_platf.Prelude.{
  zero, suc, Bool, true, false, not, String, str_eq, Option, none, some, if◌then◌else◌,
}
use realtime_messaging_platf.Effect.{Action, pure, label, ◌>>=◌}
use realtime_messaging_platf.Config.Defaults.{ℤ, pos, negsuc}
use realtime_messaging_platf.Dynamo.{Client}

pub record DynamoConfig : Type 0 where
  pub endpoint : String
  pub region : String
  pub timeout : ℤ

pub record StaticCredentials : Type 0 where
  pub key : String
  pub secret : String
  pub session : String

pub record LoadOptions : Type 0 where
  pub region : String
  pub credentials : Option StaticCredentials

pub record AwsSdk (W AwsConfig : Type 0) : Type 0 where
  pub load_default_config : LoadOptions → Action W AwsConfig
  -- The same configuration with an HTTP client that has a timeout.
  pub with_http_timeout : ℤ → AwsConfig → AwsConfig
  -- NewFromConfig, with a base endpoint or without.
  pub new_from_config : AwsConfig → Option String → Client W

abbrev pub test_credentials : StaticCredentials
test_credentials = record { key = "test"; secret = "test"; session = "" }

is_positive : ℤ → Bool
is_positive (pos zero) = false
is_positive (pos (suc n)) = true
is_positive (negsuc n) = false

module _ {W AwsConfig : Type 0} (sdk : AwsSdk W AwsConfig) where
  unfoldable pub new_client : DynamoConfig → Action W (Client W)
  unfolding is_positive
  new_client cfg = do
    let custom = not (str_eq cfg.endpoint "")
    aws_cfg ← label "load AWS config" (
        sdk.load_default_config (record {
          region = cfg.region;
          credentials = if custom then some test_credentials else none;
        }))
    let timed =
        if is_positive cfg.timeout then sdk.with_http_timeout cfg.timeout aws_cfg else aws_cfg
    pure (sdk.new_from_config timed (if custom then some cfg.endpoint else none))
