-- ===== src/Chatmgmt/Adapter/Keys.antt =====
-- internal/chatmgmt/adapter/aws_keystore.go. The AWS clients, the PEM and X.509 parsers and
-- strings.TrimPrefix are parameters. Here a method runs alone; Threads has PublicKey in the sections
-- that its locks make of it.
pub mod Cache
pub mod Threads
pub mod Answers
use Prim.Native.String.{◌++◌}
use realtime_messaging_platf.Prelude.{
  lookup, ℕ, ◌*◌, ◌-◌, Bool, true, false, not, ltb, leb, String, str_eq, List, [], ◌∷◌, Option,
  none, some, if◌then◌else◌,
}
use realtime_messaging_platf.Chatmgmt.Adapter.Pem.{
  Crypto, parse_rsa_private_key, parse_rsa_public_key,
}
use realtime_messaging_platf.Domain.Constants.{second}
use realtime_messaging_platf.Domain.Errors.{Error, plain, wrap}
use realtime_messaging_platf.Effect.{
  Result, ok, err, Action, labelled, label, call, pure, ◌>>=◌, ◌>>◌,
}

pub record Parameter : Type 0 where
  pub name : Option String
  pub value : Option String

pub record Aws (W : Type 0) : Type 0 where
  pub now : W → ℕ × W
  -- The value of the parameter, and the secret string, where there is one.
  pub get_parameter : String → Action W (Option String)
  pub get_secret_value : String → Action W (Option String)
  pub get_parameters_by_path : String → Action W (List Parameter)

pub record AwsKeyStore (PrivateKey PublicKey : Type 0) : Type 0 where
  pub private_key : Option PrivateKey
  pub current_key_id : String
  pub public_keys : List (String × PublicKey)
  pub public_keys_loaded_at : ℕ
  -- `none` is the zero time, which is further back than any cooldown.
  pub last_unknown_kid_refresh : Option ℕ
  pub cache_ttl : ℕ
  pub kid_cooldown : ℕ

abbrev pub ssm_public_keys_path_prefix : String
ssm_public_keys_path_prefix = "/messaging/jwt/public-keys/"

abbrev pub ssm_current_key_id_path : String
ssm_current_key_id_path = "/messaging/jwt/current-key-id"

abbrev pub sm_signing_key_prefix : String
sm_signing_key_prefix = "jwt/signing-key/"

abbrev pub default_cache_ttl : ℕ
default_cache_ttl = 300 * second

abbrev pub default_kid_cooldown : ℕ
default_kid_cooldown = 30 * second

unfoldable pub cooldown_active : ℕ → ℕ → Option ℕ → Bool
cooldown_active now cooldown none = false
cooldown_active now cooldown (some last) = leb (now - last) cooldown

module _ {K P : Type 0} (crypto : Crypto K P) where
  -- The loop over the parameters: one without a name or a value is passed over.
  unfoldable pub collect : List Parameter → List (String × P) → Result (List (String × P))
  unfolding parse_rsa_public_key
  collect [] keys = ok keys
  collect (p ∷ rest) keys = elim p.name [
    | none ↦ collect rest keys
    | some name ↦ elim p.value [
      | none ↦ collect rest keys
      | some value ↦ elim (parse_rsa_public_key crypto value) [
        | err e ↦ err (wrap "parsing public key for kid %q" e)
        | ok key ↦ collect rest ((crypto.trim_prefix name ssm_public_keys_path_prefix, key) ∷ keys)
      ]
    ]
  ]

  collected : Result (List Parameter) → Result (List (String × P))
  unfolding collect
  collected (err e) = err (wrap "GetParametersByPath %q" e)
  collected (ok parameters) = collect parameters []

  module _ {W : Type 0} (aws : Aws W) where
    unfoldable pub load_public_keys_from_ssm : Action W (List (String × P))
    unfolding collected
    load_public_keys_from_ssm w =
        let (r, w') = aws.get_parameters_by_path ssm_public_keys_path_prefix w in (collected r, w')

    -- A method of the store: its result, the store and the world after it.
    abbrev pub Method : Type 0 → Type 0
    Method A = AwsKeyStore K P → W → Result A × (AwsKeyStore K P × W)

    unfoldable pub signing_key : Method (K × String)
    signing_key ks w = elim ks.private_key [
      | none ↦ (err (plain "no signing key available"), (ks, w))
      | some key ↦ (ok (key, ks.current_key_id), (ks, w))
    ]

    refreshed : Result (List (String × P)) → Method Unit
    refreshed (err e) ks w = (err (wrap "loading public keys from SSM" e), (ks, w))
    refreshed (ok keys) ks w =
        let (now, w') = aws.now w in
        (ok tt, (record ks { public_keys = keys; public_keys_loaded_at = now }, w'))

    unfoldable pub refresh_public_keys : Method Unit
    unfolding refreshed
    refresh_public_keys ks w = let (r, w') = load_public_keys_from_ssm w in refreshed r ks w'

    refreshed_with_cooldown : Result (List (String × P)) → Method Unit
    refreshed_with_cooldown (err e) ks w = (err (wrap "loading public keys from SSM" e), (ks, w))
    refreshed_with_cooldown (ok keys) ks w =
        let (now, w1) = aws.now w in
        let (now', w2) = aws.now w1 in
        (
          ok tt,
          (
            record ks {
              public_keys = keys;
              public_keys_loaded_at = now;
              last_unknown_kid_refresh = some now';
            },
            w2,
          ),
        )

    unfoldable pub refresh_public_keys_with_cooldown : Method Unit
    unfolding refreshed_with_cooldown
    refresh_public_keys_with_cooldown ks w =
        let (r, w') = load_public_keys_from_ssm w in refreshed_with_cooldown r ks w'

    found_after : String → Result Unit → Method P
    found_after kid (err e) ks w = (err (wrap "refreshing public keys (unknown kid %q)" e), (ks, w))
    found_after kid (ok _) ks w = elim (lookup kid ks.public_keys) [
      | none ↦ (err (plain "unknown key ID %q"), (ks, w))
      | some key ↦ (ok key, (ks, w))
    ]

    unfoldable pub unknown_kid : String → ℕ → Method P
    unfolding found_after
    unknown_kid kid now ks w =
        if cooldown_active now ks.kid_cooldown ks.last_unknown_kid_refresh
        then (err (plain "unknown key ID %q (cooldown active)"), (ks, w))
        else (let (r, (ks', w')) = refresh_public_keys_with_cooldown ks w in
            found_after kid r ks' w')

    found_or_unknown : String → ℕ → Method P
    found_or_unknown kid now ks w = elim (lookup kid ks.public_keys) [
      | some key ↦ (ok key, (ks, w))
      | none ↦ unknown_kid kid now ks w
    ]

    after_expiry : String → ℕ → Result Unit → Method P
    unfolding found_or_unknown
    after_expiry kid now (err e) ks w =
        (err (wrap "refreshing public keys (cache expired)" e), (ks, w))
    after_expiry kid now (ok _) ks w = found_or_unknown kid now ks w

    unfoldable pub public_key : String → Method P
    unfolding found_or_unknown after_expiry
    public_key kid ks w =
        let (now, w1) = aws.now w in
        if ltb ks.cache_ttl (now - ks.public_keys_loaded_at)
        then (let (r, (ks', w')) = refresh_public_keys ks w1 in after_expiry kid now r ks' w')
        else found_or_unknown kid now ks w1

    parsed_private_key : String → Option String → Result K
    parsed_private_key key_id none = err (plain "signing key %q has no secret string")
    parsed_private_key key_id (some secret) =
        labelled "parsing private key for key ID %q" (parse_rsa_private_key crypto secret)

    key_id_of : Option String → Result String
    key_id_of none = err (plain "SSM parameter %s has no value")
    key_id_of (some key_id) = ok key_id

    unfoldable pub new_aws_key_store : Action W (AwsKeyStore K P)
    unfolding key_id_of parsed_private_key
    new_aws_key_store = do
      parameter ←
          label "fetching current key ID from SSM" (aws.get_parameter ssm_current_key_id_path)
      current_key_id ← (λ w. (key_id_of parameter, w))
      secret ←
          label "fetching signing key %q from Secrets Manager"
            (aws.get_secret_value (sm_signing_key_prefix ++ current_key_id))
      private_key ← (λ w. (parsed_private_key current_key_id secret, w))
      public_keys ← label "loading public keys from SSM" load_public_keys_from_ssm
      now ← call aws.now
      pure (record {
        private_key = some private_key;
        current_key_id = current_key_id;
        public_keys = public_keys;
        public_keys_loaded_at = now;
        last_unknown_kid_refresh = none;
        cache_ttl = default_cache_ttl;
        kid_cooldown = default_kid_cooldown;
      })
