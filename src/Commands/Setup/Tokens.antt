-- ===== src/Commands/Setup/Tokens.antt =====
-- cmd/chatmgmt/setup.go: the tokens of a service that was set up.
use mathlib.Core.Path.{subst}
use realtime_messaging_platf.Prelude.{
  ℕ, ◌<◌, ◌≡◌, ◌≢◌, inl, inr, refl, sym, ap, ◌∙◌, true, String, eq_iff, lookup, arith, Bool-cases,
}
use realtime_messaging_platf.Effect.{Result-cases, ok, Action}
use realtime_messaging_platf.Config.Defaults.{Config, is_local}
use realtime_messaging_platf.Auth.Keys.{
  new_static_key_store, static_key_store, static_signing_key, static_public_key,
}
use realtime_messaging_platf.Auth.Tokens.{
  Claims, MintResult, KeyStore, mint_access_token, validate_access_token,
}
use realtime_messaging_platf.Auth.Tokens.RoundTrip.{
  JwtContract, validate_access_token-mint_access_token,
}
use realtime_messaging_platf.Dynamo.{Client}
use realtime_messaging_platf.Dynamo.Factory.{new_client}
use realtime_messaging_platf.Chatmgmt.App.{AuthService}
use realtime_messaging_platf.Commands.Setup.{
  Platform, RedisClient, setup, auth_service, create_key_store, dev_key_store,
}

module _ {W K P D A : Type 0} (p : Platform W K P D A) where
  abbrev dev_store : K → KeyStore W K P
  dev_store key = static_key_store (λ w. new_static_key_store p.public_of key "dev-key-001")

  create_key_store-ok :
      (cfg : Config) (w : W) (ks : KeyStore W K P)
      → (create_key_store p cfg w).0 ≡ ok ks
      → (is_local cfg ≡ true) × ((key : K) × (ks ≡ dev_store key))
  unfolding create_key_store dev_key_store
  create_key_store-ok cfg w ks h = elim (Bool-cases (is_local cfg)) [
    | inr other ↦ absurd (ground arith)
    | inl local ↦ elim (Result-cases (p.generate_key 2048 w).0) [
      | inl (key, made) ↦ (local, (key, ground arith))
      | inr (e, failed) ↦ absurd (ground arith)
    ]
  ]

  setup-ok :
      (cfg : Config) (w w' : W) (s : AuthService W K P) (c : ℕ → Action W Unit)
      → setup p cfg w ≡ (ok (s, c), w')
      → (db : Client W) × (redis : RedisClient D W) × (key : K) × (auth_service p cfg db redis
            (dev_store key)
          ≡ s)
        × (is_local cfg ≡ true)
  unfolding setup
  setup-ok cfg w w' s c h =
      let made =
        new_client p.aws_sdk
          (record {
            endpoint = cfg.dynamo_db.endpoint;
            region = cfg.aws.region;
            timeout = cfg.dynamo_db.timeout;
          })
          w in
      let (redis, w2) =
        p.new_redis
          (record {
            addr = cfg.redis.addr;
            password = cfg.redis.password;
            db = cfg.redis.db;
            read_timeout = cfg.redis.timeout;
            write_timeout = cfg.redis.timeout;
          })
          made.1 in
      elim (Result-cases made.0) [
        | inr (e, failed) ↦ absurd (ground arith)
        | inl (db, opened) ↦ elim (Result-cases (create_key_store p cfg w2).0) [
          | inr (e, failed) ↦ absurd (ground arith)
          | inl (ks, stored) ↦
              let (local, (key, ks_is)) = create_key_store-ok cfg w2 ks stored in
              let s_is : auth_service p cfg db redis ks ≡ s = ground arith in
              (
                db,
                redis,
                key,
                ap (λ (k : KeyStore W K P). auth_service p cfg db redis k) (sym ks_is) ∙ s_is,
                local,
              )
        ]
      ]

  Validates : AuthService W K P → Type 0
  Validates s =
      (user_id session_id : String) (v v' : W) (r : MintResult) (z : W)
      → mint_access_token s.runtime s.jwt_library s.minter user_id session_id v ≡ (ok r, v')
      → session_id ≢ ""
      → (s.runtime.now z).0 < s.jwt_library.numeric_date r.expires_at
      → (c : Claims) × (validate_access_token s.runtime s.jwt_library s.validator r.token z
          ≡ (ok c, (s.runtime.now z).1))
        × (c.subject ≡ user_id)
        × (c.session_id ≡ session_id)
        × (c.id ≡ r.jti)

  module _ (contract : JwtContract p.jwt_library p.public_of) where
    auth_service-Validates :
        (cfg : Config) (db : Client W) (redis : RedisClient D W) (key : K)
        → Validates (auth_service p cfg db redis (dev_store key))
    unfolding Validates auth_service static_key_store static_signing_key static_public_key
        new_static_key_store lookup
    auth_service-Validates cfg db redis key user_id session_id v v' r z minted sid time =
        let s = auth_service p cfg db redis (dev_store key) in
        let t =
          validate_access_token-mint_access_token p.runtime p.jwt_library p.public_of contract
            s.minter s.validator user_id session_id v v' r key "dev-key-001" z z refl minted
            (ground (arith, eq_iff "dev-key-001" "")) sid refl refl refl time in
        (t.0, t.1, t.2, t.3, t.4)

    -- Where the set-up succeeds, the environment is the local one, and every access token that the
    -- service mints for a session is accepted by the service before it expires, as a token of that
    -- user and session with the minted id.
    pub validate_access_token-setup :
        (cfg : Config) (w w' : W) (s : AuthService W K P) (c : ℕ → Action W Unit)
        (user_id session_id : String) (v v' : W) (r : MintResult) (z : W)
        → setup p cfg w ≡ (ok (s, c), w')
        → mint_access_token s.runtime s.jwt_library s.minter user_id session_id v ≡ (ok r, v')
        → session_id ≢ ""
        → (s.runtime.now z).0 < s.jwt_library.numeric_date r.expires_at
        → (cfg.environment ≡ "local")
          × ((claims : Claims) × (validate_access_token s.runtime s.jwt_library s.validator r.token
                  z
                ≡ (ok claims, (s.runtime.now z).1))
              × (claims.subject ≡ user_id)
              × (claims.session_id ≡ session_id)
              × (claims.id ≡ r.jti))
    unfolding Validates is_local
    validate_access_token-setup cfg w w' s c user_id session_id v v' r z h minted sid time =
        let (db, redis, key, s_is, local) = setup-ok cfg w w' s c h in
        (
          (eq_iff cfg.environment "local").0 local,
          subst Validates s_is (auth_service-Validates cfg db redis key) user_id session_id v v' r z
              minted sid time,
        )
