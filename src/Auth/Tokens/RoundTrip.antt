-- ===== src/Auth/Tokens/RoundTrip.antt =====
-- internal/auth/mint.go and jwt.go together: a token that the minter made, and the validator.
use realtime_messaging_platf.Prelude.{
  ◌+◌, ◌<◌, ◌≡◌, ◌≢◌, Bool, true, false, String, str_eq, eq_iff, List, [], ◌∷◌, some, none,
  if◌then◌else◌, refl, arith,
}
use realtime_messaging_platf.Effect.{ok, Action}
use realtime_messaging_platf.Auth.Runtime.{Runtime}
use realtime_messaging_platf.Auth.Tokens.{
  Claims, MintResult, Header, ParserOptions, JwtLibrary, Minter, Validator, minted_claims,
  mint_access_token, parse_token, validate_access_token, parser_options, key_func, kid_key, accept,
  require_sid,
}

-- A text is among those of a list.
abbrev pub has : String → List String → Bool
has s [] = false
has s (t ∷ rest) = if str_eq s t then true else has s rest

-- What the JWT library documents of a token that it has signed. To parse it, it calls the callback
-- with the token's header; with the key that goes with the signing key, a signing method among the
-- valid ones, the issuer and an audience of the token, and a time before its expiry, it finds no
-- fault and gives the claims back.
pub record JwtContract {W K P : Type 0} (lib : JwtLibrary W K P) (public_of : K → P) : Type 0 where
  pub parse-sign :
      (key : K) (kid : String) (c : Claims) (w w' : W) (token : String)
      → lib.sign key kid c w ≡ (ok token, w')
      → (kf : Header → Action W P) (o : ParserOptions W) (v v1 : W)
      → kf (record { is_rsa = true; kid = some kid }) v ≡ (ok (public_of key), v1)
      → has "RS256" o.valid_methods ≡ true
      → o.issuer ≡ c.issuer
      → has o.audience c.audience ≡ true
      → (o.time_func v1).0 < c.expires_at
      → lib.parse_with_claims token kf o v
        ≡ (record { claims = c; has_token = true; error = none }, (o.time_func v1).1)

module _ {W K P : Type 0} (rt : Runtime W) (lib : JwtLibrary W K P) where
  mint_access_token-ok :
      (m : Minter W K P) (user_id session_id : String) (w w' : W) (r : MintResult) (key : K)
      (kid : String)
      → (m.key_store.signing_key w).0 ≡ ok (key, kid)
      → mint_access_token rt lib m user_id session_id w ≡ (ok r, w')
      → let n = rt.now (m.key_store.signing_key w).1 in
        let j = rt.new_uuid n.1 in
        (lib.sign key kid (minted_claims rt lib m user_id session_id n.0 j.0) j.1
          ≡ (ok r.token, w'))
        × (r.jti ≡ j.0)
        × (r.expires_at ≡ n.0 + m.access_ttl)
  unfolding mint_access_token
  mint_access_token-ok m user_id session_id w w' r key kid k h = ground arith

  module _ (public_of : K → P) (contract : JwtContract lib public_of) where
    validated :
        (v : Validator W K P) (c : Claims) (token : String) (z z' : W)
        → lib.parse_with_claims token (key_func rt lib v) (parser_options rt lib v) z
          ≡ (record { claims = c; has_token = true; error = none }, z')
        → c.session_id ≢ ""
        → validate_access_token rt lib v token z ≡ (ok c, z')
    unfolding validate_access_token parse_token accept require_sid
    validated v c token z z' h sid = ground (arith, eq_iff c.session_id "")

    -- A minted access token is accepted. A validator with the minter's issuer and audience, whose key
    -- store serves the public key for the id of the signing key, gives the claims of the token, for
    -- the user and the session of the minting, with the minted id and the scope "messaging", as long
    -- as the session and the key id are not empty and the clock is before the expiry.
    pub validate_access_token-mint_access_token :
        (m : Minter W K P) (v : Validator W K P) (user_id session_id : String) (w w' : W)
        (r : MintResult) (key : K) (kid : String) (z z' : W)
        → (m.key_store.signing_key w).0 ≡ ok (key, kid)
        → mint_access_token rt lib m user_id session_id w ≡ (ok r, w')
        → kid ≢ ""
        → session_id ≢ ""
        → v.issuer ≡ m.issuer
        → v.audience ≡ m.audience
        → v.key_store.public_key kid z ≡ (ok (public_of key), z')
        → (rt.now z').0 < lib.numeric_date r.expires_at
        → (c : Claims) × (validate_access_token rt lib v r.token z ≡ (ok c, (rt.now z').1))
          × (c.subject ≡ user_id)
          × (c.session_id ≡ session_id)
          × (c.id ≡ r.jti)
          × (c.scope ≡ "messaging")
    unfolding minted_claims parser_options key_func kid_key
    validate_access_token-mint_access_token m v user_id session_id w w' r key kid z z' k h kid_ne
          sid_ne iss aud pk time =
        let n = rt.now (m.key_store.signing_key w).1 in
        let j = rt.new_uuid n.1 in
        let c = minted_claims rt lib m user_id session_id n.0 j.0 in
        let s = mint_access_token-ok m user_id session_id w w' r key kid k h in
        let parsed =
          contract.parse-sign key kid c j.1 w' r.token s.0 (key_func rt lib v)
            (parser_options rt lib v) z z' (ground (arith, eq_iff kid "")) refl iss
            (ground (arith, eq_iff v.audience m.audience)) (ground (arith, s.2)) in
        (
          c,
          validated v c r.token z (rt.now z').1 parsed sid_ne,
          refl,
          refl,
          ground (arith, s.1),
          refl,
        )
