-- ===== src/Auth/Tokens.antt =====
-- internal/auth/claims.go, mint.go and jwt.go. The JWT library is a parameter: it signs claims,
-- and it parses a token with a callback for the key and a list of options.
pub mod Laws
pub mod RoundTrip
use realtime_messaging_platf.Prelude.{
  ℕ, ◌+◌, Bool, true, false, not, ◌&&◌, ◌||◌, ◌==◌, String, str_eq, List, [], ◌∷◌, Option, none,
  some, if◌then◌else◌,
}
use realtime_messaging_platf.Domain.Errors.{
  Error, JwtError, sentinel, jwt, conditional_check_failed, transaction_canceled, plain, wrap, join,
  unauthorized, token_expired, token_malformed, token_unverifiable, token_signature_invalid,
  token_not_valid_yet, token_invalid_audience, token_invalid_issuer, token_required_claim_missing,
  token_used_before_issued,
}
use realtime_messaging_platf.Effect.{Result, ok, err, Action, pure, fail, label, call, ◌>>=◌}
use realtime_messaging_platf.Auth.Runtime.{Runtime}

pub record Claims : Type 0 where
  pub subject : String
  pub issuer : String
  pub audience : List String
  pub issued_at : ℕ
  pub expires_at : ℕ
  pub id : String
  pub session_id : String
  pub scope : String

pub record MintResult : Type 0 where
  pub token : String
  pub jti : String
  pub expires_at : ℕ

-- auth.KeyStore.
pub record KeyStore (W PrivateKey PublicKey : Type 0) : Type 0 where
  pub signing_key : Action W (PrivateKey × String)
  pub public_key : String → Action W PublicKey

-- What the key callback sees of a token: whether its method is an RSA one, and the `kid` header
-- if that is a string.
pub record Header : Type 0 where
  pub is_rsa : Bool
  pub kid : Option String

pub record ParserOptions (W : Type 0) : Type 0 where
  pub issuer : String
  pub audience : String
  pub valid_methods : List String
  pub time_func : W → ℕ × W
  pub expiration_required : Bool

-- The claims, whether a token came back, and the error.
pub record Parsed : Type 0 where
  pub claims : Claims
  pub has_token : Bool
  pub error : Option Error

pub record JwtLibrary (W PrivateKey PublicKey : Type 0) : Type 0 where
  -- jwt.NewNumericDate.
  pub numeric_date : ℕ → ℕ
  -- SignedString of a token with method RS256, a `kid` header and claims.
  pub sign : PrivateKey → String → Claims → Action W String
  -- jwt.ParseWithClaims.
  pub parse_with_claims : String → (Header → Action W PublicKey) → ParserOptions W → W → Parsed × W

pub record Minter (W PrivateKey PublicKey : Type 0) : Type 0 where
  pub key_store : KeyStore W PrivateKey PublicKey
  pub access_ttl : ℕ
  pub issuer : String
  pub audience : String

pub record Validator (W PrivateKey PublicKey : Type 0) : Type 0 where
  pub key_store : KeyStore W PrivateKey PublicKey
  pub issuer : String
  pub audience : String

-- errors.Is at an error variable of the JWT library.
jwt_index : JwtError → ℕ
jwt_index token_expired = 0
jwt_index token_malformed = 1
jwt_index token_unverifiable = 2
jwt_index token_signature_invalid = 3
jwt_index token_not_valid_yet = 4
jwt_index token_invalid_audience = 5
jwt_index token_invalid_issuer = 6
jwt_index token_required_claim_missing = 7
jwt_index token_used_before_issued = 8

unfoldable pub is_jwt : Error → JwtError → Bool
unfolding jwt_index
is_jwt (jwt s) t = jwt_index s == jwt_index t
is_jwt (wrap _ e) t = is_jwt e t
is_jwt (join a b) t = is_jwt a t || is_jwt b t
is_jwt (sentinel _) t = false
is_jwt conditional_check_failed t = false
is_jwt (transaction_canceled _) t = false
is_jwt (plain _) t = false

unfoldable pub only_expired_error : Error → Bool
only_expired_error e =
    if not (is_jwt e token_expired)
    then false
    else not (is_jwt e token_malformed)
      && (not (is_jwt e token_unverifiable)
          && (not (is_jwt e token_signature_invalid)
              && (not (is_jwt e token_not_valid_yet)
                  && (not (is_jwt e token_invalid_audience)
                      && (not (is_jwt e token_invalid_issuer)
                          && (not (is_jwt e token_required_claim_missing)
                              && not (is_jwt e token_used_before_issued)))))))

module _ {W PrivateKey PublicKey : Type 0} (rt : Runtime W)
    (lib : JwtLibrary W PrivateKey PublicKey) where
  pub minted_claims : Minter W PrivateKey PublicKey → String → String → ℕ → String → Claims
  minted_claims m user_id session_id now jti = record {
    subject = user_id;
    issuer = m.issuer;
    audience = m.audience ∷ [];
    issued_at = lib.numeric_date now;
    expires_at = lib.numeric_date (now + m.access_ttl);
    id = jti;
    session_id = session_id;
    scope = "messaging";
  }

  unfoldable pub mint_access_token :
      Minter W PrivateKey PublicKey → String → String → Action W MintResult
  unfolding minted_claims
  mint_access_token m user_id session_id = do
    (private_key, key_id) ← label "get signing key" (m.key_store.signing_key)
    now ← call rt.now
    jti ← call rt.new_uuid
    signed ←
        label "sign access token"
          (lib.sign private_key key_id (minted_claims m user_id session_id now jti))
    pure (record { token = signed; jti = jti; expires_at = now + m.access_ttl })

  module _ (v : Validator W PrivateKey PublicKey) where
    kid_key : Option String → Action W PublicKey
    kid_key none = fail (plain "missing or invalid kid in token header")
    kid_key (some kid) =
        if str_eq kid ""
        then fail (plain "missing or invalid kid in token header")
        else v.key_store.public_key kid

    unfoldable pub key_func : Header → Action W PublicKey
    unfolding kid_key
    key_func h =
        if not h.is_rsa then fail (plain "unexpected signing method: %v") else kid_key h.kid

    pub parser_options : ParserOptions W
    parser_options = record {
      issuer = v.issuer;
      audience = v.audience;
      valid_methods = "RS256" ∷ [];
      time_func = rt.now;
      expiration_required = true;
    }

    require_sid : Claims → Result Claims
    require_sid c =
        if str_eq c.session_id ""
        then err (wrap "missing sid claim" (sentinel unauthorized))
        else ok c

    accept : Bool → Parsed → Option Error → Result Claims
    unfolding require_sid
    accept ignore_expiry p none = require_sid p.claims
    accept ignore_expiry p (some e) =
        if ignore_expiry && (only_expired_error e && p.has_token)
        then require_sid p.claims
        else err (wrap "invalid access token" e)

    unfoldable pub parse_token : String → Bool → Action W Claims
    unfolding accept parser_options
    parse_token token_string ignore_expiry w =
        let (p, w') = lib.parse_with_claims token_string key_func parser_options w in
        (accept ignore_expiry p p.error, w')

    unfoldable pub validate_access_token : String → Action W Claims
    unfolding parse_token
    validate_access_token token_string = parse_token token_string false

    unfoldable pub validate_ignore_expiry : String → Action W Claims
    unfolding parse_token
    validate_ignore_expiry token_string = parse_token token_string true
