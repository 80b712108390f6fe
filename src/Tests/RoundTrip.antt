-- ===== src/Tests/RoundTrip.antt =====
-- A token of a small JWT library, minted and validated with the keys of the store in memory.
use realtime_messaging_platf.Prelude.{
  ◌/◌, ◌*◌, ◌<◌, ◌∙◌, sym, ap, Bool-cases, inl, inr, eq_refl, ◌≡◌, refl, Bool, true, false, ◌&&◌,
  String, str_eq, eq_iff, lookup, List, [], ◌∷◌, some, none, if◌then◌else◌, ◌==◌, arith, ltb,
}
use mathlib.Core.Path.{subst}
use realtime_messaging_platf.Domain.Constants.{second, hour}
use realtime_messaging_platf.Domain.Errors.{
  jwt, plain, token_malformed, token_unverifiable, token_expired,
}
use realtime_messaging_platf.Effect.{Result, ok, err, Action}
use realtime_messaging_platf.Auth.Runtime.{Runtime}
use realtime_messaging_platf.Auth.Keys.{
  StaticKeyStore, new_static_key_store, static_signing_key, static_public_key, static_key_store,
  add_public_key,
}
use realtime_messaging_platf.Auth.Tokens.{
  Claims, Header, Parsed, ParserOptions, JwtLibrary, Minter, Validator, mint_access_token,
  validate_access_token,
}
use realtime_messaging_platf.Auth.Tokens.RoundTrip.{
  has, JwtContract, validate_access_token-mint_access_token,
}

abbrev pub Store : Type 0
Store = StaticKeyStore Unit Unit

abbrev pub runtime : Runtime Store
runtime = record {
  now = λ w. (7, w);
  new_uuid = λ w. ("jti-1", w);
  rand_int = λ max w. (ok 123456, w);
  rand_read = λ n w. (ok [], w);
  sha256_hex = λ m. m;
  hmac_sha256_hex = λ key m. m;
  raw_url_encode = λ b. "r-new";
  format_rfc3339 = λ t. "2026-01-01T00:00:00Z";
  parse_rfc3339 = λ t. ok 1000;
}

abbrev pub claims : Claims
claims = record {
  subject = "u-1";
  issuer = "messaging-platform";
  audience = "messaging-api" ∷ [];
  issued_at = 0;
  expires_at = 3_600_000_000_000;
  id = "jti-1";
  session_id = "s-1";
  scope = "messaging";
}

abbrev pub is_api : List String → Bool
is_api [] = false
is_api (a ∷ []) = str_eq a "messaging-api"
is_api (a ∷ b ∷ rest) = false

is_api-eq : (l : List String) → is_api l ≡ true → l ≡ "messaging-api" ∷ []
is_api-eq [] h = absurd (ground arith)
is_api-eq (a ∷ []) h = ground (arith, eq_iff a "messaging-api")
is_api-eq (a ∷ b ∷ rest) h = absurd (ground arith)

abbrev pub is_claims : Claims → Bool
is_claims c =
    str_eq c.subject "u-1"
    && (str_eq c.issuer "messaging-platform"
        && (is_api c.audience
            && (c.issued_at == 0
                && (c.expires_at == 3_600_000_000_000
                    && (str_eq c.id "jti-1"
                        && (str_eq c.session_id "s-1" && str_eq c.scope "messaging"))))))

is_claims-eq : (c : Claims) → is_claims c ≡ true → c ≡ claims
is_claims-eq c h = ground (
  arith,
  eq_iff c.subject "u-1",
  eq_iff c.issuer "messaging-platform",
  is_api-eq c.audience,
  eq_iff c.id "jti-1",
  eq_iff c.session_id "s-1",
  eq_iff c.scope "messaging",
)

abbrev pub fault : Bool → Bool → Bool → Parsed
fault audience issuer fresh = record {
  claims = claims;
  has_token = true;
  error = if audience && (issuer && fresh) then none else some (jwt token_expired);
}

abbrev pub checked : ParserOptions Store → Result Unit × Store → Parsed × Store
checked o (err e, v) =
    (record { claims = claims; has_token = true; error = some (jwt token_unverifiable) }, v)
checked o (ok k, v) =
    let (t, v') = o.time_func v in
    (
      fault (has o.audience ("messaging-api" ∷ [])) (str_eq o.issuer "messaging-platform")
          (ltb t 3_600_000_000_000),
      v',
    )

-- A library that signs one token.
abbrev pub library : JwtLibrary Store Unit Unit
library = record {
  numeric_date = λ t. t / second * second;
  sign = λ k kid c w. (
    if str_eq kid "dev-key-001" && is_claims c then ok "signed" else err (plain "not this one"),
    w,
  );
  parse_with_claims = λ token kf o v.
      if str_eq token "signed"
      then checked o (kf (record { is_rsa = true; kid = some "dev-key-001" }) v)
      else (record { claims = claims; has_token = false; error = some (jwt token_malformed) }, v);
}

signed :
    (kid : String) (c : Claims) (w w' : Store) (token : String)
    → library.sign tt kid c w ≡ (ok token, w')
    → (kid ≡ "dev-key-001") × (c ≡ claims) × (token ≡ "signed")
signed kid c w w' token s = elim (Bool-cases (str_eq kid "dev-key-001" && is_claims c)) [
  | inl fits ↦
      (ground (arith, eq_iff kid "dev-key-001"), is_claims-eq c (ground arith), ground arith)
  | inr fails ↦ absurd (ground arith)
]

parse-signed :
    (kf : Header → Action Store Unit) (o : ParserOptions Store) (v v1 : Store)
    → kf (record { is_rsa = true; kid = some "dev-key-001" }) v ≡ (ok tt, v1)
    → o.issuer ≡ "messaging-platform"
    → has o.audience ("messaging-api" ∷ []) ≡ true
    → (o.time_func v1).0 < 3_600_000_000_000
    → library.parse_with_claims "signed" kf o v
      ≡ (record { claims = claims; has_token = true; error = none }, (o.time_func v1).1)
parse-signed kf o v v1 k iss aud time =
    rw k (ground (arith, eq_iff o.issuer "messaging-platform", eq_refl "signed"))

pub library-parse-sign :
    (kid : String) (c : Claims) (w w' : Store) (token : String)
    → library.sign tt kid c w ≡ (ok token, w')
    → (kf : Header → Action Store Unit) (o : ParserOptions Store) (v v1 : Store)
    → kf (record { is_rsa = true; kid = some kid }) v ≡ (ok tt, v1)
    → o.issuer ≡ c.issuer
    → has o.audience c.audience ≡ true
    → (o.time_func v1).0 < c.expires_at
    → library.parse_with_claims token kf o v
      ≡ (record { claims = c; has_token = true; error = none }, (o.time_func v1).1)
library-parse-sign kid c w w' token s kf o v v1 k iss aud time =
    let (kid_is, c_is, token_is) = signed kid c w w' token s in
    subst
      (λ (t : String).
        library.parse_with_claims t kf o v
        ≡ (record { claims = c; has_token = true; error = none }, (o.time_func v1).1))
      (sym token_is)
      (subst
        (λ (d : Claims).
          library.parse_with_claims "signed" kf o v
          ≡ (record { claims = d; has_token = true; error = none }, (o.time_func v1).1))
        (sym c_is)
        (parse-signed kf o v v1 (rw kid_is at k) (iss ∙ ap (λ (d : Claims). d.issuer) c_is)
          (subst (λ (d : Claims). has o.audience d.audience ≡ true) c_is aud)
          (subst (λ (d : Claims). (o.time_func v1).0 < d.expires_at) c_is time)))

abbrev pub contract : JwtContract library (λ k. k)
contract = record {
  parse-sign = λ key kid c w w' token s kf o v v1 k methods iss aud time.
      library-parse-sign kid c w w' token s kf o v v1 k iss aud time;
}

abbrev store : Store
store = add_public_key "old-key" tt (new_static_key_store (λ k. k) tt "dev-key-001")

abbrev minter : Minter Store Unit Unit
minter = record {
  key_store = static_key_store (λ w. w);
  access_ttl = hour;
  issuer = "messaging-platform";
  audience = "messaging-api";
}

abbrev validator : Validator Store Unit Unit
validator = record {
  key_store = static_key_store (λ w. w);
  issuer = "messaging-platform";
  audience = "messaging-api";
}

validate_access_token-mint_access_token_example :
    (c : Claims) × (validate_access_token runtime library validator "signed" store ≡ (ok c, store))
    × (c.subject ≡ "u-1")
    × (c.session_id ≡ "s-1")
    × (c.id ≡ "jti-1")
    × (c.scope ≡ "messaging")
unfolding new_static_key_store add_public_key static_key_store static_signing_key static_public_key
    mint_access_token lookup
validate_access_token-mint_access_token_example =
    validate_access_token-mint_access_token runtime library (λ k. k) contract minter validator "u-1"
      "s-1" store store (record { token = "signed"; jti = "jti-1"; expires_at = 3_600_000_000_007 })
      tt "dev-key-001" store store refl refl (ground (arith, eq_iff "dev-key-001" ""))
      (ground (arith, eq_iff "s-1" "")) refl refl refl (omega arith)
