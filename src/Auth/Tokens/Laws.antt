-- ===== src/Auth/Tokens/Laws.antt =====
-- What a minted and a validated access token are.
use realtime_messaging_platf.Prelude.{
  ◌≡◌, ◌≢◌, Bool, true, false, String, eq_iff, ap, Option, none, some, arith, inl, inr, ◌⊎◌,
  Option-cases,
}
use realtime_messaging_platf.Domain.Errors.{
  Error, token_expired, token_signature_invalid, token_invalid_issuer, token_invalid_audience,
}
use realtime_messaging_platf.Effect.{Result, ok}
use realtime_messaging_platf.Auth.Runtime.{Runtime}
use realtime_messaging_platf.Auth.Tokens.{
  Claims, Header, JwtLibrary, Validator, Parsed, only_expired_error, key_func,
  validate_access_token, validate_ignore_expiry, accept, parser_options, is_jwt,
}

module _ {W PrivateKey PublicKey : Type 0} (rt : Runtime W)
    (lib : JwtLibrary W PrivateKey PublicKey) (v : Validator W PrivateKey PublicKey) where
  accept-sid :
      (b : Bool) (p : Parsed) (o : Option Error) (c : Claims)
      → accept rt lib v b p o ≡ ok c
      → (c ≡ p.claims) × (c.session_id ≢ "")
  unfolding accept
  accept-sid b p none c h = ground (arith, eq_iff p.claims.session_id "")
  accept-sid b p (some e) c h = ground (arith, eq_iff p.claims.session_id "")

  -- A token that passes the full validation passes the one that waives expiry, with the same
  -- claims and the same effects.
  pub validate_ignore_expiry-of_validate_access_token :
      (token : String) (w w' : W) (c : Claims)
      → validate_access_token rt lib v token w ≡ (ok c, w')
      → validate_ignore_expiry rt lib v token w ≡ (ok c, w')
  unfolding validate_access_token validate_ignore_expiry
  validate_ignore_expiry-of_validate_access_token token w w' c h = ground arith

  -- The key callback asks for a key under an RSA method and a non-empty key id only; otherwise it
  -- fails without touching the key store.
  pub key_func-ok :
      (h : Header) (w w' : W) (k : PublicKey)
      → key_func rt lib v h w ≡ (ok k, w')
      → (h.is_rsa ≡ true)
        × ((kid : String) × (h.kid ≡ some kid)
            × (kid ≢ "")
            × (v.key_store.public_key kid w ≡ (ok k, w')))
  unfolding key_func
  key_func-ok h w w' k e = elim (Option-cases h.kid) [
    | inl n ↦ ground arith
    | inr (kid, s) ↦
        (ground arith, (kid, s, ground (arith, eq_iff kid ""), ground (arith, eq_iff kid "")))
  ]

  accept-expired :
      (p : Parsed) (e : Error) (c : Claims)
      → accept rt lib v true p (some e) ≡ ok c
      → (p.has_token ≡ true)
        × (is_jwt e token_expired ≡ true)
        × (is_jwt e token_signature_invalid ≡ false)
        × (is_jwt e token_invalid_issuer ≡ false)
        × (is_jwt e token_invalid_audience ≡ false)
  unfolding accept only_expired_error
  accept-expired p e c h = ground arith

  -- Claims that the refresh flow accepts are those that the library read from the token, and name
  -- a session. The library found no fault with the token, or it gave the token back and its fault
  -- is expiry, while the signature, the issuer and the audience are not at fault.
  pub validate_ignore_expiry-ok :
      (token : String) (w w' : W) (c : Claims)
      → validate_ignore_expiry rt lib v token w ≡ (ok c, w')
      → (p : Parsed) × (lib.parse_with_claims token (key_func rt lib v) (parser_options rt lib v) w
          ≡ (p, w'))
        × (c ≡ p.claims)
        × (c.session_id ≢ "")
        × ((p.error ≡ none)
            ⊎ ((e : Error) × (p.error ≡ some e)
                × (p.has_token ≡ true)
                × (is_jwt e token_expired ≡ true)
                × (is_jwt e token_signature_invalid ≡ false)
                × (is_jwt e token_invalid_issuer ≡ false)
                × (is_jwt e token_invalid_audience ≡ false)))
  unfolding validate_ignore_expiry only_expired_error
  validate_ignore_expiry-ok token w w' c h =
      let (p, w1) = lib.parse_with_claims token (key_func rt lib v) (parser_options rt lib v) w in
      (
        p,
        ground arith,
        (accept-sid true p p.error c (ap (λ (x : Result Claims × W). x.0) h)).0,
        (accept-sid true p p.error c (ap (λ (x : Result Claims × W). x.0) h)).1,
        elim (Option-cases p.error) [
          | inl n ↦ inl n
          | inr (e, s) ↦
              let a = accept-expired p e c (rw s at (ap (λ (x : Result Claims × W). x.0) h)) in
              inr (e, s, a.0, a.1, a.2, a.3, a.4)
        ],
      )
