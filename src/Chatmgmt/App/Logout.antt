-- ===== src/Chatmgmt/App/Logout.antt =====
-- internal/chatmgmt/app/auth_logout.go.
use realtime_messaging_platf.Prelude.{◌≡◌, refl, String, arith}
use realtime_messaging_platf.Effect.{Result, ok, err, Action, label, attempt, ◌>>=◌, ◌>>◌}
use realtime_messaging_platf.Auth.Tokens.{Claims, validate_access_token}
use realtime_messaging_platf.Chatmgmt.App.{AuthService}
use realtime_messaging_platf.Chatmgmt.App.RefreshTokens.{unauthorized_by}

module _ {W K P : Type 0} (s : AuthService W K P) where
  access_claims : String → Action W Claims
  access_claims access_token w =
      let (r, w') = validate_access_token s.runtime s.jwt_library s.validator access_token w in
      (unauthorized_by r, w')

  -- A failure to delete is logged.
  unfoldable pub logout : String → Action W Unit
  unfolding access_claims
  logout access_token = do
    claims ← access_claims access_token
    attempt (s.session_store.delete claims.session_id)
    label "revoke JTI" (s.revocation_store.revoke claims.id)

  -- A logout that succeeds had a fully valid token, asked for its session to be deleted, and
  -- revoked its id with success, in that order and with nothing after.
  pub logout-ok :
      (access_token : String) (w w' : W)
      → logout access_token w ≡ (ok tt, w')
      → (claims : Claims) × (w1 : W) × (validate_access_token s.runtime s.jwt_library s.validator
            access_token w
          ≡ (ok claims, w1))
        × (s.revocation_store.revoke claims.id (s.session_store.delete claims.session_id w1).1
            ≡ (ok tt, w'))
  unfolding logout
  logout-ok access_token w w' h =
      go (validate_access_token s.runtime s.jwt_library s.validator access_token w).0 refl
    where
      w1 : W
      w1 = (validate_access_token s.runtime s.jwt_library s.validator access_token w).1

      go :
          (r : Result Claims)
          → (validate_access_token s.runtime s.jwt_library s.validator access_token w).0 ≡ r
          → (claims : Claims) × (w1 : W) × (validate_access_token s.runtime s.jwt_library
                s.validator access_token w
              ≡ (ok claims, w1))
            × (s.revocation_store.revoke claims.id (s.session_store.delete claims.session_id w1).1
                ≡ (ok tt, w'))
      go (ok c) e = (c, w1, ground arith, ground arith)
      go (err x) e = absurd (ground arith)
