-- ===== src/Chatmgmt/Adapter/Redis/Revoked.antt =====
-- A revoked token is reported as revoked, also when Redis fails.
use Prim.Native.String.{◌++◌}
use realtime_messaging_platf.Prelude.{ℕ, ◌*◌, ◌<◌, ◌≡◌, refl, Bool, true, String, arith}
use realtime_messaging_platf.Domain.Constants.{second}
use realtime_messaging_platf.Effect.{Result, ok, err}
use realtime_messaging_platf.Chatmgmt.Adapter.Redis.{
  Commands, Cmdable, revoke, is_revoked, check_lockout, set_lockout, exists_verdict,
  revoked_jti_prefix, revoked_jti_ttl,
}

-- What the two stores rely on of the server, as long as no lifetime ends.
pub record KeyContract {D W : Type 0} (cmd : Cmdable D W) : Type 0 where
  pub present : W → String → Bool
  pub set_ok :
      (k v : String) (ttl : ℕ) (w w' : W) → cmd.set k v ttl w ≡ (ok tt, w') → present w' k ≡ true
  pub exists_ok :
      (k : String) (w w' : W) (n : ℕ) → cmd.exists k w ≡ (ok n, w') → present w k ≡ true → 0 < n

module _ {D W : Type 0} (server : Commands D) (cmd : Cmdable D W) (c : KeyContract cmd) where
  set_exists :
      (l k v : String) (ttl : ℕ) (w w' : W) (r : Result ℕ)
      → (cmd.exists k w').0 ≡ r
      → cmd.set k v ttl w ≡ (ok tt, w')
      → (exists_verdict l r).0 ≡ true
  unfolding exists_verdict
  set_exists l k v ttl w w' (err e) p h = refl
  set_exists l k v ttl w w' (ok n) p h =
      ground
        (arith, c.exists_ok k w' (cmd.exists k w').1 n (ground arith) (c.set_ok k v ttl w w' h))

  pub revoke-reported :
      (jti : String) (w w' : W)
      → revoke server cmd jti w ≡ (ok tt, w')
      → (is_revoked server cmd jti w').0.0 ≡ true
  unfolding revoke is_revoked
  revoke-reported jti w w' h =
      set_exists "check revocation %q" (revoked_jti_prefix ++ jti) "1" revoked_jti_ttl w w'
        (cmd.exists (revoked_jti_prefix ++ jti) w').0 refl (ground arith)

  -- After a revocation that succeeded the id is reported as revoked, and after a lockout that was
  -- set the key is reported as locked, whether Redis answers the question or fails, as long as
  -- their lifetimes last.
  pub revoke-is_revoked :
      (jti key : String) (seconds : ℕ) (w w' v v' : W)
      → revoke server cmd jti w ≡ (ok tt, w')
      → set_lockout server cmd key seconds v ≡ (ok tt, v')
      → ((is_revoked server cmd jti w').0.0 ≡ true) × ((check_lockout server cmd key v').0.0 ≡ true)
  unfolding set_lockout check_lockout
  revoke-is_revoked jti key seconds w w' v v' h g = (
    revoke-reported jti w w' h,
    set_exists "lockout check %q" key "1" (seconds * second) v v' (cmd.exists key v').0 refl
        (ground arith),
  )
