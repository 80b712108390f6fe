-- ===== src/Chatmgmt/Adapter/Redis.antt =====
-- internal/chatmgmt/adapter/redis_ratelimit.go and redis_revocation.go. The client library and the
-- commands of the server are parameters; the script that the server runs is the repository's own.
pub mod Window
pub mod Revoked
pub mod Locked
use Prim.Native.String.{◌++◌}
use realtime_messaging_platf.Prelude.{
  ℕ, ◌*◌, Bool, true, false, ltb, leb, ◌==◌, String, Option, none, some, if◌then◌else◌,
}
use realtime_messaging_platf.Domain.Constants.{second}
use realtime_messaging_platf.Domain.Errors.{Error, wrap}
use realtime_messaging_platf.Effect.{Result, ok, err, Action, Verdict, label}
use realtime_messaging_platf.Chatmgmt.App.{RateLimiter, RevocationStore}

-- The commands that a script calls: INCR answers the new count, EXPIRE takes seconds.
pub record Commands (D : Type 0) : Type 0 where
  pub incr : String → D → ℕ × D
  pub expire : String → ℕ → D → D

-- redis.Cmdable: EVAL runs a script on the server in one step, EXISTS counts the keys that are
-- there, SET takes a lifetime in nanoseconds.
pub record Cmdable (D W : Type 0) : Type 0 where
  pub eval : (D → ℕ × D) → Action W ℕ
  pub exists : String → Action W ℕ
  pub set : String → String → ℕ → Action W Unit

abbrev pub revoked_jti_prefix : String
revoked_jti_prefix = "revoked_jti:"

abbrev pub revoked_jti_ttl : ℕ
revoked_jti_ttl = 3600 * second

-- On an error the request is refused.
unfoldable pub count_verdict : ℕ → Result ℕ → Verdict
count_verdict limit (err e) = (false, some (wrap "rate limit check %q" e))
count_verdict limit (ok count) = (leb count limit, none)

-- On an error the key counts as there.
unfoldable pub exists_verdict : String → Result ℕ → Verdict
exists_verdict l (err e) = (true, some (wrap l e))
exists_verdict l (ok result) = (ltb 0 result, none)

module _ {D W : Type 0} (server : Commands D) (cmd : Cmdable D W) where
  unfoldable pub rate_limit_script : String → ℕ → D → ℕ × D
  rate_limit_script key window_seconds d =
      let (count, d') = server.incr key d in
      if count == 1 then (count, server.expire key window_seconds d') else (count, d')

  unfoldable pub check_and_increment : String → ℕ → ℕ → W → Verdict × W
  check_and_increment key limit window_seconds w =
      let (r, w') = cmd.eval (rate_limit_script key window_seconds) w in (count_verdict limit r, w')

  unfoldable pub check_lockout : String → W → Verdict × W
  check_lockout key w = let (r, w') = cmd.exists key w in (exists_verdict "lockout check %q" r, w')

  unfoldable pub set_lockout : String → ℕ → Action W Unit
  set_lockout key ttl_seconds = label "set lockout %q" (cmd.set key "1" (ttl_seconds * second))

  unfoldable pub revoke : String → Action W Unit
  revoke jti = label "revoke JTI %q" (cmd.set (revoked_jti_prefix ++ jti) "1" revoked_jti_ttl)

  unfoldable pub is_revoked : String → W → Verdict × W
  is_revoked jti w =
      let (r, w') = cmd.exists (revoked_jti_prefix ++ jti) w in
      (exists_verdict "check revocation %q" r, w')

  unfoldable pub rate_limiter : RateLimiter W
  rate_limiter = record {
    check_and_increment = check_and_increment;
    check_lockout = check_lockout;
    set_lockout = set_lockout;
  }

  unfoldable pub revocation_store : RevocationStore W
  revocation_store = record { revoke = revoke; is_revoked = is_revoked }
