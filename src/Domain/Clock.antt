-- ===== src/Domain/Clock.antt =====
-- internal/domain/clock.go: times in milliseconds. The clock is that of the runtime, in nanoseconds
-- since the epoch.
use realtime_messaging_platf.Prelude.{ℕ, ◌+◌, ◌*◌, ◌≤◌, ◌<◌, ◌≡◌, arith}
use realtime_messaging_platf.Auth.Runtime.{Runtime, unix_milli}

unfoldable pub now_utc_millis : {W : Type 0} → Runtime W → W → ℕ × W
now_utc_millis rt w = let (now, w') = rt.now w in (unix_milli now, w')

unfoldable pub from_millis : ℕ → ℕ
from_millis ms = ms * 1_000_000

-- A number of milliseconds comes back from the time that it stands for.
pub unix_milli-from_millis : (ms : ℕ) → unix_milli (from_millis ms) ≡ ms
unfolding from_millis unix_milli
unix_milli-from_millis ms = omega arith

-- A time that is stored in milliseconds is read back as one that is not later, by less than a
-- millisecond.
pub from_millis-now_utc_millis :
    {W : Type 0} (rt : Runtime W) (w : W)
    → (from_millis (now_utc_millis rt w).0 ≤ (rt.now w).0)
      × ((rt.now w).0 < from_millis (now_utc_millis rt w).0 + 1_000_000)
unfolding from_millis now_utc_millis unix_milli
from_millis-now_utc_millis rt w = omega arith
