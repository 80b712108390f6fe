-- ===== src/Chatmgmt/Adapter/Redis/Window.antt =====
-- How many requests the limiter lets through in one window.
use realtime_messaging_platf.Prelude.{
  ℕ, ◌+◌, ◌-◌, ◌≤◌, ◌<◌, ◌≡◌, refl, ◌&&◌, ltb, String, str_eq, eq_iff, none, List, [], ◌∷◌,
  if◌then◌else◌, arith, ap, Bool-cases, inl, inr,
}
use realtime_messaging_platf.Effect.{Result, ok, err}
use realtime_messaging_platf.Chatmgmt.Adapter.Redis.{
  Commands, Cmdable, rate_limit_script, check_and_increment, count_verdict,
}

-- What the limiter relies on of the server within one window: the counts, 0 for an absent key. A
-- call that fails may have run the script or not, but loses no count.
pub record CountContract {D W : Type 0} (server : Commands D) (cmd : Cmdable D W) : Type 0 where
  pub count : D → String → ℕ
  pub data' : W → D
  pub incr_answer : (k : String) (d : D) → (server.incr k d).0 ≡ count d k + 1
  pub incr_count :
      (k j : String) (d : D)
      → count (server.incr k d).1 j ≡ (if str_eq k j then count d k + 1 else count d j)
  pub expire_keeps :
      (k j : String) (seconds : ℕ) (d : D)
      → 0 < seconds
      → count (server.expire k seconds d) j ≡ count d j
  pub eval_ok :
      (p : D → ℕ × D) (w w' : W) (n : ℕ)
      → cmd.eval p w ≡ (ok n, w')
      → (n ≡ (p (data' w)).0) × (data' w' ≡ (p (data' w)).1)
  pub eval_loses_nothing :
      (p : D → ℕ × D) (w : W) (k : String)
      → ((d : D) → count d k ≤ count (p d).1 k)
      → count (data' w) k ≤ count (data' (cmd.eval p w).1) k

module _ {D W : Type 0} (server : Commands D) (cmd : Cmdable D W) (limit window : ℕ) where
  -- The checks of a list of keys, one after the other: how many were allowed for the key `k`.
  abbrev pub allowed : String → List String → W → ℕ
  allowed k [] w = 0
  allowed k (key ∷ keys) w =
      let (v, w') = check_and_increment server cmd key limit window w in
      (if str_eq key k && v.0 then 1 else 0) + allowed k keys w'

  module _ (c : CountContract server cmd) (lasts : 0 < window) where
    script-count :
        (key k : String) (d : D)
        → ((rate_limit_script server cmd key window d).0 ≡ c.count d key + 1)
          × (c.count (rate_limit_script server cmd key window d).1 k
              ≡ (if str_eq key k then c.count d key + 1 else c.count d k))
    unfolding rate_limit_script
    script-count key k d = (
      ground (arith, c.incr_answer key d),
      ground (arith, c.incr_count key k d, c.expire_keeps key k window (server.incr key d).1 lasts),
    )

    script-grows :
        (key k : String) (d : D)
        → c.count d k ≤ c.count (rate_limit_script server cmd key window d).1 k
    script-grows key k d = ground (arith, (script-count key k d).1, eq_iff key k)

    -- One check moves the count of the key, and of no other, unless it fails.
    check-count :
        (key k : String) (w : W) (r : Result ℕ)
        → (cmd.eval (rate_limit_script server cmd key window) w).0 ≡ r
        → (if str_eq key k && (check_and_increment server cmd key limit window w).0.0 then 1 else 0)
            + (limit - c.count (c.data' (check_and_increment server cmd key limit window w).1) k)
          ≤ limit - c.count (c.data' w) k
    unfolding check_and_increment count_verdict
    check-count key k w (err e) h = ground (
      arith,
      c.eval_loses_nothing (rate_limit_script server cmd key window) w k (script-grows key k),
    )
    check-count key k w (ok n) h =
        let p = rate_limit_script server cmd key window in
        let d = c.data' w in
        let run = c.eval_ok p w (cmd.eval p w).1 n (ground arith) in
        let moved = ap (λ (x : D). c.count x k) run.1 in
        let counted = script-count key k d in
        elim (Bool-cases (str_eq key k)) [
          | inl same ↦
              let key_is : key ≡ k = (eq_iff key k).0 same in
              ground (arith, moved, run.0, counted.0, counted.1, ap (c.count d) key_is)
          | inr other ↦ ground (arith, moved, run.0, counted.0, counted.1)
        ]

    -- Whichever other keys are checked in between, and whichever checks fail, no more requests are
    -- allowed for a key in a window than its limit less the count that it had.
    pub allowed-le :
        (k : String) (keys : List String) (w : W) → allowed k keys w ≤ limit - c.count (c.data' w) k
    allowed-le k [] w = omega arith
    allowed-le k (key ∷ keys) w =
        let w' = (check_and_increment server cmd key limit window w).1 in
        ground (
          arith,
          allowed-le k keys w',
          check-count key k w (cmd.eval (rate_limit_script server cmd key window) w).0 refl,
        )

    -- A check that the server answers is allowed exactly when the count that the key had is below
    -- the limit.
    pub check_and_increment-answers :
        (key : String) (w w' : W) (n : ℕ)
        → cmd.eval (rate_limit_script server cmd key window) w ≡ (ok n, w')
        → check_and_increment server cmd key limit window w
          ≡ ((ltb (c.count (c.data' w) key) limit, none), w')
    unfolding check_and_increment count_verdict
    check_and_increment-answers key w w' n h =
        let e = c.eval_ok (rate_limit_script server cmd key window) w w' n h in
        ground (arith, e.0, (script-count key key (c.data' w)).0)
