-- ===== src/Chatmgmt/App/Login/Limit.antt =====
-- The session limit and the device binding after the two eviction loops of a login.
use realtime_messaging_platf.Prelude.{
  ℕ, zero, suc, ◌+◌, ◌-◌, ◌<◌, ◌≡◌, refl, Bool, true, false, not, ◌&&◌, ◌||◌, String, str_eq,
  eq_iff, List, [], ◌∷◌, length, take, drop, filter, All, arith, length-append, length-drop,
  length-filter-le, filter-append, take-append-drop, ap, All-map, All-drop, str_ltb, str_ltb-asym,
  str_ltb-negtrans, Bool-cases, inl, inr, ltb, length-filter_all, length-filter_none,
  length-filter-filter,
}
use realtime_messaging_platf.Effect.{Result, ok, err}
use realtime_messaging_platf.Chatmgmt.App.{
  AuthService, SessionRecord, OtpRecord, UserRecord, VerifyOtpResult,
}
use realtime_messaging_platf.Chatmgmt.App.Contract.{EvictionContract, SortContract, InOrder}
use realtime_messaging_platf.Chatmgmt.App.Login.{
  evict_conflicting_sessions, evict_each, active_sessions, oldest_sessions, enforce_session_limit,
  older, verify_otp_existing_user, create_login_session,
}
use realtime_messaging_platf.Chatmgmt.App.Login.Evictions.{
  has_id, has_id_on, evict_each-present, evict_conflicting_sessions-present,
}

All-has_id :
    (ys xs : List SessionRecord)
    → ((id : String) → has_id xs id ≡ true → has_id ys id ≡ true)
    → All (λ x. has_id ys x.session_id ≡ true) xs
All-has_id ys [] h = tt
All-has_id ys (x ∷ xs) h = (
  h x.session_id (ground (arith, eq_iff x.session_id x.session_id)),
  All-has_id ys xs (λ id k. h id (ground arith)),
)

All-has_id_on :
    (device_id : String) (ys xs : List SessionRecord)
    → ((id : String) → has_id_on xs device_id id ≡ true → has_id_on ys device_id id ≡ true)
    → All
        (λ x. (not (str_eq x.device_id device_id) || has_id_on ys device_id x.session_id) ≡ true)
        xs
All-has_id_on device_id ys [] h = tt
All-has_id_on device_id ys (x ∷ xs) h = (
  ground (arith, h x.session_id, eq_iff x.session_id x.session_id),
  All-has_id_on device_id ys xs (λ id k. h id (ground arith)),
)

InOrder-take-drop :
    {A : Type 0} (less : A → A → Bool) (n : ℕ) (xs : List A)
    → InOrder less xs
    → All (λ x. All (λ y. less y x ≡ false) (drop n xs)) (take n xs)
InOrder-take-drop less zero xs h = tt
InOrder-take-drop less (suc n) [] h = tt
InOrder-take-drop less (suc n) (x ∷ xs) h = (All-drop _ n xs h.0, InOrder-take-drop less n xs h.1)

module _ {W K P : Type 0} (s : AuthService W K P) (sorts : SortContract s.sort_slice) where
  -- No session that stays was created before one that the limit removes: the sorted list less its
  -- first sessions stays, and those are removed.
  pub oldest_sessions-oldest :
      (active : List SessionRecord)
      → All
          (λ gone.
            All
              (λ kept. str_ltb kept.created_at gone.created_at ≡ false)
              (drop (length active - 5 + 1) (s.sort_slice older active)))
          (oldest_sessions s active)
  unfolding oldest_sessions older
  oldest_sessions-oldest active =
      InOrder-take-drop older (length active - 5 + 1) (s.sort_slice older active) (
        sorts.in_order older active (λ x y. str_ltb-asym x.created_at y.created_at)
          (λ x y z. str_ltb-negtrans x.created_at y.created_at z.created_at))

  module _ (c : EvictionContract s) where
    abbrev pub live : W → SessionRecord → Bool
    live w x = c.present w x.session_id

    evict_each-gone :
        (xs : List SessionRecord) (w w' : W)
        → evict_each s xs w ≡ (ok tt, w')
        → All (λ x. live w' x ≡ false) xs
    evict_each-gone xs w w' e =
        All-map {P = λ x. has_id xs x.session_id ≡ true} {Q = λ x. live w' x ≡ false} xs
          (λ x k. ground (arith, evict_each-present s c xs w w' x.session_id e))
          (All-has_id xs xs (λ _ k. k))

    enforce_session_limit-length :
        (xs : List SessionRecord) (device_id : String) (w w' : W)
        → enforce_session_limit s xs device_id w ≡ (ok tt, w')
        → length (filter (live w') (active_sessions xs device_id)) < 5
    unfolding enforce_session_limit
    enforce_session_limit-length xs device_id w w' h =
        let active = active_sessions xs device_id in
        let sorted = s.sort_slice older active in
        let n = length active - 5 + 1 in
        elim (Bool-cases (ltb (length active) 5)) [
          | inl small ↦ ground (arith, length-filter-le (live w') active)
          | inr big ↦
              let e : evict_each s (take n sorted) w ≡ (ok tt, w') = ground arith in
              let gone : length (filter (live w') (take n sorted)) ≡ 0 =
                length-filter_none (live w') (take n sorted)
                  (evict_each-gone (take n sorted) w w' e) in
              ground (
                arith,
                gone,
                sorts.rearranges older (live w') active,
                sorts.rearranges older (λ _. true) active,
                length-filter_all active,
                length-filter_all sorted,
                ap (λ (l : List SessionRecord). length (filter (live w') l))
                    (take-append-drop n sorted),
                filter-append (live w') (take n sorted) (drop n sorted),
                length-append (filter (live w') (take n sorted)) (filter (live w') (drop n sorted)),
                length-filter-le (live w') (drop n sorted),
                length-drop n sorted,
              )
        ]

    -- The sessions on the device are gone after the first loop, and stay gone.
    evict_conflicting_sessions-gone :
        (xs : List SessionRecord) (device_id : String) (w w' : W)
        → evict_conflicting_sessions s xs device_id w ≡ (ok tt, w')
        → All (λ x. (str_eq x.device_id device_id && live w' x) ≡ false) xs
    evict_conflicting_sessions-gone xs device_id w w' e =
        All-map
          {P = λ x.
            (not (str_eq x.device_id device_id) || has_id_on xs device_id x.session_id) ≡ true}
          {Q = λ x. (str_eq x.device_id device_id && live w' x) ≡ false} xs
          (λ x k.
            ground (arith, evict_conflicting_sessions-present s c xs device_id w w' x.session_id e))
          (All-has_id_on device_id xs xs (λ _ k. k))

    enforce_session_limit-stays :
        (xs : List SessionRecord) (device_id id : String) (w w' : W)
        → enforce_session_limit s xs device_id w ≡ (ok tt, w')
        → c.present w id ≡ false
        → c.present w' id ≡ false
    unfolding enforce_session_limit
    enforce_session_limit-stays xs device_id id w w' h k = ground (
      arith,
      evict_each-present s c
          (take (length (active_sessions xs device_id) - 5 + 1)
            (s.sort_slice older (active_sessions xs device_id)))
          w w' id,
    )

    loops-gone :
        (xs : List SessionRecord) (device_id : String) (w w1 w2 : W)
        → evict_conflicting_sessions s xs device_id w ≡ (ok tt, w1)
        → enforce_session_limit s xs device_id w1 ≡ (ok tt, w2)
        → All (λ x. (str_eq x.device_id device_id && live w2 x) ≡ false) xs
    loops-gone xs device_id w w1 w2 e1 e2 =
        All-map {P = λ x. (str_eq x.device_id device_id && live w1 x) ≡ false}
          {Q = λ x. (str_eq x.device_id device_id && live w2 x) ≡ false} xs
          (λ x k. ground (arith, enforce_session_limit-stays xs device_id x.session_id w1 w2 e2))
          (evict_conflicting_sessions-gone xs device_id w w1 e1)

    loops-length :
        (xs : List SessionRecord) (device_id : String) (w w1 w2 : W)
        → evict_conflicting_sessions s xs device_id w ≡ (ok tt, w1)
        → enforce_session_limit s xs device_id w1 ≡ (ok tt, w2)
        → length (filter (live w2) xs) < 5
    loops-length xs device_id w w1 w2 e1 e2 =
        let off = λ (x : SessionRecord). not (str_eq x.device_id device_id) in
        omega (
          arith,
          enforce_session_limit-length xs device_id w1 w2 e2,
          length-filter-filter off (live w2) xs (
              All-map {P = λ x. (str_eq x.device_id device_id && live w2 x) ≡ false}
                {Q = λ x. (not (off x) && live w2 x) ≡ false} xs (λ x k. ground arith)
                (loops-gone xs device_id w w1 w2 e1 e2)),
        )

    -- The user's sessions, and the world in which the login creates its own.
    abbrev pub Fits : String → OtpRecord → UserRecord → String → W → W → VerifyOtpResult → Type 0
    Fits phone_hash r user device_id w w' res =
        (sessions : List SessionRecord) × (w1 : W) × ((s.session_store.list_by_user user.user_id
            w).0
          ≡ ok sessions)
        × (length (filter (live w1) sessions) < 5)
        × All (λ x. (str_eq x.device_id device_id && live w1 x) ≡ false) sessions
        × (create_login_session s phone_hash r user device_id w1 ≡ (ok res, w'))

    Fits-listed :
        (phone_hash : String) (r : OtpRecord) (user : UserRecord) (device_id : String) (w w' : W)
        (res : VerifyOtpResult) (l : Result (List SessionRecord))
        → (s.session_store.list_by_user user.user_id w).0 ≡ l
        → verify_otp_existing_user s phone_hash r user device_id w ≡ (ok res, w')
        → Fits phone_hash r user device_id w w' res
    unfolding verify_otp_existing_user
    Fits-listed phone_hash r user device_id w w' res (err x) e h = absurd (ground arith)
    Fits-listed phone_hash r user device_id w w' res (ok xs) e h =
        let w0 = (s.session_store.list_by_user user.user_id w).1 in
        let w1 = (evict_conflicting_sessions s xs device_id w0).1 in
        let w2 = (enforce_session_limit s xs device_id w1).1 in
        let e1 : evict_conflicting_sessions s xs device_id w0 ≡ (ok tt, w1) = ground arith in
        let e2 : enforce_session_limit s xs device_id w1 ≡ (ok tt, w2) = ground arith in
        (
          xs,
          w2,
          e,
          loops-length xs device_id w0 w1 w2 e1 e2,
          loops-gone xs device_id w0 w1 w2 e1 e2,
          ground arith,
        )

    -- When a login succeeds, fewer than five of the sessions that were listed for the user were
    -- left, and none of them on the device of the login, in the world where the new session was
    -- created.
    pub verify_otp_existing_user-Fits :
        (phone_hash : String) (r : OtpRecord) (user : UserRecord) (device_id : String) (w w' : W)
        (res : VerifyOtpResult)
        → verify_otp_existing_user s phone_hash r user device_id w ≡ (ok res, w')
        → Fits phone_hash r user device_id w w' res
    verify_otp_existing_user-Fits phone_hash r user device_id w w' res h =
        Fits-listed phone_hash r user device_id w w' res
          (s.session_store.list_by_user user.user_id w).0 refl h
