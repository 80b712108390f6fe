-- ===== src/Chatmgmt/Adapter/Transactor/SingleUse.antt =====
-- Any number of flows at once on the table of one-time passwords: what the condition of the
-- transactions is for. Between two calls on the table a flow may wait for as long as it likes, so
-- the calls of all flows stand in any order.
use realtime_messaging_platf.Prelude.{
  ℕ, ◌+◌, ◌≤◌, ◌≡◌, refl, ap, Bool, true, false, ◌&&◌, not, String, str_eq, eq_iff, Bool-cases, inl,
  inr, Option, if◌then◌else◌, arith, List, [], ◌∷◌,
}
use realtime_messaging_platf.Domain.Errors.{is, already_exists}
use realtime_messaging_platf.Effect.{Result, ok, err}
use realtime_messaging_platf.Dynamo.{TransactWriteItem}
use realtime_messaging_platf.Chatmgmt.App.{OtpRecord, OtpStore, RegistrationParams, LoginParams}
use realtime_messaging_platf.Chatmgmt.Adapter.Transactor.{
  Transactor, build_otp_verify_update, build_user_put, build_phone_sentinel_put, build_session_put,
  registration_items, login_items, verify_otp_and_create_user, verify_otp_and_create_session,
  classified,
}
use realtime_messaging_platf.Chatmgmt.Adapter.Transactor.Rows.{is_pending, Puts, RowContract}

abbrev pub is_done : Result Unit → Bool
is_done (ok _) = true
is_done (err _) = false

pub is_done-classified : (op : String) (r : Result Unit) → is_done (classified op r) ≡ is_done r
unfolding classified
is_done-classified op (ok u) = refl
is_done-classified op (err e) = refl

-- A creation whose answer was lost counts as one.
abbrev pub may_be_written : Result Unit → Bool
may_be_written (ok _) = true
may_be_written (err e) = not (is e already_exists)

abbrev pub count_if : Bool → ℕ
count_if b = if b then 1 else 0

module _ {W : Type 0} (store : OtpStore W) (t : Transactor W) (c : RowContract store t) where
  -- One call, with the number of verifications and of creations that it is for the phone.
  pub data Call (h : String) (w w' : W) : ℕ → ℕ → Type 0 where
    registers :
        (p : RegistrationParams) (r : Result Unit)
        → verify_otp_and_create_user t p w ≡ (r, w')
        → Call h w w' (count_if (str_eq p.phone_hash h && is_done r)) 0
    logs_in :
        (p : LoginParams) (r : Result Unit)
        → verify_otp_and_create_session t p w ≡ (r, w')
        → Call h w w' (count_if (str_eq p.phone_hash h && is_done r)) 0
    creates :
        (o : OtpRecord) (r : Result Unit)
        → store.create_otp o w ≡ (r, w')
        → Call h w w' 0 (count_if (str_eq o.phone_hash h && may_be_written r))
    increments :
        (phone_hash : String) (r : Result Unit)
        → store.increment_attempts phone_hash w ≡ (r, w')
        → Call h w w' 0 0
    -- A call of something else: a read, the clock, the sessions, the limiter.
    elsewhere : c.stored w' ≡ c.stored w → Call h w w' 0 0

  pub data Run (h : String) : W → W → ℕ → ℕ → Type 0 where
    done : {w : W} → Run h w w 0 0
    then_ :
        {w w1 w2 : W} {v v' n n' : ℕ}
        → Call h w w1 v n
        → Run h w1 w2 v' n'
        → Run h w w2 (v + v') (n + n')

  abbrev pub pending : String → W → ℕ
  pending h w = count_if (is_pending (c.stored w h))

  verified-pending :
      (h phone_hash expires_at mac : String) (rest : List TransactWriteItem) (w w' : W)
      (r : Result Unit)
      → Puts t rest
      → t.db.transact_write_items (build_otp_verify_update t phone_hash expires_at mac ∷ rest) w
        ≡ (r, w')
      → count_if (str_eq phone_hash h && is_done r) + pending h w' ≤ pending h w
  unfolding build_otp_verify_update
  verified-pending h phone_hash expires_at mac rest w w' (err x) sent e =
      elim (c.transact_failed phone_hash expires_at mac h rest w w' x sent e) [
        | inl same ↦ ground (arith, same)
        | inr over ↦ ground (arith, over)
      ]
  verified-pending h phone_hash expires_at mac rest w w' (ok u) sent e =
      let (o, at, was, _, _, at') = c.transact_ok phone_hash expires_at mac rest w w' sent e in
      elim (Bool-cases (str_eq phone_hash h)) [
        | inl same ↦
            let is_h : phone_hash ≡ h = (eq_iff phone_hash h).0 same in
            ground (
              arith,
              at,
              at',
              ap (c.stored w) is_h,
              ap (c.stored w') is_h,
              eq_iff o.status "pending",
              eq_iff "verified" "pending",
            )
        | inr other ↦
            let kept =
              c.transact_others phone_hash expires_at mac h rest w sent
                (λ is_h. absurd (ground (arith, eq_iff phone_hash h))) in
            ground (arith, kept, ap (λ (x : Result Unit × W). c.stored x.1 h) e)
      ]

  created_own-pending :
      (h : String) (o : OtpRecord) (r : Result Unit) (w w' : W)
      → str_eq o.phone_hash h ≡ true
      → store.create_otp o w ≡ (r, w')
      → pending h w' ≤ pending h w + count_if (str_eq o.phone_hash h && may_be_written r)
  created_own-pending h o (ok u) w w' same e = ground arith
  created_own-pending h o (err x) w w' same e = ground (arith, c.create_refused o h w w' x e)

  created-pending :
      (h : String) (o : OtpRecord) (r : Result Unit) (w w' : W)
      → store.create_otp o w ≡ (r, w')
      → pending h w' ≤ pending h w + count_if (str_eq o.phone_hash h && may_be_written r)
  created-pending h o r w w' e = elim (Bool-cases (str_eq o.phone_hash h)) [
    | inl same ↦ created_own-pending h o r w w' same e
    | inr other ↦
        let kept = c.create_others o h w (λ is_h. absurd (ground (arith, eq_iff o.phone_hash h))) in
        ground (arith, kept, ap (λ (x : Result Unit × W). c.stored x.1 h) e)
  ]

  -- A call pays for the verifications that it makes with rows that were pending or were created.
  Call-pending :
      (h : String) (w w' : W) (v n : ℕ) → Call h w w' v n → v + pending h w' ≤ pending h w + n
  unfolding verify_otp_and_create_user verify_otp_and_create_session registration_items login_items
      build_user_put build_phone_sentinel_put build_session_put
  Call-pending h w w' v n (registers p r e) =
      let items = registration_items t p in
      let (r0, w0) = t.db.transact_write_items items w in
      ground (
        arith,
        verified-pending h p.phone_hash p.otp_expires_at p.otp_mac
            (build_user_put t p.user_id p.phone_number p.now
              ∷ build_phone_sentinel_put t p.phone_number p.user_id
              ∷ build_session_put t p.session_id p.user_id p.device_id p.refresh_token_hash p.now
                  p.session_expires_at p.session_ttl
              ∷ [])
            w w0 r0 (inl refl, (inl refl, (inr refl, tt))) refl,
        is_done-classified "verify otp and create user" r0,
      )
  Call-pending h w w' v n (logs_in p r e) =
      let (r0, w0) = t.db.transact_write_items (login_items t p) w in
      ground (
        arith,
        verified-pending h p.phone_hash p.otp_expires_at p.otp_mac
            (build_session_put t p.session_id p.user_id p.device_id p.refresh_token_hash
                p.created_at p.session_expires_at p.session_ttl
              ∷ [])
            w w0 r0 (inr refl, tt) refl,
        is_done-classified "verify otp and create session" r0,
      )
  Call-pending h w w' v n (creates o r e) = omega (arith, created-pending h o r w w' e)
  Call-pending h w w' v n (increments phone_hash r e) = ground (
    arith,
    c.increment_keeps phone_hash h w,
    ap (λ (x : Result Unit × W). is_pending (c.stored x.1 h)) e,
  )
  Call-pending h w w' v n (elsewhere same) =
      ground (arith, ap (λ (f : String → Option OtpRecord). f h) same)

  Run-pending :
      (h : String) (w w' : W) (v n : ℕ) → Run h w w' v n → v + pending h w' ≤ pending h w + n
  Run-pending h w w' v n done = omega arith
  Run-pending h w w' v n (then_ {w1 = w1} {v = a} {v' = b} {n = k} {n' = l} one rest) =
      omega (arith, Call-pending h w w1 a k one, Run-pending h w1 w' b l rest)

  -- However the flows of any number of clients interleave, the table never carries out more
  -- verifications for a phone than there were creations of a code for it that were not refused
  -- with ErrAlreadyExists, one more if a code was pending at the start.
  pub Run-verified :
      (h : String) (w w' : W) (v n : ℕ)
      → Run h w w' v n
      → v ≤ count_if (is_pending (c.stored w h)) + n
  Run-verified h w w' v n run = omega (arith, Run-pending h w w' v n run)
