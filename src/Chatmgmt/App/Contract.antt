-- ===== src/Chatmgmt/App/Contract.antt =====
-- What the flows of internal/chatmgmt/app rely on of the stores, the limiter and the goroutines,
-- as observations of the world and laws about them. An operation that fails is trusted to have
-- changed nothing only where its error says so.
use realtime_messaging_platf.Prelude.{
  ℕ, ◌≡◌, true, false, Bool, String, str_eq, Option, some, List, [], ◌∷◌, length, filter, All,
  if◌then◌else◌,
}
use realtime_messaging_platf.Domain.Errors.{Error, is, already_exists}
use realtime_messaging_platf.Effect.{ok, err}
use realtime_messaging_platf.Auth.Tokens.{Claims}
use realtime_messaging_platf.Chatmgmt.App.{
  AuthService, OtpStore, OtpRecord, SessionRecord, SessionUpdate,
}

-- The call leaves an observation of the world as it was.
abbrev pub Keeps : {W A X : Type 0} → (W → X) → (W → A × W) → Type 0
Keeps {W = W} observe m = (w : W) → observe (m w).1 ≡ observe w

-- The one-time passwords in the table, by phone hash.
pub record OtpContract {W : Type 0} (store : OtpStore W) : Type 0 where
  pub stored : W → String → Option OtpRecord
  pub create_ok :
      (r : OtpRecord) (w w' : W) (h : String)
      → store.create_otp r w ≡ (ok tt, w')
      → stored w' h ≡ (if str_eq r.phone_hash h then some r else stored w h)
  pub create_refused :
      (r : OtpRecord) (w w' : W) (e : Error)
      → store.create_otp r w ≡ (err e, w')
      → is e already_exists ≡ true
      → stored w' ≡ stored w
  pub get_ok :
      (h : String) (w w' : W) (r : OtpRecord) → store.get_otp h w ≡ (ok r, w') → stored w h ≡ some r
  pub get_keeps : (h : String) → Keeps stored (store.get_otp h)

-- The text messages whose delivery was started, the last one first.
pub record Delivery {W K P : Type 0} (s : AuthService W K P) : Type 0 where
  pub outbox : W → List (String × String)
  pub sends :
      (phone otp : String) (w : W) → outbox (s.go_send_otp phone otp w) ≡ (phone, otp) ∷ outbox w
  pub check_keeps :
      (k : String) (limit window : ℕ)
      → Keeps outbox (s.rate_limiter.check_and_increment k limit window)
  pub rand_keeps : (max : ℕ) → Keeps outbox (s.runtime.rand_int max)
  pub now_keeps : Keeps outbox s.runtime.now
  pub create_keeps : (r : OtpRecord) → Keeps outbox (s.otp_store.create_otp r)
  pub get_keeps : (h : String) → Keeps outbox (s.otp_store.get_otp h)

-- The sessions in the table, by id. Eviction deletes and revokes; nothing else is called between.
pub record EvictionContract {W K P : Type 0} (s : AuthService W K P) : Type 0 where
  pub present : W → String → Bool
  pub delete_ok :
      (id : String) (w w' : W) (j : String)
      → s.session_store.delete id w ≡ (ok tt, w')
      → present w' j ≡ (if str_eq id j then false else present w j)
  pub revoke_keeps : (jti : String) → Keeps present (s.revocation_store.revoke jti)

-- sort.Slice: a rearrangement, which has as many elements of every kind as the list, and in which,
-- for a strict weak order, no element is less than one before it.
abbrev pub InOrder : {A : Type 0} → (A → A → Bool) → List A → Type 0
InOrder less [] = Unit
InOrder less (x ∷ xs) = All (λ y. less y x ≡ false) xs × InOrder less xs

pub record SortContract {A : Type 0} (sort : (A → A → Bool) → List A → List A) : Type 0 where
  pub rearranges :
      (less : A → A → Bool) (p : A → Bool) (xs : List A)
      → length (filter p (sort less xs)) ≡ length (filter p xs)
  pub in_order :
      (less : A → A → Bool) (xs : List A)
      → ((x y : A) → less x y ≡ true → less y x ≡ false)
      → ((x y z : A) → less x y ≡ false → less y z ≡ false → less x z ≡ false)
      → InOrder less (sort less xs)

-- The row after an update: five attributes change.
abbrev pub updated : SessionUpdate → SessionRecord → SessionRecord
updated u r = record r {
  refresh_token_hash = u.refresh_token_hash;
  prev_token_hash = u.prev_token_hash;
  expires_at = u.expires_at;
  token_generation = u.token_generation;
  ttl = u.ttl;
}

-- The sessions by id, under the calls of a rotation.
pub record RotationContract {W K P : Type 0} (s : AuthService W K P) : Type 0 where
  pub session_at : W → String → Option SessionRecord
  pub get_ok :
      (id : String) (w w' : W) (r : SessionRecord)
      → s.session_store.get_by_id id w ≡ (ok r, w')
      → session_at w id ≡ some r
  pub get_keeps : (id : String) → Keeps session_at (s.session_store.get_by_id id)
  pub update_ok :
      (id : String) (u : SessionUpdate) (w w' : W) (r : SessionRecord)
      → s.session_store.update id u w ≡ (ok tt, w')
      → session_at w id ≡ some r
      → session_at w' id ≡ some (updated u r)
  pub read_keeps : (n : ℕ) → Keeps session_at (s.runtime.rand_read n)
  pub now_keeps : Keeps session_at s.runtime.now
  pub uuid_keeps : Keeps session_at s.runtime.new_uuid
  pub key_keeps : Keeps session_at s.minter.key_store.signing_key
  pub sign_keeps :
      (k : K) (kid : String) (c : Claims) → Keeps session_at (s.jwt_library.sign k kid c)
