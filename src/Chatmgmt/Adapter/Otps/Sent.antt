-- ===== src/Chatmgmt/Adapter/Otps/Sent.antt =====
-- The flow of a request over the store of one-time passwords in DynamoDB.
use realtime_messaging_platf.Prelude.{
  ◌≡◌, refl, ap, sym, ◌∙◌, true, false, String, str_eq, Bool-cases, inl, inr, ◌⊎◌, Option, none,
  some, if◌then◌else◌, arith, ◌∷◌,
}
use realtime_messaging_platf.Domain.Errors.{Error, is, already_exists}
use realtime_messaging_platf.Effect.{Result, ok, err}
use realtime_messaging_platf.Auth.Runtime.{Runtime}
use realtime_messaging_platf.Auth.Otp.{hash_phone, verify_otp_mac}
use realtime_messaging_platf.Dynamo.{
  AttributeMap, Client, Codec, PutItemInput, GetItemInput, is_conditional_check_failed,
}
use realtime_messaging_platf.Chatmgmt.App.{AuthService, OtpRecord, RequestOtpResult}
use realtime_messaging_platf.Chatmgmt.App.Contract.{OtpContract, Delivery}
use realtime_messaging_platf.Chatmgmt.App.RequestOtp.{request_otp}
use realtime_messaging_platf.Chatmgmt.App.RequestOtp.Delivery.{request_otp-Sent}
use realtime_messaging_platf.Chatmgmt.Adapter.Otps.{
  OtpItem, to_otp_item, from_otp_item, written, put_request, put_marshalled, create_otp,
  get_request, read_item, get_otp, otp_store,
}
use realtime_messaging_platf.Chatmgmt.Adapter.Otps.Kept.{TableContract, written_ok}

-- What more the flow relies on: a read and the clock leave the table alone, and so does a write
-- whose condition failed. The database's own errors are no ErrAlreadyExists.
pub record QuietContract {W : Type 0} (rt : Runtime W) (db : Client W) (codec : Codec OtpItem)
    (table_name : String) (c : TableContract db codec table_name) : Type 0 where
  pub now_keeps : (w : W) → c.item_at (rt.now w).1 ≡ c.item_at w
  pub get_keeps :
      (request : GetItemInput) (w : W) → c.item_at (db.get_item request w).1 ≡ c.item_at w
  pub put_refused :
      (request : PutItemInput) (w w' : W) (e : Error)
      → db.put_item request w ≡ (err e, w')
      → is_conditional_check_failed e ≡ true
      → c.item_at w' ≡ c.item_at w
  pub put_error :
      (request : PutItemInput) (w w' : W) (e : Error)
      → db.put_item request w ≡ (err e, w')
      → is e already_exists ≡ false

abbrev pub option_of : Result OtpRecord → Option OtpRecord
option_of (ok r) = some r
option_of (err e) = none

module _ {W : Type 0} (rt : Runtime W) (db : Client W) (codec : Codec OtpItem) (table_name : String)
    (c : TableContract db codec table_name) (q : QuietContract rt db codec table_name c) where
  abbrev pub row : W → String → Option OtpRecord
  row w h = option_of (read_item rt db codec table_name (c.item_at w h))

  row_cong : (w w' : W) → c.item_at w' ≡ c.item_at w → row w' ≡ row w
  row_cong w w' e = λ i h. option_of (read_item rt db codec table_name (e i h))

  create_otp-row :
      (r : OtpRecord) (w w' : W) (h : String) (m : Result AttributeMap)
      → codec.marshal_map (to_otp_item r) ≡ m
      → create_otp rt db codec table_name r w ≡ (ok tt, w')
      → row w' h ≡ (if str_eq r.phone_hash h then some r else row w h)
  unfolding create_otp put_marshalled put_request read_item to_otp_item from_otp_item
  create_otp-row r w w' h (err e) n g = absurd (ground arith)
  create_otp-row r w w' h (ok m) n g =
      let (now, w1) = rt.now w in
      let request = put_request rt db codec table_name m now in
      let back = c.marshalled (to_otp_item r) m n in
      let put : db.put_item request w1 ≡ (ok tt, w') =
        ground (arith, written_ok rt db codec table_name c (db.put_item request w1).0) in
      let at = c.put_ok request w1 w' h refl put in
      let same = ap (λ (f : String → Option AttributeMap). f h) (q.now_keeps w) in
      elim (Bool-cases (str_eq r.phone_hash h)) [
        | inl own ↦
            let key : str_eq (c.key_of m) h ≡ true = rw back.1 own in
            let found : c.item_at w' h ≡ some m = ground (arith, at, key) in
            ground (arith, found, back.0, own)
        | inr other ↦
            let key : str_eq (c.key_of m) h ≡ false = rw back.1 other in
            let kept : c.item_at w' h ≡ c.item_at w h = ground (arith, at, key, same) in
            ground (arith, kept, other)
      ]

  put-row_refused :
      (request : PutItemInput) (w w' : W) (e : Error) (put : Result Unit)
      → db.put_item request w ≡ (put, w')
      → written put ≡ err e
      → is e already_exists ≡ true
      → c.item_at w' ≡ c.item_at w
  unfolding written is
  put-row_refused request w w' e (ok u) g n a = absurd (ground arith)
  put-row_refused request w w' e (err x) g n a = elim (Bool-cases (is_conditional_check_failed x)) [
    | inl failed ↦ q.put_refused request w w' x g failed
    | inr other ↦ absurd (ground (arith, q.put_error request w w' x g))
  ]

  create_otp-row_refused :
      (r : OtpRecord) (w w' : W) (e : Error) (m : Result AttributeMap)
      → codec.marshal_map (to_otp_item r) ≡ m
      → create_otp rt db codec table_name r w ≡ (err e, w')
      → is e already_exists ≡ true
      → c.item_at w' ≡ c.item_at w
  unfolding create_otp put_marshalled written is
  create_otp-row_refused r w w' e (err x) n g a = ground arith
  create_otp-row_refused r w w' e (ok m) n g a =
      let (now, w1) = rt.now w in
      let (put, w2) = db.put_item (put_request rt db codec table_name m now) w1 in
      let last : w2 ≡ w' = ground arith in
      ap c.item_at (sym last)
      ∙ put-row_refused (put_request rt db codec table_name m now) w1 w2 e put refl (ground arith) a
      ∙ q.now_keeps w

  get_otp-row_of :
      (h : String) (w w' : W) (r : OtpRecord) (found : Result (Option AttributeMap))
      → (db.get_item (get_request rt db codec table_name h) w).0 ≡ found
      → get_otp rt db codec table_name h w ≡ (ok r, w')
      → row w h ≡ some r
  unfolding get_otp get_request
  get_otp-row_of h w w' r (err e) f g = absurd (ground arith)
  get_otp-row_of h w w' r (ok m) f g =
      let request = get_request rt db codec table_name h in
      let w1 = (db.get_item request w).1 in
      let at = c.get_ok request w w1 h m refl refl refl (ground arith) in
      let read : read_item rt db codec table_name m ≡ ok r = ground arith in
      ground (arith, at, read)

  get_otp-row :
      (h : String) (w w' : W) (r : OtpRecord)
      → get_otp rt db codec table_name h w ≡ (ok r, w')
      → row w h ≡ some r
  get_otp-row h w w' r g =
      get_otp-row_of h w w' r (db.get_item (get_request rt db codec table_name h) w).0 refl g

  get_otp-keeps :
      (h : String) (w : W) → c.item_at (get_otp rt db codec table_name h w).1 ≡ c.item_at w
  unfolding get_otp
  get_otp-keeps h w = ground (arith, q.get_keeps (get_request rt db codec table_name h) w)

  -- The store meets what the flow of a request relies on.
  abbrev otp_contract : OtpContract (otp_store rt db codec table_name)
  unfolding otp_store
  otp_contract = record {
    stored = row;
    create_ok = λ r w w' h g. create_otp-row r w w' h (codec.marshal_map (to_otp_item r)) refl g;
    create_refused = λ r w w' e g a.
        row_cong w w'
          (create_otp-row_refused r w w' e (codec.marshal_map (to_otp_item r)) refl g a);
    get_ok = λ h w w' r g. get_otp-row h w w' r g;
    get_keeps = λ h w. row_cong w (get_otp rt db codec table_name h w).1 (get_otp-keeps h w);
  }

  option_of-some : (r : Result OtpRecord) (o : OtpRecord) → option_of r ≡ some o → r ≡ ok o
  option_of-some (ok x) o h = ground arith
  option_of-some (err e) o h = absurd (ground arith)

  get_otp_of_row :
      (h : String) (w w2 : W) (o : OtpRecord) (found : Option AttributeMap)
      → row w h ≡ some o
      → db.get_item (get_request rt db codec table_name h) w ≡ (ok found, w2)
      → get_otp rt db codec table_name h w ≡ (ok o, w2)
  unfolding get_otp get_request
  get_otp_of_row h w w2 o found at g =
      let same = c.get_ok (get_request rt db codec table_name h) w w2 h found refl refl refl g in
      let read = option_of-some (read_item rt db codec table_name found) o (
        ap (λ (x : Option AttributeMap). option_of (read_item rt db codec table_name x)) same
        ∙ at) in
      ground (arith, read)

module _ {W K P : Type 0} (s0 : AuthService W K P) (db : Client W) (codec : Codec OtpItem)
    (table_name : String) (c : TableContract db codec table_name)
    (q : QuietContract s0.runtime db codec table_name c) where
  -- The service with the store in DynamoDB.
  abbrev pub stored_service : AuthService W K P
  stored_service = record s0 { otp_store = otp_store s0.runtime db codec table_name }

  module _ (d : Delivery stored_service)
      (sent_keeps : (phone otp : String) (w : W)
        → c.item_at (s0.go_send_otp phone otp w) ≡ c.item_at w) where
    -- With the store in DynamoDB, a successful request starts no text message, or exactly one, to
    -- the phone of the request; and then the store, read next at a moment when the database
    -- answers, gives a pending record without failed attempts against which the sent code verifies, with
    -- the expiry that the answer promises.
    pub request_otp-get_otp :
        (phone client_ip : String) (w w' w2 : W) (r : RequestOtpResult)
        (found : Option AttributeMap)
        → request_otp stored_service phone client_ip w ≡ (ok r, w')
        → db.get_item (get_request s0.runtime db codec table_name (hash_phone s0.runtime phone)) w'
          ≡ (ok found, w2)
        → (d.outbox w' ≡ d.outbox w)
          ⊎ ((otp : String) × (d.outbox w' ≡ (phone, otp) ∷ d.outbox w)
              × ((o : OtpRecord) × (get_otp s0.runtime db codec table_name
                      (hash_phone s0.runtime phone)
                      w'
                    ≡ (ok o, w2))
                  × (o.status ≡ "pending")
                  × (o.attempt_count ≡ 0)
                  × (verify_otp_mac s0.runtime s0.pepper otp
                        (hash_phone s0.runtime phone)
                        o.expires_at
                        o.otp_mac
                      ≡ true)
                  × (o.expires_at ≡ s0.runtime.format_rfc3339 r.expires_at)))
    unfolding otp_contract
    request_otp-get_otp phone client_ip w w' w2 r found h g =
        elim (request_otp-Sent stored_service (otp_contract s0.runtime db codec table_name c q) d
          (λ p otp v.
            row_cong s0.runtime db codec table_name c q v (s0.go_send_otp p otp v)
              (sent_keeps p otp v))
          phone client_ip w w' r h) [
            | inl quiet ↦ inl quiet
            | inr (otp, out, (o, at, pending, attempts, right, until)) ↦ inr (
              otp,
              out,
              (
                o,
                get_otp_of_row s0.runtime db codec table_name c q (hash_phone s0.runtime phone) w'
                    w2 o found at g,
                pending,
                attempts,
                right,
                until,
              ),
            )
          ]
