-- ===== src/Chatmgmt/Adapter/Otps/Kept.antt =====
-- What is written to the table of one-time passwords is what is read from it.
use realtime_messaging_platf.Prelude.{
  ℕ, ◌≡◌, refl, ap, sym, true, false, String, str_eq, eq_iff, Bool-cases, inl, inr, Option, some,
  if◌then◌else◌, arith, [], ◌∷◌,
}
use realtime_messaging_platf.Domain.Errors.{Error, sentinel, wrap, is, already_exists}
use realtime_messaging_platf.Effect.{Result, ok, err}
use realtime_messaging_platf.Auth.Runtime.{Runtime}
use realtime_messaging_platf.Dynamo.{
  AttributeMap, text, Client, Codec, PutItemInput, GetItemInput, is_conditional_check_failed,
}
use realtime_messaging_platf.Chatmgmt.App.{OtpRecord}
use realtime_messaging_platf.Chatmgmt.Adapter.Otps.{
  OtpItem, to_otp_item, from_otp_item, written, put_request, put_marshalled, create_otp,
  get_request, read_item, get_otp,
}

-- What the store relies on of the database, in one table whose key is the phone hash, and of the
-- conversion of structs. `key_of` is the key attribute of an item.
pub record TableContract {W : Type 0} (db : Client W) (codec : Codec OtpItem) (table_name : String)
    : Type 0 where
  pub item_at : W → String → Option AttributeMap
  pub key_of : AttributeMap → String
  pub put_ok :
      (request : PutItemInput) (w w' : W) (h : String)
      → request.table_name ≡ table_name
      → db.put_item request w ≡ (ok tt, w')
      → item_at w' h ≡ (if str_eq (key_of request.item) h then some request.item else item_at w h)
  pub get_ok :
      (request : GetItemInput) (w w' : W) (h : String) (m : Option AttributeMap)
      → request.table_name ≡ table_name
      → request.key ≡ ("phone_hash", text h) ∷ []
      → request.consistent_read ≡ true
      → db.get_item request w ≡ (ok m, w')
      → m ≡ item_at w h
  pub marshalled :
      (item : OtpItem) (m : AttributeMap)
      → codec.marshal_map item ≡ ok m
      → (codec.unmarshal_map m ≡ ok item) × (key_of m ≡ item.phone_hash)

module _ {W : Type 0} (rt : Runtime W) (db : Client W) (codec : Codec OtpItem)
    (table_name : String) where
  -- A write that the database refuses comes back as ErrAlreadyExists exactly when its condition
  -- failed, where the database's own error is no ErrAlreadyExists.
  pub create_otp-refused :
      (r : OtpRecord) (w w1 w2 : W) (m : AttributeMap) (now : ℕ) (e : Error)
      → codec.marshal_map (to_otp_item r) ≡ ok m
      → rt.now w ≡ (now, w1)
      → db.put_item (put_request rt db codec table_name m now) w1 ≡ (err e, w2)
      → is e already_exists ≡ false
      → (e' : Error) × (create_otp rt db codec table_name r w ≡ (err e', w2))
        × (is e' already_exists ≡ is_conditional_check_failed e)
  unfolding create_otp put_marshalled written is
  create_otp-refused r w w1 w2 m now e h n p a = elim (Bool-cases (is_conditional_check_failed e)) [
    | inl failed ↦
        (wrap "otp store: create otp" (sentinel already_exists), ground arith, sym failed)
    | inr other ↦ (wrap "otp store: create otp" e, ground arith, ground arith)
  ]

module _ {W : Type 0} (rt : Runtime W) (db : Client W) (codec : Codec OtpItem) (table_name : String)
    (c : TableContract db codec table_name) where
  pub written_ok : (r : Result Unit) → written r ≡ ok tt → r ≡ ok tt
  unfolding written
  written_ok (ok u) h = h
  written_ok (err e) h = absurd (ground arith)

  create-Stored :
      (r : OtpRecord) (w w' : W) (m : Result AttributeMap)
      → codec.marshal_map (to_otp_item r) ≡ m
      → create_otp rt db codec table_name r w ≡ (ok tt, w')
      → read_item rt db codec table_name (c.item_at w' r.phone_hash) ≡ ok r
  unfolding create_otp put_marshalled put_request read_item to_otp_item from_otp_item
  create-Stored r w w' (err e) h g = absurd (ground arith)
  create-Stored r w w' (ok m) h g =
      let (now, w1) = rt.now w in
      let request = put_request rt db codec table_name m now in
      let back = c.marshalled (to_otp_item r) m h in
      let put : db.put_item request w1 ≡ (ok tt, w') =
        ground (arith, written_ok (db.put_item request w1).0) in
      let at : c.item_at w' r.phone_hash ≡ some m = ground (
        arith,
        c.put_ok request w1 w' r.phone_hash refl put,
        back.1,
        eq_iff (c.key_of m) r.phone_hash,
      ) in
      ground (arith, at, back.0)

  -- A record that was created is the record that is read under its phone hash next, whenever the
  -- database answers the read.
  pub create_otp-get_otp :
      (r : OtpRecord) (w w' w2 : W) (found : Option AttributeMap)
      → create_otp rt db codec table_name r w ≡ (ok tt, w')
      → db.get_item (get_request rt db codec table_name r.phone_hash) w' ≡ (ok found, w2)
      → get_otp rt db codec table_name r.phone_hash w' ≡ (ok r, w2)
  unfolding get_otp get_request
  create_otp-get_otp r w w' w2 found g f =
      let at = create-Stored r w w' (codec.marshal_map (to_otp_item r)) refl g in
      let same =
        c.get_ok (get_request rt db codec table_name r.phone_hash) w' w2 r.phone_hash found refl
          refl refl f in
      let read = ap (read_item rt db codec table_name) same in ground (arith, read, at)
