-- ===== src/Chatmgmt/Adapter/Transactor/Rows.antt =====
-- What the transactions and the store rely on of the table of one-time passwords.
use realtime_messaging_platf.Prelude.{
  ◌≡◌, ◌≢◌, Bool, true, false, String, str_eq, ◌⊎◌, Option, none, some, List, [], ◌∷◌,
}
use realtime_messaging_platf.Domain.Errors.{Error, is, already_exists}
use realtime_messaging_platf.Effect.{ok, err}
use realtime_messaging_platf.Dynamo.{
  text, UpdateItemInput, TransactWriteItem, update_item, put_item,
}
use realtime_messaging_platf.Chatmgmt.App.{OtpRecord, OtpStore}
use realtime_messaging_platf.Chatmgmt.Adapter.Transactor.{Transactor}

abbrev pub is_pending : Option OtpRecord → Bool
is_pending none = false
is_pending (some r) = str_eq r.status "pending"

-- The update that turns a pending row with this expiry and this MAC into a verified one.
abbrev pub verify_update : {W : Type 0} → Transactor W → String → String → String → UpdateItemInput
verify_update t phone_hash expires_at mac = record {
  table_name = t.otp_table;
  key = ("phone_hash", text phone_hash) ∷ [];
  update_expression = "SET #st = :verified";
  condition_expression = "#st = :pending AND expires_at = :ea AND otp_mac = :mac";
  expression_attribute_names = ("#st", "status") ∷ [];
  expression_attribute_values =
      (":verified", text "verified")
      ∷ (":pending", text "pending")
      ∷ (":ea", text expires_at)
      ∷ (":mac", text mac)
      ∷ [];
}

-- Items that are put into the tables of users and of sessions.
abbrev pub Puts : {W : Type 0} → Transactor W → List TransactWriteItem → Type 0
Puts t [] = Unit
Puts t (update_item u ∷ rest) = ⊥
Puts t (put_item p ∷ rest) =
    ((p.table_name ≡ t.users_table) ⊎ (p.table_name ≡ t.sessions_table)) × Puts t rest

-- What the table of one-time passwords does under the calls of its store and under transactions
-- that update the row of one phone with `verify_update` and put items into the other two tables,
-- as the database documents it. A transaction that is carried out found the update's condition to
-- hold and has made the change; one that fails, or whose answer is lost, has made all of its changes
-- or none. Each call touches the row of one phone.
pub record RowContract {W : Type 0} (store : OtpStore W) (t : Transactor W) : Type 0 where
  pub stored : W → String → Option OtpRecord
  pub transact_ok :
      (phone_hash expires_at mac : String) (rest : List TransactWriteItem) (w w' : W)
      → Puts t rest
      → t.db.transact_write_items (update_item (verify_update t phone_hash expires_at mac) ∷ rest) w
        ≡ (ok tt, w')
      → (r : OtpRecord) × (stored w phone_hash ≡ some r)
        × (r.status ≡ "pending")
        × (r.expires_at ≡ expires_at)
        × (r.otp_mac ≡ mac)
        × (stored w' phone_hash ≡ some (record r { status = "verified" }))
  pub transact_others :
      (phone_hash expires_at mac h : String) (rest : List TransactWriteItem) (w : W)
      → Puts t rest
      → phone_hash ≢ h
      → stored
          (t.db.transact_write_items
            (update_item (verify_update t phone_hash expires_at mac) ∷ rest)
            w).1
          h
        ≡ stored w h
  pub transact_failed :
      (phone_hash expires_at mac h : String) (rest : List TransactWriteItem) (w w' : W) (e : Error)
      → Puts t rest
      → t.db.transact_write_items (update_item (verify_update t phone_hash expires_at mac) ∷ rest) w
        ≡ (err e, w')
      → (stored w' h ≡ stored w h) ⊎ (is_pending (stored w' h) ≡ false)
  pub create_others :
      (r : OtpRecord) (h : String) (w : W)
      → r.phone_hash ≢ h
      → stored (store.create_otp r w).1 h ≡ stored w h
  pub create_refused :
      (r : OtpRecord) (h : String) (w w' : W) (e : Error)
      → store.create_otp r w ≡ (err e, w')
      → is e already_exists ≡ true
      → stored w' h ≡ stored w h
  pub increment_keeps :
      (phone_hash h : String) (w : W)
      → is_pending (stored (store.increment_attempts phone_hash w).1 h) ≡ is_pending (stored w h)
