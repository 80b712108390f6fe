-- ===== src/Tests/OneUser.antt =====
-- A table of users that carries out transactions, and two registrations of one phone number.
use Prim.Native.String.{◌++◌}
use realtime_messaging_platf.Prelude.{
  ◌+◌, ◌≤◌, ◌≡◌, refl, ap, sym, ◌∙◌, Bool, true, false, ◌&&◌, ◌||◌, String, str_eq, eq_refl,
  Bool-cases, inl, inr, some, none, List, [], ◌∷◌, if◌then◌else◌, arith, lookup,
}
use mathlib.Core.List.{Memᴰ}
use realtime_messaging_platf.Domain.Errors.{transaction_canceled}
use realtime_messaging_platf.Effect.{Result, ok, err}
use realtime_messaging_platf.Dynamo.{text, PutItemInput, TransactWriteItem, update_item, put_item}
use realtime_messaging_platf.Chatmgmt.App.{RegistrationParams}
use realtime_messaging_platf.Chatmgmt.Adapter.Transactor.{
  Transactor, verify_otp_and_create_user, registration_items, build_otp_verify_update,
  build_user_put, build_phone_sentinel_put, build_session_put, classified,
}
use realtime_messaging_platf.Chatmgmt.Adapter.Transactor.SingleUse.{count_if}
use realtime_messaging_platf.Chatmgmt.Adapter.Transactor.OneUser.{
  UsersContract, Run, then_, done, registers, Run-registered,
}
use realtime_messaging_platf.Tests.OneTable.{text_at}

abbrev Users : Type 0
Users = String → Bool

abbrev names : TransactWriteItem → String → Bool
unfolding lookup
names (update_item u) j = false
names (put_item p) j = str_eq p.table_name "users" && str_eq (text_at (lookup "user_id" p.item)) j

abbrev blocked : TransactWriteItem → Users → Bool
unfolding lookup
blocked (update_item u) w = false
blocked (put_item p) w = str_eq p.table_name "users" && w (text_at (lookup "user_id" p.item))

abbrev any_blocked : List TransactWriteItem → Users → Bool
any_blocked [] w = false
any_blocked (item ∷ items) w = blocked item w || any_blocked items w

abbrev any_names : List TransactWriteItem → String → Bool
any_names [] j = false
any_names (item ∷ items) j = names item j || any_names items j

abbrev transact : List TransactWriteItem → Users → Result Unit × Users
transact items w =
    if any_blocked items w
    then (err (transaction_canceled ("None" ∷ "None" ∷ "ConditionalCheckFailed" ∷ [])), w)
    else (ok tt, λ j. w j || any_names items j)

abbrev transactor : Transactor Users
transactor = record {
  db = record {
    get_item = λ request w. (ok none, w);
    put_item = λ request w. (ok tt, w);
    update_item = λ request w. (ok tt, w);
    query = λ request w. (ok [], w);
    delete_item = λ request w. (ok tt, w);
    transact_write_items = transact;
  };
  otp_table = "otp_requests";
  users_table = "users";
  sessions_table = "sessions";
  user_codec = record {
    marshal_map = λ user. ok (("user_id", text user.user_id) ∷ []);
    unmarshal_map = λ m. err (transaction_canceled []);
  };
  session_codec = record {
    marshal_map = λ session. ok [];
    unmarshal_map = λ m. err (transaction_canceled []);
  };
}

Mem-free :
    (put : PutItemInput) (id : String) (items : List TransactWriteItem) (w : Users)
    → Memᴰ (put_item put) items
    → put.table_name ≡ "users"
    → lookup "user_id" put.item ≡ some (text id)
    → any_blocked items w ≡ false
    → (w id ≡ false) × (any_names items id ≡ true)
unfolding lookup names blocked
Mem-free put id [] w m named key free = elim m [ ]
Mem-free put id (item ∷ items) w (Memᴰ.head is_item) named key free =
    let blocks : blocked item w ≡ w id =
      ap (λ (i : TransactWriteItem). blocked i w) (sym is_item) ∙ rw (named, key) refl in
    let has_name : names item id ≡ true =
      ap (λ (i : TransactWriteItem). names i id) (sym is_item) ∙ rw (named, key) (eq_refl id) in
    (ground (arith, blocks), ground (arith, has_name))
Mem-free put id (item ∷ items) w (Memᴰ.tail rest) named key free =
    let (a, b) = Mem-free put id items w rest named key (ground arith) in (a, ground (arith, b))

transact-ok :
    (put : PutItemInput) (id : String) (items : List TransactWriteItem) (w w' : Users)
    → Memᴰ (put_item put) items
    → put.table_name ≡ "users"
    → lookup "user_id" put.item ≡ some (text id)
    → transact items w ≡ (ok tt, w')
    → (w id ≡ false) × (w' id ≡ true)
transact-ok put id items w w' m named key e = elim (Bool-cases (any_blocked items w)) [
  | inl b ↦ absurd (ground (arith, b))
  | inr free ↦
      let (a, n) = Mem-free put id items w m named key free in
      (a, ground (arith, free, n, ap (λ (x : Result Unit × Users). x.1 id) e))
]

transact-keeps :
    (items : List TransactWriteItem) (id : String) (w : Users)
    → w id ≡ true
    → (transact items w).1 id ≡ true
transact-keeps items id w h = ground arith

abbrev contract : UsersContract transactor
contract = record {
  has = λ w id. w id;
  put_ok = λ put id items w w' m named condition key e. transact-ok put id items w w' m named key e;
  removes_nothing = transact-keeps;
}

abbrev ann : String → RegistrationParams
ann user_id = record {
  phone_hash = "h";
  otp_expires_at = "e";
  otp_mac = "m";
  user_id = user_id;
  phone_number = "+15550001111";
  now = "t";
  session_id = "s-1";
  device_id = "d-1";
  refresh_token_hash = "r";
  session_expires_at = "x";
  session_ttl = 10;
}

abbrev nobody : Users
nobody = λ id. false

abbrev end : Users
end = (verify_otp_and_create_user transactor (ann "u-1") nobody).1

-- Two registrations of one phone number, of which the second comes too late.
run : Run transactor contract "+15550001111" nobody end 1
unfolding verify_otp_and_create_user registration_items build_otp_verify_update build_user_put
    build_phone_sentinel_put build_session_put lookup names blocked
run = then_ (registers (ann "u-1") (ok tt) refl) (
    then_
      (registers (ann "u-2")
        (classified "verify otp and create user"
          (err (transaction_canceled ("None" ∷ "None" ∷ "ConditionalCheckFailed" ∷ []))))
        refl)
      done)

Run-registered_example :
    (1 + count_if (nobody ("phone#" ++ "+15550001111"))
      ≤ count_if (end ("phone#" ++ "+15550001111")))
    × (count_if (end ("phone#" ++ "+15550001111")) ≤ 1)
Run-registered_example = Run-registered transactor contract "+15550001111" nobody end 1 run
