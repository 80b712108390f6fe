-- ===== src/Tests/SingleUse.antt =====
-- A database that carries out the transactions of the service, and one login over it.
use Prim.Native.String.{◌++◌}
use realtime_messaging_platf.Prelude.{
  ◌+◌, ◌≤◌, ◌≡◌, ◌≢◌, inl, refl, ap, sym, Bool, true, false, not, ◌&&◌, ◌||◌, String, str_eq,
  eq_iff, eq_refl, Option, some, none, List, [], ◌∷◌, if◌then◌else◌, arith,
}
use realtime_messaging_platf.Domain.Errors.{
  Error, sentinel, already_exists, not_found, transaction_canceled,
}
use realtime_messaging_platf.Effect.{Result, ok, err}
use realtime_messaging_platf.Dynamo.{
  AttributeMap, PutItemInput, TransactWriteItem, update_item, put_item, text,
}
use realtime_messaging_platf.Chatmgmt.App.{OtpRecord, OtpStore, LoginParams}
use realtime_messaging_platf.Chatmgmt.Adapter.Transactor.{
  Transactor, verify_otp_and_create_session, login_items, build_otp_verify_update,
  build_session_put, classified,
}
use realtime_messaging_platf.Chatmgmt.Adapter.Transactor.Rows.{
  RowContract, Puts, verify_update, is_pending,
}
use realtime_messaging_platf.Chatmgmt.Adapter.Transactor.SingleUse.{
  Run, then_, done, creates, logs_in, count_if, Run-verified,
}
use realtime_messaging_platf.Tests.Tables.{text_of, key_of}

-- The rows of the one-time passwords by phone hash, and the items of the other tables by the table
-- and the key.
abbrev Rows : Type 0
Rows = (String → Option OtpRecord) × (String → Bool)

abbrev create_at : OtpRecord → Rows → Option OtpRecord → Result Unit × Rows
create_at r w none = (ok tt, (λ h. if str_eq r.phone_hash h then some r else w.0 h, w.1))
create_at r w (some _) = (err (sentinel already_exists), w)

abbrev bumped : Option OtpRecord → Option OtpRecord
bumped none = none
bumped (some r) = some (record r { attempt_count = r.attempt_count + 1 })

abbrev missing_or : Option OtpRecord → Result OtpRecord
missing_or none = err (sentinel not_found)
missing_or (some r) = ok r

abbrev store : OtpStore Rows
store = record {
  create_otp = λ r w. create_at r w (w.0 r.phone_hash);
  get_otp = λ h w. (missing_or (w.0 h), w);
  increment_attempts = λ h w. (ok tt, (λ j. if str_eq h j then bumped (w.0 j) else w.0 j, w.1));
}

abbrev values : AttributeMap → String × String
values (_ ∷ _ ∷ (_, ea) ∷ (_, mac) ∷ rest) = (text_of ea, text_of mac)
values _ = ("", "")

abbrev name : PutItemInput → String
name p = p.table_name ++ key_of p.item

-- The condition of the one update that is sent.
abbrev matches : Option OtpRecord → String × String → Bool
matches none v = false
matches (some r) v = str_eq r.status "pending" && (str_eq r.expires_at v.0 && str_eq r.otp_mac v.1)

abbrev holds : TransactWriteItem → Rows → Bool
holds (update_item u) w = matches (w.0 (key_of u.key)) (values u.expression_attribute_values)
holds (put_item p) w = not (w.1 (name p))

abbrev verified : Option OtpRecord → Option OtpRecord
verified none = none
verified (some r) = some (record r { status = "verified" })

abbrev carried : TransactWriteItem → Rows → Rows
carried (update_item u) w = (λ h. if str_eq (key_of u.key) h then verified (w.0 h) else w.0 h, w.1)
carried (put_item p) w = (w.0, λ j. str_eq (name p) j || w.1 j)

abbrev all_hold : List TransactWriteItem → Rows → Bool
all_hold [] w = true
all_hold (item ∷ items) w = holds item w && all_hold items w

abbrev carry : List TransactWriteItem → Rows → Rows
carry [] w = w
carry (item ∷ items) w = carry items (carried item w)

abbrev transact : List TransactWriteItem → Rows → Result Unit × Rows
transact items w =
    if all_hold items w
    then (ok tt, carry items w)
    else (err (transaction_canceled ("ConditionalCheckFailed" ∷ "None" ∷ [])), w)

abbrev transactor : Transactor Rows
transactor = record {
  db = record {
    get_item = λ request w. (ok none, w);
    put_item = λ request w. (ok tt, w);
    update_item = λ request w. (ok tt, w);
    query = λ request w. (ok [], w);
    delete_item = λ request w. (ok tt, w);
    transact_write_items = transact;
  };
  otp_table = "otp_requests";
  users_table = "users";
  sessions_table = "sessions";
  user_codec = record {
    marshal_map = λ u. ok (("user_id", text u.user_id) ∷ []);
    unmarshal_map = λ m. err (transaction_canceled []);
  };
  session_codec = record {
    marshal_map = λ s. ok (("session_id", text s.session_id) ∷ []);
    unmarshal_map = λ m. err (transaction_canceled []);
  };
}

carry-Puts :
    (rest : List TransactWriteItem) (w : Rows) → Puts transactor rest → (carry rest w).0 ≡ w.0
carry-Puts [] w p = refl
carry-Puts (update_item u ∷ rest) w p = absurd p
carry-Puts (put_item q ∷ rest) w (_, p) = carry-Puts rest (carried (put_item q) w) p

transact-ok :
    (h ea mac : String) (rest : List TransactWriteItem) (w w' : Rows) (o : Option OtpRecord)
    → Puts transactor rest
    → w.0 h ≡ o
    → transact (update_item (verify_update transactor h ea mac) ∷ rest) w ≡ (ok tt, w')
    → (r : OtpRecord) × (o ≡ some r)
      × (r.status ≡ "pending")
      × (r.expires_at ≡ ea)
      × (r.otp_mac ≡ mac)
      × (w'.0 h ≡ some (record r { status = "verified" }))
transact-ok h ea mac rest w w' none p at e = absurd (ground arith)
transact-ok h ea mac rest w w' (some r) p at e =
    let u = update_item (verify_update transactor h ea mac) in
    let kept = ap (λ (f : String → Option OtpRecord). f h) (carry-Puts rest (carried u w) p) in
    let row = ap (λ (x : Result Unit × Rows). x.1.0 h) e in
    (
      r,
      refl,
      ground (arith, eq_iff r.status "pending"),
      ground (arith, eq_iff r.expires_at ea),
      ground (arith, eq_iff r.otp_mac mac),
      ground (arith, kept, row, eq_refl h, at),
    )

transact-others :
    (h ea mac j : String) (rest : List TransactWriteItem) (w : Rows)
    → Puts transactor rest
    → h ≢ j
    → (transact (update_item (verify_update transactor h ea mac) ∷ rest) w).1.0 j ≡ w.0 j
transact-others h ea mac j rest w p ne =
    let u = update_item (verify_update transactor h ea mac) in
    let kept = ap (λ (f : String → Option OtpRecord). f j) (carry-Puts rest (carried u w) p) in
    ground (arith, kept, eq_iff h j)

transact-failed :
    (items : List TransactWriteItem) (w w' : Rows) (e : Error)
    → transact items w ≡ (err e, w')
    → w' ≡ w
transact-failed items w w' e h = ground arith

create-others :
    (r : OtpRecord) (h : String) (w : Rows) (o : Option OtpRecord)
    → r.phone_hash ≢ h
    → (create_at r w o).1.0 h ≡ w.0 h
create-others r h w none ne = ground (arith, eq_iff r.phone_hash h)
create-others r h w (some x) ne = refl

create-refused :
    (r : OtpRecord) (h : String) (w w' : Rows) (e : Error) (o : Option OtpRecord)
    → create_at r w o ≡ (err e, w')
    → w'.0 h ≡ w.0 h
create-refused r h w w' e none f = absurd (ground arith)
create-refused r h w w' e (some x) f = ap (λ (y : Result Unit × Rows). y.1.0 h) (sym f)

bumped-is_pending : (o : Option OtpRecord) → is_pending (bumped o) ≡ is_pending o
bumped-is_pending none = refl
bumped-is_pending (some r) = refl

increment-keeps :
    (p h : String) (w : Rows)
    → is_pending ((store.increment_attempts p w).1.0 h) ≡ is_pending (w.0 h)
increment-keeps p h w = ground (arith, bumped-is_pending (w.0 h))

abbrev contract : RowContract store transactor
contract = record {
  stored = λ w. w.0;
  transact_ok = λ h ea mac rest w w' p e. transact-ok h ea mac rest w w' (w.0 h) p refl e;
  transact_others = transact-others;
  transact_failed = λ h ea mac j rest w w' e p f. inl (
      ap (λ (x : Rows). x.0 j)
        (transact-failed (update_item (verify_update transactor h ea mac) ∷ rest) w w' e f));
  create_others = λ r h w ne. create-others r h w (w.0 r.phone_hash) ne;
  create_refused = λ r h w w' e f x. create-refused r h w w' e (w.0 r.phone_hash) f;
  increment_keeps = increment-keeps;
}

abbrev code : OtpRecord
code = record {
  phone_hash = "h";
  otp_mac = "m";
  otp_ciphertext = "c";
  created_at = "t";
  expires_at = "e";
  status = "pending";
  attempt_count = 0;
  ttl = 9;
}

abbrev login : LoginParams
login = record {
  phone_hash = "h";
  otp_expires_at = "e";
  otp_mac = "m";
  session_id = "s-1";
  user_id = "u-1";
  device_id = "d-1";
  refresh_token_hash = "r";
  created_at = "t";
  session_expires_at = "x";
  session_ttl = 10;
}

abbrev empty : Rows
empty = (λ h. none, λ j. false)

abbrev with_code : Rows
with_code = (store.create_otp code empty).1

abbrev end : Rows
end = (verify_otp_and_create_session transactor login with_code).1

-- A code is written and used, and the same login comes a second time.
run : Run store transactor contract "h" empty end 1 1
unfolding verify_otp_and_create_session login_items build_otp_verify_update build_session_put
run = then_ (creates code (ok tt) refl) (
    then_ (logs_in login (ok tt) refl) (
      then_
        (logs_in login
          (classified "verify otp and create session"
            (err (transaction_canceled ("ConditionalCheckFailed" ∷ "None" ∷ []))))
          refl)
        done))

Run-verified_example : 1 ≤ count_if (is_pending (empty.0 "h")) + 1
Run-verified_example = Run-verified store transactor contract "h" empty end 1 1 run
