-- ===== src/Chatmgmt/Adapter/Transactor/OneUser.antt =====
-- Any number of registrations and logins at once on the table of users: what the phone sentinel is
-- for. Between two calls on the table a flow may wait for as long as it likes, so the calls of all
-- flows stand in any order.
use Prim.Native.String.{◌++◌}
use realtime_messaging_platf.Prelude.{
  ℕ, ◌+◌, ◌≤◌, ◌≡◌, refl, ap, Bool, true, false, ◌&&◌, String, str_eq, eq_iff, Bool-cases, inl, inr,
  some, arith, List, [], ◌∷◌, lookup,
}
use mathlib.Core.List.{Memᴰ}
use realtime_messaging_platf.Effect.{Result, ok, err}
use realtime_messaging_platf.Dynamo.{text, PutItemInput, TransactWriteItem, put_item}
use realtime_messaging_platf.Chatmgmt.App.{RegistrationParams, LoginParams}
use realtime_messaging_platf.Chatmgmt.Adapter.Transactor.{
  Transactor, build_phone_sentinel_put, registration_items, login_items, verify_otp_and_create_user,
  verify_otp_and_create_session,
}
use realtime_messaging_platf.Chatmgmt.Adapter.Transactor.SingleUse.{
  is_done, is_done-classified, count_if,
}

-- What the table of users does, as the database documents it. A transaction that is carried out
-- found the condition of each of its puts to hold, and has written its item. No transaction removes
-- an item.
pub record UsersContract {W : Type 0} (t : Transactor W) : Type 0 where
  pub has : W → String → Bool
  pub put_ok :
      (put : PutItemInput) (id : String) (items : List TransactWriteItem) (w w' : W)
      → Memᴰ (put_item put) items
      → put.table_name ≡ t.users_table
      → put.condition_expression ≡ "attribute_not_exists(user_id)"
      → lookup "user_id" put.item ≡ some (text id)
      → t.db.transact_write_items items w ≡ (ok tt, w')
      → (has w id ≡ false) × (has w' id ≡ true)
  pub removes_nothing :
      (items : List TransactWriteItem) (id : String) (w : W)
      → has w id ≡ true
      → has (t.db.transact_write_items items w).1 id ≡ true

count_if-le : (b : Bool) → count_if b ≤ 1
count_if-le true = omega arith
count_if-le false = omega arith

module _ {W : Type 0} (t : Transactor W) (c : UsersContract t) where
  -- One call, with the number of registrations of the phone that it carries out and reports.
  pub data Call (phone : String) (w w' : W) : ℕ → Type 0 where
    registers :
        (p : RegistrationParams) (r : Result Unit)
        → verify_otp_and_create_user t p w ≡ (r, w')
        → Call phone w w' (count_if (str_eq p.phone_number phone && is_done r))
    logs_in :
        (p : LoginParams) (r : Result Unit)
        → verify_otp_and_create_session t p w ≡ (r, w')
        → Call phone w w' 0
    -- A call that deletes no user: nothing of the service does.
    elsewhere : ((id : String) → c.has w id ≡ true → c.has w' id ≡ true) → Call phone w w' 0

  pub data Run (phone : String) : W → W → ℕ → Type 0 where
    done : {w : W} → Run phone w w 0
    then_ : {w w1 w2 : W} {n m : ℕ} → Call phone w w1 n → Run phone w1 w2 m → Run phone w w2 (n + m)

  abbrev pub taken : String → W → ℕ
  taken phone w = count_if (c.has w ("phone#" ++ phone))

  taken-le :
      (phone : String) (w w' : W)
      → (c.has w ("phone#" ++ phone) ≡ true → c.has w' ("phone#" ++ phone) ≡ true)
      → taken phone w ≤ taken phone w'
  taken-le phone w w' keeps = elim (Bool-cases (c.has w ("phone#" ++ phone))) [
    | inl is_in ↦ ground (arith, is_in, keeps is_in)
    | inr free ↦ ground (arith, free)
  ]

  kept :
      (items : List TransactWriteItem) (phone : String) (w : W)
      → taken phone w ≤ taken phone (t.db.transact_write_items items w).1
  kept items phone w =
      taken-le phone w (t.db.transact_write_items items w).1
        (c.removes_nothing items ("phone#" ++ phone) w)

  registered-taken :
      (p : RegistrationParams) (w w' : W)
      → t.db.transact_write_items (registration_items t p) w ≡ (ok tt, w')
      → (taken p.phone_number w ≡ 0) × (taken p.phone_number w' ≡ 1)
  unfolding registration_items build_phone_sentinel_put lookup
  registered-taken p w w' e =
      let put : PutItemInput = record {
        table_name = t.users_table;
        item =
            ("user_id", text ("phone#" ++ p.phone_number))
            ∷ ("phone_number", text p.phone_number)
            ∷ ("owner_id", text p.user_id)
            ∷ [];
        condition_expression = "attribute_not_exists(user_id)";
        expression_attribute_names = [];
        expression_attribute_values = [];
      } in
      let (free, full) =
        c.put_ok put ("phone#" ++ p.phone_number) (registration_items t p) w w'
          (Memᴰ.tail (Memᴰ.tail (Memᴰ.head refl))) refl refl refl e in
      (ground (arith, free), ground (arith, full))

  transacted-taken :
      (phone : String) (p : RegistrationParams) (w w' : W) (r : Result Unit)
      → t.db.transact_write_items (registration_items t p) w ≡ (r, w')
      → count_if (str_eq p.phone_number phone && is_done r) + taken phone w ≤ taken phone w'
  transacted-taken phone p w w' (err x) e = ground (arith, kept (registration_items t p) phone w)
  transacted-taken phone p w w' (ok u) e = elim (Bool-cases (str_eq p.phone_number phone)) [
    | inl same ↦
        let is_phone : p.phone_number ≡ phone = (eq_iff p.phone_number phone).0 same in
        let (free, full) = registered-taken p w w' e in
        omega (
          arith,
          ap (λ q. taken q w) is_phone,
          ap (λ q. taken q w') is_phone,
          free,
          full,
          ap (λ b. count_if (b && true)) same,
        )
    | inr other ↦ ground (arith, kept (registration_items t p) phone w, other)
  ]

  -- A registration that is carried out takes the phone's sentinel, which was free.
  Call-taken :
      (phone : String) (w w' : W) (n : ℕ) → Call phone w w' n → n + taken phone w ≤ taken phone w'
  unfolding verify_otp_and_create_user verify_otp_and_create_session
  Call-taken phone w w' n (registers p r e) =
      let (r0, w0) = t.db.transact_write_items (registration_items t p) w in
      ground (
        arith,
        transacted-taken phone p w w0 r0 refl,
        is_done-classified "verify otp and create user" r0,
      )
  Call-taken phone w w' n (logs_in p r e) =
      let w0 = (t.db.transact_write_items (login_items t p) w).1 in
      ground (
        arith,
        kept (login_items t p) phone w,
        ap (taken phone) (ap (λ (x : Result Unit × W). x.1) e),
      )
  Call-taken phone w w' n (elsewhere keeps) =
      omega (arith, taken-le phone w w' (keeps ("phone#" ++ phone)))

  Run-taken :
      (phone : String) (w w' : W) (n : ℕ) → Run phone w w' n → n + taken phone w ≤ taken phone w'
  Run-taken phone w w' n done = omega arith
  Run-taken phone w w' n (then_ {w1 = w1} {n = a} {m = b} one rest) =
      omega (arith, Call-taken phone w w1 a one, Run-taken phone w1 w' b rest)

  -- However the registrations and logins of any number of clients interleave, at most one
  -- registration of a phone number is carried out and answered as a success, and none if the
  -- phone's sentinel is in the table at the start; after one, the sentinel is in the table at the
  -- end.
  pub Run-registered :
      (phone : String) (w w' : W) (n : ℕ)
      → Run phone w w' n
      → (n + count_if (c.has w ("phone#" ++ phone)) ≤ count_if (c.has w' ("phone#" ++ phone)))
        × (count_if (c.has w' ("phone#" ++ phone)) ≤ 1)
  Run-registered phone w w' n run =
      (Run-taken phone w w' n run, count_if-le (c.has w' ("phone#" ++ phone)))
