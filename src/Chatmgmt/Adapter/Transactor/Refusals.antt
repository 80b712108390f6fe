-- ===== src/Chatmgmt/Adapter/Transactor/Refusals.antt =====
-- When a transaction is answered as a conflict.
use realtime_messaging_platf.Prelude.{
  ◌≡◌, ◌↔◌, refl, ap, sym, ◌∙◌, true, false, Bool-cases, inl, inr, str_eq, eq_iff, [], ◌∷◌, Option,
  none, some, List, String, arith,
}
use mathlib.Core.List.{Memᴰ}
use realtime_messaging_platf.Domain.Errors.{Error, is, already_exists}
use realtime_messaging_platf.Effect.{err}
use realtime_messaging_platf.Dynamo.{is_transaction_canceled_exception}
use realtime_messaging_platf.Chatmgmt.App.{RegistrationParams, LoginParams}
use realtime_messaging_platf.Chatmgmt.Adapter.Transactor.{
  Transactor, any_condition_failed, classify_tx_error, classify_reasons, verify_otp_and_create_user,
  verify_otp_and_create_session, registration_items, login_items,
}

-- The error is a cancelled transaction with a failed condition at some item.
abbrev pub Conflict : Error → Type 0
Conflict e =
    (reasons : List String) × (is_transaction_canceled_exception e ≡ some reasons)
    × Memᴰ "ConditionalCheckFailed" reasons

any_condition_failed-Mem :
    (reasons : List String)
    → any_condition_failed reasons ≡ true
    → Memᴰ "ConditionalCheckFailed" reasons
unfolding any_condition_failed
any_condition_failed-Mem [] h = absurd (ground arith)
any_condition_failed-Mem (reason ∷ reasons) h =
    elim (Bool-cases (str_eq reason "ConditionalCheckFailed")) [
      | inl same ↦ Memᴰ.head (sym ((eq_iff reason "ConditionalCheckFailed").0 same))
      | inr other ↦ Memᴰ.tail (any_condition_failed-Mem reasons (ground arith))
    ]

any_condition_failed_of_Mem :
    (reasons : List String)
    → Memᴰ "ConditionalCheckFailed" reasons
    → any_condition_failed reasons ≡ true
unfolding any_condition_failed
any_condition_failed_of_Mem [] m = elim m [ ]
any_condition_failed_of_Mem (reason ∷ reasons) (Memᴰ.head e) =
    ground (arith, (eq_iff reason "ConditionalCheckFailed").1 (sym e))
any_condition_failed_of_Mem (reason ∷ reasons) (Memᴰ.tail m) =
    ground (arith, any_condition_failed_of_Mem reasons m)

classify_reasons-already_exists :
    (e : Error) (op : String) (reasons : Option (List String))
    → is e already_exists ≡ false
    → is_transaction_canceled_exception e ≡ reasons
    → (is (classify_reasons e op reasons) already_exists ≡ true) ↔ Conflict e
unfolding classify_reasons is
classify_reasons-already_exists e op none h r =
    (λ k. absurd (ground arith), λ (reasons, c, m). absurd (ground arith))
classify_reasons-already_exists e op (some reasons) h r = (
  λ k. (reasons, r, any_condition_failed-Mem reasons (ground arith)),
  λ (others, c, m).
      let same : others ≡ reasons = ground arith in
      let failed = any_condition_failed_of_Mem others m in
      let failed' : any_condition_failed reasons ≡ true =
        ap any_condition_failed (sym same) ∙ failed in
      ground arith,
)

module _ {W : Type 0} (t : Transactor W) where
  -- A transaction that the database refuses comes back as ErrAlreadyExists exactly when it was
  -- cancelled with a failed condition among its reasons, at whichever item that is; so for the
  -- registration as for the login. The database's own error is no ErrAlreadyExists.
  pub transactions-already_exists :
      (p : RegistrationParams) (q : LoginParams) (w w' v v' : W) (e f : Error)
      → t.db.transact_write_items (registration_items t p) w ≡ (err e, w')
      → t.db.transact_write_items (login_items t q) v ≡ (err f, v')
      → is e already_exists ≡ false
      → is f already_exists ≡ false
      → ((e' : Error) × (verify_otp_and_create_user t p w ≡ (err e', w'))
          × ((is e' already_exists ≡ true) ↔ Conflict e))
        × ((f' : Error) × (verify_otp_and_create_session t q v ≡ (err f', v'))
            × ((is f' already_exists ≡ true) ↔ Conflict f))
  unfolding verify_otp_and_create_user verify_otp_and_create_session classify_tx_error
  transactions-already_exists p q w w' v v' e f h g he hf = (
    (
      classify_tx_error e "verify otp and create user",
      ground arith,
      classify_reasons-already_exists e "verify otp and create user"
          (is_transaction_canceled_exception e) he refl,
    ),
    (
      classify_tx_error f "verify otp and create session",
      ground arith,
      classify_reasons-already_exists f "verify otp and create session"
          (is_transaction_canceled_exception f) hf refl,
    ),
  )
