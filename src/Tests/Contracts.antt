-- ===== src/Tests/Contracts.antt =====
-- The small world meets the contracts of the flows.
use realtime_messaging_platf.Prelude.{
  ◌≡◌, refl, ap, sym, ◌∙◌, eq_refl, Bool, true, false, String, str_eq, Option, none, some, arith,
  if◌then◌else◌,
}
use realtime_messaging_platf.Domain.Errors.{Error}
use realtime_messaging_platf.Effect.{Result, ok, err}
use realtime_messaging_platf.Chatmgmt.App.{OtpRecord, SessionRecord, SessionUpdate}
use realtime_messaging_platf.Chatmgmt.App.Contract.{
  OtpContract, Delivery, EvictionContract, RotationContract, updated,
}
use realtime_messaging_platf.Tests.Memory.{
  World, or_missing, service, otp_store, create_in, update_in,
}

pub create_in-ok :
    (r : OtpRecord) (w w' : World) (h : String) (o : Option OtpRecord)
    → create_in r w o ≡ (ok tt, w')
    → w'.otps h ≡ (if str_eq r.phone_hash h then some r else w.otps h)
create_in-ok r w w' h none e = ap (λ (x : Result Unit × World). x.1.otps h) (sym e)
create_in-ok r w w' h (some x) e = absurd (ground arith)

pub create_in-refused :
    (r : OtpRecord) (w w' : World) (e : Error) (o : Option OtpRecord)
    → create_in r w o ≡ (err e, w')
    → w'.otps ≡ w.otps
create_in-refused r w w' e none h = absurd (ground arith)
create_in-refused r w w' e (some x) h = ap (λ (x : Result Unit × World). x.1.otps) (sym h)

pub create_in-outbox :
    (r : OtpRecord) (w : World) (o : Option OtpRecord) → (create_in r w o).1.outbox ≡ w.outbox
create_in-outbox r w none = refl
create_in-outbox r w (some x) = refl

abbrev pub is_present : Option SessionRecord → Bool
is_present none = false
is_present (some _) = true

pub or_missing-ok : {A : Type 0} (o : Option A) (a : A) → or_missing o ≡ ok a → o ≡ some a
or_missing-ok none a h = absurd (ground arith)
or_missing-ok (some x) a h = ground arith

pub update_in-ok :
    (id : String) (u : SessionUpdate) (w w' : World) (r : SessionRecord) (o : Option SessionRecord)
    → update_in id u w o ≡ (ok tt, w')
    → o ≡ some r
    → w'.sessions id ≡ some (updated u r)
update_in-ok id u w w' r none h e = absurd (ground arith)
update_in-ok id u w w' r (some x) h e =
    let x_is : x ≡ r = ground arith in
    sym (ap (λ (x : Result Unit × World). x.1.sessions id) h)
    ∙ rw (eq_refl id) (ap (λ (y : SessionRecord). some (updated u y)) x_is)

pub delete-ok :
    (id : String) (w w' : World) (j : String)
    → service.session_store.delete id w ≡ (ok tt, w')
    → is_present (w'.sessions j) ≡ (if str_eq id j then false else is_present (w.sessions j))
delete-ok id w w' j h =
    sym (ap (λ (x : Result Unit × World). is_present (x.1.sessions j)) h) ∙ ground arith

abbrev pub otp_contract : OtpContract otp_store
otp_contract = record {
  stored = λ w. w.otps;
  create_ok = λ r w w' h. create_in-ok r w w' h (w.otps r.phone_hash);
  create_refused = λ r w w' e h _. create_in-refused r w w' e (w.otps r.phone_hash) h;
  get_ok = λ h w w' r e. or_missing-ok (w.otps h) r (ap (λ (x : Result OtpRecord × World). x.0) e);
  get_keeps = λ h w. refl;
}

abbrev pub delivery : Delivery service
delivery = record {
  outbox = λ w. w.outbox;
  sends = λ phone otp w. refl;
  check_keeps = λ k limit window w. refl;
  rand_keeps = λ max w. refl;
  now_keeps = λ w. refl;
  create_keeps = λ r w. create_in-outbox r w (w.otps r.phone_hash);
  get_keeps = λ h w. refl;
}

abbrev pub eviction_contract : EvictionContract service
eviction_contract = record {
  present = λ w id. is_present (w.sessions id);
  delete_ok = λ id w w' j e. delete-ok id w w' j e;
  revoke_keeps = λ jti w. refl;
}

abbrev pub rotation_contract : RotationContract service
rotation_contract = record {
  session_at = λ w. w.sessions;
  get_ok = λ id w w' r e.
      or_missing-ok (w.sessions id) r (ap (λ (x : Result SessionRecord × World). x.0) e);
  get_keeps = λ id w. refl;
  update_ok = λ id u w w' r e a. update_in-ok id u w w' r (w.sessions id) e a;
  read_keeps = λ n w. refl;
  now_keeps = λ w. refl;
  uuid_keeps = λ w. refl;
  key_keeps = λ w. refl;
  sign_keeps = λ k kid c w. refl;
}
