-- ===== src/Chatmgmt/Adapter/Sms/Mask.antt =====
-- internal/chatmgmt/adapter/sns_sms.go: what the log-only provider tells of a phone number.
use Prim.Native.String.{◌++◌}
use Prim.Native.String.append.{nil, cons}
use realtime_messaging_platf.Prelude.{
  leb, false, suc, ◌+◌, ◌-◌, ◌<◌, ◌≡◌, refl, ap, ◌∙◌, String, length, codes, arith,
}
use realtime_messaging_platf.Chatmgmt.Adapter.Sms.{Logger, mask_phone, str_drop, log_sms_provider}

length-codes-append : (s t : String) → length (codes (s ++ t)) ≡ length (codes s) + length (codes t)
length-codes-append String.[] t = omega (arith, ap (λ (x : String). length (codes x)) (nil t))
length-codes-append (String.◌∷◌ c s) t =
    omega (arith, ap (λ (x : String). length (codes x)) (cons c s t), length-codes-append s t)

str_drop-append : (s t : String) → str_drop (length (codes s)) (s ++ t) ≡ t
unfolding str_drop
str_drop-append String.[] t = nil t
str_drop-append (String.◌∷◌ c s) t =
    ap (λ (x : String). str_drop (suc (length (codes s))) x) (cons c s t) ∙ str_drop-append s t

mask_phone-append :
    (s last : String)
    → length (codes last) ≡ 4
    → 0 < length (codes s)
    → mask_phone (s ++ last) ≡ "***" ++ last
unfolding mask_phone
mask_phone-append s last h pos =
    let n = length-codes-append s last in
    let long : leb (length (codes (s ++ last))) 4 ≡ false = ground (arith, n) in
    let rest : length (codes (s ++ last)) - 4 ≡ length (codes s) = omega (arith, n) in
    rw long (rw rest (ap (λ (x : String). "***" ++ x) (str_drop-append s last)))

-- The log-only provider does the same for two phone numbers of more than four characters that end in
-- the same four: no other character of the number gets out.
pub send_otp-eq :
    {W : Type 0} (logger : Logger W) (s t last otp : String) (w : W)
    → length (codes last) ≡ 4
    → 0 < length (codes s)
    → 0 < length (codes t)
    → (log_sms_provider logger).send_otp (s ++ last) otp w
      ≡ (log_sms_provider logger).send_otp (t ++ last) otp w
unfolding log_sms_provider
send_otp-eq logger s t last otp w h hs ht =
    rw (mask_phone-append s last h hs) (rw (mask_phone-append t last h ht) refl)
