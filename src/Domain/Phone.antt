-- ===== src/Domain/Phone.antt =====
-- internal/domain/phone.go: phone numbers in E.164 format.
pub mod Pattern
use realtime_messaging_platf.Prelude.{
  ℕ, Bool, true, false, ◌&&◌, ◌==◌, leb, String, str_eq, List, [], ◌∷◌, length, codes,
  if◌then◌else◌,
}
use realtime_messaging_platf.Domain.Errors.{Error, sentinel, wrap, invalid_phone_number}

unfoldable pub is_digit : ℕ → Bool
is_digit c = leb b'0' c && leb c b'9'

unfoldable pub all_digits : List ℕ → Bool
all_digits [] = true
all_digits (c ∷ cs) = is_digit c && all_digits cs

after_plus : List ℕ → Bool
after_plus [] = false
after_plus (d ∷ ds) =
    (leb b'1' d && leb d b'9') && (all_digits ds && (leb 6 (length ds) && leb (length ds) 14))

-- e164Pattern, `^\+[1-9]\d{6,14}$`, on the characters of the text.
unfoldable pub matches_e164 : List ℕ → Bool
unfolding is_digit all_digits after_plus
matches_e164 [] = false
matches_e164 (c ∷ cs) = c == b'+' && after_plus cs

pub record PhoneNumber : Type 0 where
  pub value : String

pub data Validated : Type 0 where
  valid : PhoneNumber → Validated
  invalid : Error → Validated

unfoldable pub new_phone_number : String → Validated
new_phone_number raw =
    if str_eq raw ""
    then invalid (wrap "phone number cannot be empty" (sentinel invalid_phone_number))
    else if matches_e164 (codes raw)
    then valid (record { value = raw })
    else invalid (wrap "phone number %q is not valid E.164" (sentinel invalid_phone_number))
