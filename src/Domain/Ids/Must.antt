-- ===== src/Domain/Ids/Must.antt =====
-- internal/domain/ids.go and phone.go: the constructors that panic on bad input. No value is a panic.
use realtime_messaging_platf.Prelude.{Bool, String, Option, none, some}
use realtime_messaging_platf.Effect.{Result, ok, err}
use realtime_messaging_platf.Domain.Phone.{PhoneNumber, valid, invalid, new_phone_number}
use realtime_messaging_platf.Domain.Ids.{
  ChatId, UserId, MessageId, SessionId, DeviceId, ClientMessageId, new_chat_id, new_user_id,
  new_message_id, new_session_id, new_device_id, new_client_message_id,
}

must : {A : Type 0} → Result A → Option A
must (ok a) = some a
must (err e) = none

module _ (is_uuid : String → Bool) where
  unfoldable pub must_chat_id : String → Option ChatId
  unfolding must
  must_chat_id raw = must (new_chat_id is_uuid raw)

  unfoldable pub must_user_id : String → Option UserId
  unfolding must
  must_user_id raw = must (new_user_id is_uuid raw)

  unfoldable pub must_message_id : String → Option MessageId
  unfolding must
  must_message_id raw = must (new_message_id is_uuid raw)

  unfoldable pub must_session_id : String → Option SessionId
  unfolding must
  must_session_id raw = must (new_session_id is_uuid raw)

  unfoldable pub must_device_id : String → Option DeviceId
  unfolding must
  must_device_id raw = must (new_device_id is_uuid raw)

unfoldable pub must_client_message_id : String → Option ClientMessageId
unfolding must
must_client_message_id raw = must (new_client_message_id raw)

unfoldable pub must_phone_number : String → Option PhoneNumber
must_phone_number raw = elim (new_phone_number raw) [ valid p ↦ some p | invalid e ↦ none ]
