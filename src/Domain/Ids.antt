-- ===== src/Domain/Ids.antt =====
-- internal/domain/ids.go. The types of identifiers differ in a name, which is the index here; their
-- code is the same. uuid.Parse is a parameter, of which only the success is used.
pub mod Laws
pub mod Must
use Prim.Native.String.{◌++◌}
use realtime_messaging_platf.Prelude.{
  ℕ, ◌+◌, ◌%◌, ◌^◌, Bool, ◌==◌, ltb, String, str_eq, List, [], ◌∷◌, codes, if◌then◌else◌,
}
use realtime_messaging_platf.Domain.Errors.{sentinel, wrap, empty_id, invalid_id}
use realtime_messaging_platf.Domain.Constants.{max_client_message_id_length}
use realtime_messaging_platf.Effect.{Result, ok, err}
use realtime_messaging_platf.Auth.Runtime.{Runtime}

pub data Kind : Type 0 where
  chat user message session device connection : Kind

pub record Identifier (k : Kind) : Type 0 where
  pub value : String

abbrev pub ChatId : Type 0
ChatId = Identifier chat

abbrev pub UserId : Type 0
UserId = Identifier user

abbrev pub MessageId : Type 0
MessageId = Identifier message

abbrev pub SessionId : Type 0
SessionId = Identifier session

abbrev pub DeviceId : Type 0
DeviceId = Identifier device

abbrev pub ConnectionId : Type 0
ConnectionId = Identifier connection

abbrev pub kind_name : Kind → String
kind_name chat = "chat"
kind_name user = "user"
kind_name message = "message"
kind_name session = "session"
kind_name device = "device"
kind_name connection = "connection"

module _ (is_uuid : String → Bool) where
  unfoldable pub new_id : (k : Kind) → String → Result (Identifier k)
  new_id k raw =
      if str_eq raw ""
      then err (sentinel empty_id)
      else if is_uuid raw
      then ok (record { value = raw })
      else err (wrap ("invalid " ++ (kind_name k ++ " ID %q")) (sentinel invalid_id))

  unfoldable pub new_chat_id : String → Result ChatId
  unfolding new_id
  new_chat_id raw = new_id chat raw

  unfoldable pub new_user_id : String → Result UserId
  unfolding new_id
  new_user_id raw = new_id user raw

  unfoldable pub new_message_id : String → Result MessageId
  unfolding new_id
  new_message_id raw = new_id message raw

  unfoldable pub new_session_id : String → Result SessionId
  unfolding new_id
  new_session_id raw = new_id session raw

  unfoldable pub new_device_id : String → Result DeviceId
  unfolding new_id
  new_device_id raw = new_id device raw

  unfoldable pub new_connection_id : String → Result ConnectionId
  unfolding new_id
  new_connection_id raw = new_id connection raw

unfoldable pub generate_id : {W : Type 0} → Runtime W → (k : Kind) → W → Identifier k × W
generate_id rt k w = let (u, w') = rt.new_uuid w in (record { value = u }, w')

module _ {W : Type 0} (rt : Runtime W) where
  unfoldable pub generate_chat_id : W → ChatId × W
  unfolding generate_id
  generate_chat_id w = generate_id rt chat w

  unfoldable pub generate_user_id : W → UserId × W
  unfolding generate_id
  generate_user_id w = generate_id rt user w

  unfoldable pub generate_message_id : W → MessageId × W
  unfolding generate_id
  generate_message_id w = generate_id rt message w

  unfoldable pub generate_session_id : W → SessionId × W
  unfolding generate_id
  generate_session_id w = generate_id rt session w

  unfoldable pub generate_device_id : W → DeviceId × W
  unfolding generate_id
  generate_device_id w = generate_id rt device w

  unfoldable pub generate_connection_id : W → ConnectionId × W
  unfolding generate_id
  generate_connection_id w = generate_id rt connection w

unfoldable pub is_zero : {k : Kind} → Identifier k → Bool
is_zero id = str_eq id.value ""

pub record ClientMessageId : Type 0 where
  pub value : String

-- The bytes of a code point in UTF-8.
utf8_length : ℕ → ℕ
utf8_length c = if ltb c 0x80 then 1 else if ltb c 0x800 then 2 else if ltb c 0x10000 then 3 else 4

-- len(s), in bytes.
unfoldable pub byte_length : List ℕ → ℕ
unfolding utf8_length
byte_length [] = 0
byte_length (c ∷ cs) = utf8_length c + byte_length cs

unfoldable pub new_client_message_id : String → Result ClientMessageId
unfolding byte_length
new_client_message_id raw =
    if str_eq raw ""
    then err (sentinel empty_id)
    else if ltb max_client_message_id_length (byte_length (codes raw))
    then err (wrap "client message ID exceeds max length %d" (sentinel invalid_id))
    else ok (record { value = raw })

-- Sequence is a uint64.
unfoldable pub next : ℕ → ℕ
next s = (s + 1) % 2 ^ 64
