-- ===== src/Protocol.antt =====
-- pkg/protocol/frames.go: the frames of the WebSocket protocol. encoding/json is a parameter; a raw
-- message is a text, and `none` is a nil one.
use realtime_messaging_platf.Prelude.{ℕ, Bool, String, List, Option, none, some}
use realtime_messaging_platf.Effect.{Result, ok, err}
use realtime_messaging_platf.Config.Defaults.{ℤ}

pub data FrameType : Type 0 where
  connection_ack connection_closing : FrameType
  ping pong : FrameType
  send_message send_message_ack message ack : FrameType
  sync_request sync_response : FrameType
  error : FrameType

abbrev pub frame_type_text : FrameType → String
frame_type_text connection_ack = "connection_ack"
frame_type_text connection_closing = "connection_closing"
frame_type_text ping = "ping"
frame_type_text pong = "pong"
frame_type_text send_message = "send_message"
frame_type_text send_message_ack = "send_message_ack"
frame_type_text message = "message"
frame_type_text ack = "ack"
frame_type_text sync_request = "sync_request"
frame_type_text sync_response = "sync_response"
frame_type_text error = "error"

-- FrameType is a string type, so that a frame may name a type that is none of these.
pub record Frame : Type 0 where
  pub frame_type : String
  pub payload : Option String

-- The payloads. An int64 is an integer, a uint64 a number below 2 ^ 64.
pub record ConnectionAck : Type 0 where
  pub connection_id : String
  pub heartbeat_interval_ms : ℤ

pub record ConnectionClosing : Type 0 where
  pub reason : String
  pub code : ℤ

pub record Ping : Type 0 where
  pub timestamp : ℤ

pub record Pong : Type 0 where
  pub timestamp : ℤ

pub record SendMessage : Type 0 where
  pub chat_id : String
  pub client_message_id : String
  pub content_type : String
  pub content : String

pub record SendMessageAck : Type 0 where
  pub client_message_id : String
  pub message_id : String
  pub sequence : ℕ
  pub created_at : ℤ

pub record Message : Type 0 where
  pub message_id : String
  pub chat_id : String
  pub sender_id : String
  pub client_message_id : String
  pub sequence : ℕ
  pub content_type : String
  pub content : String
  pub created_at : ℤ

pub record Ack : Type 0 where
  pub chat_id : String
  pub sequence : ℕ

pub record SyncRequest : Type 0 where
  pub chat_id : String
  pub last_acked_sequence : ℕ

pub record SyncResponse : Type 0 where
  pub chat_id : String
  pub messages : List Message
  pub has_more : Bool

pub record Error : Type 0 where
  pub code : String
  pub message : String
  pub details : List (String × String)

-- json.Marshal at a type, and json.Unmarshal into a variable of it, which has a value before and
-- after, with the error.
pub record Json (A : Type 0) : Type 0 where
  pub marshal : A → Result String
  pub unmarshal : String → A → Result Unit × A

module _ {A : Type 0} (json : Json A) where
  framed : String → Result String → Result Frame
  framed frame_type (ok payload) = ok (record { frame_type = frame_type; payload = some payload })
  framed frame_type (err e) = err e

  -- No payload is a nil one.
  unfoldable pub new_frame : String → Option A → Result Frame
  unfolding framed
  new_frame frame_type none = ok (record { frame_type = frame_type; payload = none })
  new_frame frame_type (some a) = framed frame_type (json.marshal a)

  parse_into : Option String → A → Result Unit × A
  parse_into none v = (ok tt, v)
  parse_into (some payload) v = json.unmarshal payload v

  unfoldable pub parse_payload : Frame → A → Result Unit × A
  unfolding parse_into
  parse_payload f v = parse_into f.payload v
