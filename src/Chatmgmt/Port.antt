-- ===== src/Chatmgmt/Port.antt =====
-- internal/chatmgmt/port/auth_handler.go. The flows are an interface, as in the source. The
-- metadata library's lookup by key, md.Get, is a function on keys.
pub mod Requests
use Prim.Native.Char.{code}
use realtime_messaging_platf.Prelude.{
  ℕ, Bool, true, false, ◌&&◌, ◌||◌, ◌==◌, ltb, leb, String, str_eq, List, [], ◌∷◌, Option, none,
  some, if◌then◌else◌,
}
use realtime_messaging_platf.Domain.Errors.{Error}
use realtime_messaging_platf.Effect.{Result, ok, err, Action}
use realtime_messaging_platf.Errmap.Grpc.{Status, to_grpc_status}
use realtime_messaging_platf.Auth.Runtime.{Runtime, unix_milli}
use realtime_messaging_platf.Chatmgmt.App.{RequestOtpResult, VerifyOtpResult, RefreshResult}

-- The flows that the handler calls.
pub record AuthFlows (W : Type 0) : Type 0 where
  pub request_otp : String → String → Action W RequestOtpResult
  pub verify_otp : String → String → String → Action W VerifyOtpResult
  pub refresh_tokens : String → String → String → Action W RefreshResult
  pub logout : String → Action W Unit

-- The metadata and the text of the peer's address, where there are any.
pub record Context : Type 0 where
  pub metadata : Option (String → List String)
  pub peer : Option String

pub record RequestOtpResponse : Type 0 where
  pub expires_at : ℕ
  pub retry_after_seconds : ℕ

pub record AuthUser : Type 0 where
  pub user_id : String
  pub phone_number : String
  pub display_name : String
  pub phone_verified : Bool
  pub created_at : ℕ

pub record VerifyOtpResponse : Type 0 where
  pub user : AuthUser
  pub session_id : String
  pub access_token : String
  pub refresh_token : String
  pub is_new_user : Bool
  pub access_token_expires_at : ℕ

pub record RefreshTokensResponse : Type 0 where
  pub access_token : String
  pub refresh_token : String
  pub access_token_expires_at : ℕ

-- A response, or the status that the error carries.
pub data Reply (A : Type 0) : Type 0 where
  response : A → Reply A
  failure : Status → Reply A

-- strings.HasPrefix and the rest after the prefix.
unfoldable pub strip_prefix : String → String → Option String
strip_prefix String.[] s = some s
strip_prefix (String.◌∷◌ c prefix) String.[] = none
strip_prefix (String.◌∷◌ c prefix) (String.◌∷◌ d s) =
    if code c == code d then strip_prefix prefix s else none

-- The text before the first `c`, or all of it.
unfoldable pub before_first : ℕ → String → String
before_first c String.[] = ""
before_first c (String.◌∷◌ d s) = if code d == c then "" else String.◌∷◌ d (before_first c s)

-- The text before the last `c`, where there is one.
unfoldable pub before_last : ℕ → String → Option String
before_last c String.[] = none
before_last c (String.◌∷◌ d s) = elim (before_last c s) [
  | some t ↦ some (String.◌∷◌ d t)
  | none ↦ if code d == c then some "" else none
]

-- unicode.IsSpace.
unfoldable pub is_space : ℕ → Bool
is_space c =
    (leb 9 c && leb c 13)
    || c == 32
    || c == 133
    || c == 160
    || c == 5760
    || (leb 8192 c && leb c 8202)
    || c == 8232
    || c == 8233
    || c == 8239
    || c == 8287
    || c == 12288

unfoldable pub trim_left : String → String
trim_left String.[] = ""
trim_left (String.◌∷◌ c s) = if is_space (code c) then trim_left s else String.◌∷◌ c s

unfoldable pub trim_right : String → String
trim_right String.[] = ""
trim_right (String.◌∷◌ c s) =
    let rest = trim_right s in if is_space (code c) && str_eq rest "" then "" else String.◌∷◌ c rest

-- strings.TrimSpace.
unfoldable pub trim_space : String → String
trim_space s = trim_right (trim_left s)

first_or_empty : List String → String
first_or_empty [] = ""
first_or_empty (v ∷ vals) = v

value_of : String → Option (String → List String) → String
unfolding first_or_empty
value_of key none = ""
value_of key (some md) = first_or_empty (md key)

token_of : String → String
token_of value = elim (strip_prefix "Bearer " value) [ none ↦ value | some token ↦ token ]

unfoldable pub extract_bearer_token : Context → String
unfolding value_of token_of
extract_bearer_token ctx = token_of (value_of "authorization" ctx.metadata)

unfoldable pub extract_device_id : Context → String
unfolding value_of
extract_device_id ctx = value_of "x-device-id" ctx.metadata

peer_ip : Option String → String
peer_ip none = ""
peer_ip (some addr) = elim (before_last b':' addr) [ some ip ↦ ip | none ↦ addr ]

unfoldable pub extract_client_ip : Context → String
unfolding value_of peer_ip
extract_client_ip ctx =
    if str_eq (value_of "x-forwarded-for" ctx.metadata) ""
    then peer_ip ctx.peer
    else trim_space (before_first b',' (value_of "x-forwarded-for" ctx.metadata))

abbrev pub max_int32 : ℕ
max_int32 = 2_147_483_647

unfoldable pub clamp_int32 : ℕ → ℕ
clamp_int32 v = if ltb max_int32 v then max_int32 else v

millis_of : Result ℕ → ℕ
millis_of (ok t) = unix_milli t
millis_of (err e) = 0

abbrev pub replied : {A B : Type 0} → (Error → String) → (A → B) → Result A → Reply B
replied text respond (ok a) = response (respond a)
replied text respond (err e) = failure (to_grpc_status text (some e))

module _ {W : Type 0} (rt : Runtime W) (text : Error → String) (svc : AuthFlows W) where
  unfoldable pub time_string_to_proto_timestamp : String → ℕ
  unfolding millis_of
  time_string_to_proto_timestamp s = millis_of (rt.parse_rfc3339 s)

  unfoldable pub handle_request_otp : Context → String → W → Reply RequestOtpResponse × W
  handle_request_otp ctx phone_number w =
      let (r, w') = svc.request_otp phone_number (extract_client_ip ctx) w in
      (
        replied text
            (λ result. record {
              expires_at = unix_milli result.expires_at;
              retry_after_seconds = clamp_int32 result.retry_after_seconds;
            })
            r,
        w',
      )

  unfoldable pub handle_verify_otp : String → String → String → W → Reply VerifyOtpResponse × W
  handle_verify_otp phone_number otp device_id w =
      let (r, w') = svc.verify_otp phone_number otp device_id w in
      (
        replied text
            (λ result. record {
              user = record {
                user_id = result.user.user_id;
                phone_number = result.user.phone_number;
                display_name = result.user.display_name;
                phone_verified = true;
                created_at = time_string_to_proto_timestamp result.user.created_at;
              };
              session_id = result.session_id;
              access_token = result.access_token;
              refresh_token = result.refresh_token;
              is_new_user = result.is_new_user;
              access_token_expires_at = unix_milli result.access_token_expiry;
            })
            r,
        w',
      )

  unfoldable pub handle_refresh_tokens : Context → String → W → Reply RefreshTokensResponse × W
  handle_refresh_tokens ctx refresh_token w =
      let (r, w') =
        svc.refresh_tokens (extract_bearer_token ctx) refresh_token (extract_device_id ctx) w in
      (
        replied text
            (λ result. record {
              access_token = result.access_token;
              refresh_token = result.refresh_token;
              access_token_expires_at = unix_milli result.access_token_expiry;
            })
            r,
        w',
      )

  unfoldable pub handle_logout : Context → W → Reply Unit × W
  handle_logout ctx w =
      let (r, w') = svc.logout (extract_bearer_token ctx) w in (replied text (λ u. u) r, w')
