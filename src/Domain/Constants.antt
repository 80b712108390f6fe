-- ===== src/Domain/Constants.antt =====
-- internal/domain/constants.go: the limits, the budgets, and the content and chat types.
-- A duration is a number of nanoseconds, as in Go.
use realtime_messaging_platf.Prelude.{ℕ, ◌*◌, Bool, ◌||◌, String, str_eq}

abbrev pub second : ℕ
second = 1_000_000_000

abbrev pub minute : ℕ
minute = 60 * second

abbrev pub hour : ℕ
hour = 60 * minute

abbrev pub max_message_size : ℕ
max_message_size = 64 * 1024

abbrev pub max_client_message_id_length : ℕ
max_client_message_id_length = 128

abbrev pub max_group_size : ℕ
max_group_size = 100

abbrev pub max_concurrent_chats : ℕ
max_concurrent_chats = 500

abbrev pub max_direct_chats_per_pair : ℕ
max_direct_chats_per_pair = 1

abbrev pub max_connections_per_user : ℕ
max_connections_per_user = 5

abbrev pub max_connections_per_ip : ℕ
max_connections_per_ip = 20

abbrev pub connection_rate_limit_window : ℕ
connection_rate_limit_window = 10 * second

abbrev pub connection_rate_limit : ℕ
connection_rate_limit = 5

abbrev pub outbound_buffer_size : ℕ
outbound_buffer_size = 256

abbrev pub outbound_buffer_timeout : ℕ
outbound_buffer_timeout = 5 * second

abbrev pub slow_consumer_threshold : ℕ
slow_consumer_threshold = 100

abbrev pub heartbeat_interval : ℕ
heartbeat_interval = 30 * second

abbrev pub heartbeat_timeout : ℕ
heartbeat_timeout = 30 * second

abbrev pub connection_ttl : ℕ
connection_ttl = 60 * second

abbrev pub dynamo_db_timeout : ℕ
dynamo_db_timeout = 5 * second

abbrev pub kafka_produce_timeout : ℕ
kafka_produce_timeout = 10 * second

abbrev pub redis_timeout : ℕ
redis_timeout = 2 * second

abbrev pub grpc_call_timeout : ℕ
grpc_call_timeout = 10 * second

abbrev pub graceful_shutdown_timeout : ℕ
graceful_shutdown_timeout = 30 * second

abbrev pub shutdown_drain_delay : ℕ
shutdown_drain_delay = 3 * second

abbrev pub shutdown_http_timeout : ℕ
shutdown_http_timeout = 20 * second

abbrev pub shutdown_otel_timeout : ℕ
shutdown_otel_timeout = 5 * second

abbrev pub otp_request_rate_limit_per_phone : ℕ
otp_request_rate_limit_per_phone = 3

abbrev pub otp_request_rate_limit_per_ip : ℕ
otp_request_rate_limit_per_ip = 10

abbrev pub otp_rate_limit_window : ℕ
otp_rate_limit_window = 15 * minute

abbrev pub otp_validity_duration : ℕ
otp_validity_duration = 5 * minute

abbrev pub max_otp_verify_attempts : ℕ
max_otp_verify_attempts = 5

abbrev pub otp_lockout_duration : ℕ
otp_lockout_duration = 15 * minute

abbrev pub access_token_lifetime : ℕ
access_token_lifetime = hour

abbrev pub refresh_token_lifetime : ℕ
refresh_token_lifetime = 30 * (24 * hour)

abbrev pub max_sessions_per_user : ℕ
max_sessions_per_user = 5

abbrev pub membership_cache_ttl : ℕ
membership_cache_ttl = 5 * minute

abbrev pub default_page_size : ℕ
default_page_size = 50

abbrev pub max_page_size : ℕ
max_page_size = 100

abbrev pub content_type_text : String
content_type_text = "text"

abbrev pub chat_type_direct : String
chat_type_direct = "direct"

abbrev pub chat_type_group : String
chat_type_group = "group"

pub is_valid_content_type : String → Bool
is_valid_content_type ct = str_eq ct content_type_text

pub is_valid_chat_type : String → Bool
is_valid_chat_type ct = str_eq ct chat_type_direct || str_eq ct chat_type_group
