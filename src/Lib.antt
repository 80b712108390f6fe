-- ===== src/Lib.antt =====
-- The realtime messaging platform: the authentication of its chat management service, with the
-- stores, the tokens and the error mapping that it stands on, the way the service is put together,
-- configured, started and stopped, and the frames of the WebSocket protocol. The other services of
-- the repository (gateway, ingest, fanout) are commands that start a server; their packages hold
-- comments only.
--
-- A client asks for a one-time password (RequestOTP), exchanges it for a session with an access token
-- and a refresh token (VerifyOTP, which registers a new phone or logs an existing user in), renews the
-- pair (RefreshTokens) and ends the session (Logout). The flows call stores behind interfaces; the
-- stores call DynamoDB, Redis and AWS. The errors of the flows are error variables of the domain,
-- wrapped in texts, which three tables translate for gRPC, HTTP and WebSocket clients. A command hands
-- its parameters to the server, which loads the configuration, starts telemetry, calls the service's
-- set-up, opens the listeners, and at the end stops all of it in a fixed order. The set-up of chat
-- management builds the stores on the clients, the flows on the stores and the handler on the flows.
--
-- A Go function that may fail is an action: it takes the world and returns a result and the world,
-- beside an error too (Effect). The world is a type parameter. What lies outside of the repository is
-- a parameter of the definitions that use it: the clock, randomness, hashes and time formats
-- (Auth/Runtime), the JWT library (Auth/Tokens), sort.Slice (Chatmgmt/App), the clients of DynamoDB
-- (Dynamo), Redis (Chatmgmt/Adapter/Redis) and AWS (Chatmgmt/Adapter/Keys), koanf (Config/Load),
-- strings.ToLower, uuid.Parse, encoding/json, and the calls of OpenTelemetry, gRPC and net/http that
-- the server makes (Server). What a theorem relies on of these is a record of laws about observations
-- of the world (Chatmgmt/App/Contract, and the contracts beside the theorems on the stores); Tests has
-- worlds in which the laws hold. A `go` statement is a function on the world that returns at once. Loggers, tracers and counters are left
-- out. Integers count things, sizes and nanoseconds and are far from the bounds of their Go types, so
-- they are natural numbers; the only subtraction that could be negative is a difference of times that
-- is compared with a positive duration, where 0 gives the same answer. Where a value comes from a
-- client or the environment, an int is an integer (Config/Defaults), and the successor of a sequence
-- number wraps at 2 ^ 64 (Domain/Ids). All loops are over lists, so no
-- fuel is needed. A formatted text keeps its format string, as no code reads it back.
--
--   Domain/Errors        internal/domain/errors.go, and Go error values as trees
--   Domain/Phone         internal/domain/phone.go; Phone/Pattern has the regular expression
--   Domain/Constants     internal/domain/constants.go
--   Domain/Ids           internal/domain/ids.go; Ids/Must the constructors that panic
--   Domain/Clock, Secrets
--                        internal/domain/clock.go and secrets.go
--   Errmap               internal/errmap: Grpc, Http and WebSocket; Agreement compares them
--   Auth/Otp             internal/auth/otp.go: GenerateOTP, HashPhone, ComputeOTPMAC, VerifyOTPMAC
--   Auth/Refresh         internal/auth/refresh.go
--   Auth/Tokens          internal/auth/claims.go, mint.go and jwt.go
--   Auth/Keys            internal/auth/keys.go: StaticKeyStore
--   Dynamo               internal/dynamo/client.go: requests and the classification of errors;
--                        Factory has NewClient
--   Chatmgmt/App         internal/chatmgmt/app/auth_service.go: records and interfaces
--     RequestOtp         auth_request_otp.go: RequestOTP
--     VerifyOtp, Login   auth_verify_otp.go: VerifyOTP, registration, login with its evictions
--     RefreshTokens      auth_refresh.go: RefreshTokens and rotateRefreshToken
--     Logout             auth_logout.go: Logout
--   Chatmgmt/Adapter     internal/chatmgmt/adapter
--     Redis              redis_ratelimit.go and redis_revocation.go, with the Lua script
--     Otps, Sessions, Users, Transactor
--                        dynamo_otp.go, dynamo_sessions.go, dynamo_users.go, dynamo_tx.go
--     Pem, Keys          aws_keystore.go: parsing, loading, the cache of public keys; Keys/Threads has
--                        PublicKey as several goroutines run it, a turn for each locked section
--     Sms                sns_sms.go, with internal/auth/sms.go
--   Chatmgmt/Port        internal/chatmgmt/port/auth_handler.go: the gRPC handlers
--   Config               internal/config/config.go: Defaults, Load with its Settings
--   Server               internal/server/server.go: Run up to the servers; Shutdown has shutdownFunc,
--                        Group the goroutines of the servers
--   Observability        internal/observability: the settings; Logging has the loggers and their
--                        redaction, Providers the set-up of traces and metrics
--   Protocol             pkg/protocol/frames.go
--   Commands             cmd: Setup has cmd/chatmgmt/setup.go, Services the main functions
--   Prelude, Effect      shared tests, lists, texts, maps and actions
--   Tests                the theorems at concrete inputs
--
-- Not modelled: the look-up of tracers and meters, spans, counters and log lines, which only call
-- libraries; the clock for tests in internal/domain/domaintest; the packages of the gateway, the ingest
-- and the fanout services, which hold a comment only. The condition expressions of
-- DynamoDB are kept as texts; what they do is the database's. A flow runs alone in its world: other
-- clients enter only through what the laws leave open, but for Transactor/SingleUse and
-- Transactor/OneUser, where the calls of any number of flows on the tables of one-time passwords and
-- of users stand in any order, RefreshTokens/Race, where two refreshes overlap, and Keys/Threads. No
-- fuel is used: the loops are recursions on lists.
pub mod Auth
pub mod Chatmgmt
pub mod Commands
pub mod Config
pub mod Domain
pub mod Dynamo
pub mod Effect
pub mod Errmap
pub mod Observability
pub mod Prelude
pub mod Protocol
pub mod Server
pub mod Tests
