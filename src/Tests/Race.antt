-- ===== src/Tests/Race.antt =====
-- Two refreshes with one token in the small world, where the time decides the new token.
use realtime_messaging_platf.Prelude.{ℕ, refl, ap, String, List, [], ◌∷◌, ◌==◌, if◌then◌else◌}
use realtime_messaging_platf.Effect.{Result, ok}
use realtime_messaging_platf.Auth.Runtime.{Runtime}
use realtime_messaging_platf.Chatmgmt.App.{AuthService, SessionRecord, RefreshResult}
use realtime_messaging_platf.Chatmgmt.App.Contract.{RotationContract}
use realtime_messaging_platf.Chatmgmt.App.RefreshTokens.{check_session}
use realtime_messaging_platf.Tests.Memory
use realtime_messaging_platf.Tests.Memory.{World, claims}
use realtime_messaging_platf.Tests.Refresh.{session, with_session}
use realtime_messaging_platf.Tests.Contracts.{or_missing-ok, update_in-ok}

abbrev encode : List ℕ → String
encode [] = ""
encode (n ∷ rest) = if n == 7 then "r-first" else "r-second"

abbrev runtime : Runtime World
runtime = record Memory.runtime {
  rand_read = λ n w. (ok (w.time ∷ []), w);
  raw_url_encode = encode;
}

abbrev service : AuthService World Unit Unit
service = record Memory.service { runtime = runtime }

abbrev rotation : RotationContract service
rotation = record {
  session_at = λ w. w.sessions;
  get_ok = λ id w w' r e.
      or_missing-ok (w.sessions id) r (ap (λ (x : Result SessionRecord × World). x.0) e);
  get_keeps = λ id w. refl;
  update_ok = λ id u w w' r e a. update_in-ok id u w w' r (w.sessions id) e a;
  read_keeps = λ n w. refl;
  now_keeps = λ w. refl;
  uuid_keeps = λ w. refl;
  key_keeps = λ w. refl;
  sign_keeps = λ k kid c w. refl;
}

abbrev first_write : World
first_write = (check_session service claims session "r-old" "d-1" with_session).1

abbrev at_eight : World
at_eight = record first_write { time = 8 }

abbrev second_write : World
second_write = (check_session service claims session "r-old" "d-1" at_eight).1

abbrev result : String → ℕ → RefreshResult
result token expiry = record {
  access_token = "access-new";
  refresh_token = token;
  access_token_expiry = expiry;
}

abbrev last_row : SessionRecord
last_row = record session {
  refresh_token_hash = "r-second";
  prev_token_hash = "r-old";
  expires_at = "2026-01-01T00:00:00Z";
  token_generation = 2;
  ttl = 2592000;
}
