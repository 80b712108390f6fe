-- ===== src/Tests/Threads.antt =====
-- Several goroutines in PublicKey: the theorem at an interleaving, and what such ones can do.
use realtime_messaging_platf.Prelude.{ℕ, ◌≡◌, refl, some, String, List, [], ◌∷◌, lookup}
use realtime_messaging_platf.Effect.{ok}
use realtime_messaging_platf.Chatmgmt.Adapter.Pem.{Crypto}
use realtime_messaging_platf.Chatmgmt.Adapter.Keys.{
  Aws, AwsKeyStore, Parameter, load_public_keys_from_ssm, cooldown_active,
}
use realtime_messaging_platf.Chatmgmt.Adapter.Keys.Threads.{Event, turn, elsewhere, System, run}
use realtime_messaging_platf.Chatmgmt.Adapter.Keys.Answers.{Served, start, run-Served}

abbrev crypto : Crypto Unit Unit
crypto = record {
  decode_pem = λ pem. some (record { type' = "PUBLIC KEY"; bytes = [] });
  parse_pkcs1_private_key = λ bytes. ok tt;
  parse_pkcs8_private_key = λ bytes. ok (some tt);
  parse_pkix_public_key = λ bytes. ok (some tt);
  trim_prefix = λ text prefix. text;
}

abbrev parameter : String → Parameter
parameter kid = record { name = some kid; value = some "pem" }

-- The world is the time and what the parameter store lists.
abbrev aws : Aws (ℕ × List Parameter)
aws = record {
  now = λ (t, ps). (t, (t, ps));
  get_parameter = λ name w. (ok (some "kid-1"), w);
  get_secret_value = λ name w. (ok (some "pem"), w);
  get_parameters_by_path = λ path (t, ps). (ok ps, (t, ps));
}

abbrev store : AwsKeyStore Unit Unit
store = record {
  private_key = some tt;
  current_key_id = "kid-1";
  public_keys = ("kid-1", tt) ∷ [];
  public_keys_loaded_at = 0;
  last_unknown_kid_refresh = some 0;
  cache_ttl = 300;
  kid_cooldown = 30;
}

abbrev kids : ℕ → String
kids i = "kid-2"

abbrev both_listed : List Parameter
both_listed = parameter "kid-1" ∷ parameter "kid-2" ∷ []

abbrev begin : System crypto aws
begin = start crypto aws store (100, both_listed) kids

-- Two goroutines that are both past the check of the cooldown when the first asks AWS.
abbrev together : List (Event crypto aws)
together =
    turn 0 ∷ turn 1 ∷ turn 0 ∷ turn 1 ∷ turn 0 ∷ turn 0 ∷ turn 0 ∷ turn 1 ∷ turn 1 ∷ turn 1 ∷ []

run-Served_example : Served (kids 1) tt (run crypto aws together begin).answers
unfolding run cooldown_active load_public_keys_from_ssm lookup
run-Served_example = run-Served crypto aws store (100, both_listed) kids together 1 tt refl

-- Both asked AWS, although the second did so within the cooldown of the first.
together_asks_twice :
    (run crypto aws together begin).answers
    ≡ (("kid-2", tt) ∷ ("kid-1", tt) ∷ [])
      ∷ (("kid-2", tt) ∷ ("kid-1", tt) ∷ [])
      ∷ (("kid-1", tt) ∷ [])
      ∷ []
unfolding run cooldown_active load_public_keys_from_ssm lookup
together_asks_twice = refl

-- The first goroutine has an answer and waits; then kid-2 is taken from the listing, the second
-- goroutine fetches the keys and stores them; and the first stores its older answer over them.
abbrev overtaken : List (Event crypto aws)
overtaken =
    turn 0
    ∷ turn 0
    ∷ turn 1
    ∷ turn 1
    ∷ turn 0
    ∷ elsewhere (λ (t, ps). (t, parameter "kid-1" ∷ []))
    ∷ turn 1
    ∷ turn 1
    ∷ turn 0
    ∷ []

overtaken_keeps_old_key :
    (lookup "kid-2" (run crypto aws overtaken begin).store.public_keys ≡ some tt)
    × ((run crypto aws overtaken begin).answers
        ≡ (("kid-1", tt) ∷ []) ∷ (("kid-2", tt) ∷ ("kid-1", tt) ∷ []) ∷ (("kid-1", tt) ∷ []) ∷ [])
unfolding run cooldown_active load_public_keys_from_ssm lookup
overtaken_keeps_old_key = (refl, refl)
