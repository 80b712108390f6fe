-- ===== src/Chatmgmt/Adapter/Keys/Threads.antt =====
-- internal/chatmgmt/adapter/aws_keystore.go: any number of goroutines in PublicKey on one store.
-- A turn is a section under the lock, for reading or for writing, or a call of AWS, which is made
-- without the lock. Between two turns of a goroutine the others and the world go on.
use realtime_messaging_platf.Prelude.{
  ℕ, ◌-◌, ◌==◌, ltb, String, lookup, List, [], ◌∷◌, Option, none, some, if◌then◌else◌,
}
use realtime_messaging_platf.Domain.Errors.{plain, wrap}
use realtime_messaging_platf.Effect.{Result, ok, err}
use realtime_messaging_platf.Chatmgmt.Adapter.Pem.{Crypto}
use realtime_messaging_platf.Chatmgmt.Adapter.Keys.{
  Aws, AwsKeyStore, cooldown_active, load_public_keys_from_ssm, refreshed, refreshed_with_cooldown,
}

-- Where a goroutine stands in PublicKey, with its local variables that are read later.
pub data Pc (P : Type 0) : Type 0 where
  enter : Pc P
  -- The cache has expired: about to ask AWS, and about to write the answer under the lock.
  expired : ℕ → Pc P
  fetched : ℕ → List (String × P) → Pc P
  reread : ℕ → Pc P
  check_cooldown : ℕ → Pc P
  -- An unknown key id outside of the cooldown.
  unknown : Pc P
  fetched_unknown : List (String × P) → Pc P
  reread_unknown : Pc P
  returned : Result P → Pc P

module _ {K P W : Type 0} (crypto : Crypto K P) (aws : Aws W) where
  abbrev pub State : Type 0
  State = Pc P × (AwsKeyStore K P × W)

  -- The lookup of a key id, and what follows where it is missing.
  unfoldable pub looked_up : Option P → Pc P → Pc P
  looked_up (some key) missing = returned (ok key)
  looked_up none missing = missing

  unfoldable pub asked : (List (String × P) → Pc P) → String → Result (List (String × P)) → Pc P
  asked next label (ok keys) = next keys
  asked next label (err e) = returned (err (wrap label (wrap "loading public keys from SSM" e)))

  -- One turn of a goroutine that asks for the key id.
  unfoldable pub advance : String → Pc P → AwsKeyStore K P → W → State
  unfolding looked_up asked refreshed refreshed_with_cooldown
  advance kid enter ks w =
      let (now, w') = aws.now w in
      (
        (if ltb ks.cache_ttl (now - ks.public_keys_loaded_at)
            then expired now
            else looked_up (lookup kid ks.public_keys) (check_cooldown now)),
        (ks, w'),
      )
  advance kid (expired now) ks w =
      let (r, w') = load_public_keys_from_ssm crypto aws w in
      (asked (fetched now) "refreshing public keys (cache expired)" r, (ks, w'))
  advance kid (fetched now keys) ks w = (reread now, (refreshed crypto aws (ok keys) ks w).1)
  advance kid (reread now) ks w =
      (looked_up (lookup kid ks.public_keys) (check_cooldown now), (ks, w))
  advance kid (check_cooldown now) ks w = (
    (if cooldown_active now ks.kid_cooldown ks.last_unknown_kid_refresh
        then returned (err (plain "unknown key ID %q (cooldown active)"))
        else unknown),
    (ks, w),
  )
  advance kid unknown ks w =
      let (r, w') = load_public_keys_from_ssm crypto aws w in
      (asked fetched_unknown "refreshing public keys (unknown kid %q)" r, (ks, w'))
  advance kid (fetched_unknown keys) ks w =
      (reread_unknown, (refreshed_with_cooldown crypto aws (ok keys) ks w).1)
  advance kid reread_unknown ks w =
      (looked_up (lookup kid ks.public_keys) (returned (err (plain "unknown key ID %q"))), (ks, w))
  advance kid (returned r) ks w = (returned r, (ks, w))

  -- The goroutines by their numbers, each with the key id that it asks for, and what AWS has
  -- answered so far, the newest answer first. The first one is what the store was made with.
  pub record System : Type 0 where
    pub store : AwsKeyStore K P
    pub world : W
    pub pc : ℕ → Pc P
    pub kid : ℕ → String
    pub answers : List (List (String × P))

  -- A goroutine has a turn, or the world changes by itself: AWS, the time, another process.
  pub data Event : Type 0 where
    turn : ℕ → Event
    elsewhere : (W → W) → Event

  unfoldable pub recorded :
      Result (List (String × P)) → List (List (String × P)) → List (List (String × P))
  recorded (ok keys) seen = keys ∷ seen
  recorded (err e) seen = seen

  -- An answer of AWS, where the goroutine asks for one.
  unfoldable pub answer : Pc P → W → List (List (String × P)) → List (List (String × P))
  unfolding recorded
  answer (expired now) w seen = recorded (load_public_keys_from_ssm crypto aws w).0 seen
  answer unknown w seen = recorded (load_public_keys_from_ssm crypto aws w).0 seen
  answer pc w seen = seen

  abbrev pub set_pc : (ℕ → Pc P) → ℕ → Pc P → ℕ → Pc P
  set_pc pcs i p j = if j == i then p else pcs j

  unfoldable pub step : Event → System → System
  unfolding advance answer
  step (elsewhere f) s = record s { world = f s.world }
  step (turn i) s =
      let (pc', (ks', w')) = advance (s.kid i) (s.pc i) s.store s.world in
      record s {
        store = ks';
        world = w';
        pc = set_pc s.pc i pc';
        answers = answer (s.pc i) s.world s.answers;
      }

  unfoldable pub run : List Event → System → System
  unfolding step
  run [] s = s
  run (e ∷ rest) s = run rest (step e s)
