-- ===== src/Chatmgmt/Adapter/Keys/Answers.antt =====
-- Which keys the goroutines return, however their turns are interleaved.
use mathlib.Core.Path.{subst}
use realtime_messaging_platf.Prelude.{
  ℕ, ◌≡◌, refl, ◌⊎◌, inl, inr, Bool, true, false, Bool-cases, if◌then◌else◌, String, lookup, List,
  [], ◌∷◌, Option, none, some, ◌==◌, ==_iff, ◌-◌, ltb,
}
use realtime_messaging_platf.Domain.Errors.{plain}
use realtime_messaging_platf.Effect.{Result, ok, err}
use realtime_messaging_platf.Chatmgmt.Adapter.Pem.{Crypto}
use realtime_messaging_platf.Chatmgmt.Adapter.Keys.{
  Aws, AwsKeyStore, cooldown_active, load_public_keys_from_ssm,
}
use realtime_messaging_platf.Chatmgmt.Adapter.Keys.Threads.{
  Pc, enter, expired, fetched, reread, check_cooldown, unknown, fetched_unknown, reread_unknown,
  returned, recorded, System, Event, turn, elsewhere, looked_up, asked, advance, answer, step, run,
}

abbrev pub Among : {A : Type 0} → A → List A → Type 0
Among x [] = ⊥
Among x (y ∷ ys) = (x ≡ y) ⊎ Among x ys

module _ {P : Type 0} where
  -- One of the answers has the key under the id.
  abbrev pub Served : String → P → List (List (String × P)) → Type 0
  Served kid key answers =
      (keys : List (String × P)) × Among keys answers × (lookup kid keys ≡ some key)

  -- What a goroutine holds comes from the answers.
  abbrev Held : String → Pc P → List (List (String × P)) → Type 0
  Held kid (fetched now keys) answers = Among keys answers
  Held kid (fetched_unknown keys) answers = Among keys answers
  Held kid (returned (ok key)) answers = Served kid key answers
  Held kid pc answers = Unit {0}

  Held-more :
      (kid : String) (pc : Pc P) (new : List (String × P)) (answers : List (List (String × P)))
      → Held kid pc answers
      → Held kid pc (new ∷ answers)
  Held-more kid enter new answers h = tt
  Held-more kid (expired now) new answers h = tt
  Held-more kid (fetched now keys) new answers h = inr h
  Held-more kid (reread now) new answers h = tt
  Held-more kid (check_cooldown now) new answers h = tt
  Held-more kid unknown new answers h = tt
  Held-more kid (fetched_unknown keys) new answers h = inr h
  Held-more kid reread_unknown new answers h = tt
  Held-more kid (returned (ok key)) new answers (keys, among, at) = (keys, inr among, at)
  Held-more kid (returned (err e)) new answers h = tt

module _ {K P W : Type 0} (crypto : Crypto K P) (aws : Aws W) where
  looked_up-Held :
      (kid : String) (keys : List (String × P)) (o : Option P) (missing : Pc P)
      (answers : List (List (String × P)))
      → lookup kid keys ≡ o
      → Among keys answers
      → Held kid missing answers
      → Held kid (looked_up crypto aws o missing) answers
  unfolding looked_up
  looked_up-Held kid keys none missing answers e a h = h
  looked_up-Held kid keys (some key) missing answers e a h = (keys, a, e)

  if-Held :
      (kid : String) (b : Bool) (p q : Pc P) (answers : List (List (String × P)))
      → Held kid p answers
      → Held kid q answers
      → Held kid (if b then p else q) answers
  if-Held kid true p q answers hp hq = hp
  if-Held kid false p q answers hp hq = hq

  -- An answer is recorded before the goroutine holds it, and what was held stays.
  asked-Held :
      (kid label : String) (next : List (String × P) → Pc P) (r : Result (List (String × P)))
      (answers : List (List (String × P)))
      → ((keys : List (String × P)) → Held kid (next keys) (keys ∷ answers))
      → Held kid (asked crypto aws next label r) (recorded crypto aws r answers)
  unfolding asked recorded
  asked-Held kid label next (ok keys) answers h = h keys
  asked-Held kid label next (err e) answers h = tt

  recorded-Among :
      (keys : List (String × P)) (r : Result (List (String × P)))
      (answers : List (List (String × P)))
      → Among keys answers
      → Among keys (recorded crypto aws r answers)
  unfolding recorded
  recorded-Among keys (ok new) answers a = inr a
  recorded-Among keys (err e) answers a = a

  -- The keys of the store and what the goroutine holds are from the answers after its turn too.
  abbrev Known : String → Pc P → AwsKeyStore K P → List (List (String × P)) → Type 0
  Known kid pc ks answers = Among ks.public_keys answers × Held kid pc answers

  advance-Known :
      (kid : String) (pc : Pc P) (ks : AwsKeyStore K P) (w : W) (answers : List (List (String × P)))
      → Known kid pc ks answers
      → Known kid
          (advance crypto aws kid pc ks w).0
          (advance crypto aws kid pc ks w).1.0
          (answer crypto aws pc w answers)
  unfolding advance answer
  advance-Known kid enter ks w answers (a, h) =
      let now = (aws.now w).0 in
      (
        a,
        if-Held kid (ltb ks.cache_ttl (now - ks.public_keys_loaded_at)) (expired now)
            (looked_up crypto aws (lookup kid ks.public_keys) (check_cooldown now)) answers tt
            (looked_up-Held kid ks.public_keys (lookup kid ks.public_keys) (check_cooldown now)
              answers refl a tt),
      )
  advance-Known kid (expired now) ks w answers (a, h) =
      let r = (load_public_keys_from_ssm crypto aws w).0 in
      (
        recorded-Among ks.public_keys r answers a,
        asked-Held kid "refreshing public keys (cache expired)" (fetched now) r answers
            (λ keys. inl refl),
      )
  advance-Known kid (fetched now keys) ks w answers (a, h) = (h, tt)
  advance-Known kid (reread now) ks w answers (a, h) = (
    a,
    looked_up-Held kid ks.public_keys (lookup kid ks.public_keys) (check_cooldown now) answers refl
        a tt,
  )
  advance-Known kid (check_cooldown now) ks w answers (a, h) = (
    a,
    if-Held kid (cooldown_active now ks.kid_cooldown ks.last_unknown_kid_refresh)
        (returned (err (plain "unknown key ID %q (cooldown active)"))) unknown answers tt tt,
  )
  advance-Known kid unknown ks w answers (a, h) =
      let r = (load_public_keys_from_ssm crypto aws w).0 in
      (
        recorded-Among ks.public_keys r answers a,
        asked-Held kid "refreshing public keys (unknown kid %q)" fetched_unknown r answers
            (λ keys. inl refl),
      )
  advance-Known kid (fetched_unknown keys) ks w answers (a, h) = (h, tt)
  advance-Known kid reread_unknown ks w answers (a, h) = (
    a,
    looked_up-Held kid ks.public_keys (lookup kid ks.public_keys)
        (returned (err (plain "unknown key ID %q"))) answers refl a tt,
  )
  advance-Known kid (returned (ok key)) ks w answers h = h
  advance-Known kid (returned (err e)) ks w answers h = h

  recorded-Held :
      (kid : String) (pc : Pc P) (r : Result (List (String × P)))
      (answers : List (List (String × P)))
      → Held kid pc answers
      → Held kid pc (recorded crypto aws r answers)
  unfolding recorded
  recorded-Held kid pc (ok keys) answers h = Held-more kid pc keys answers h
  recorded-Held kid pc (err e) answers h = h

  -- What a goroutine other than the one with the turn holds stays from the answers.
  answer-Held :
      (kid : String) (pc by : Pc P) (w : W) (answers : List (List (String × P)))
      → Held kid pc answers
      → Held kid pc (answer crypto aws by w answers)
  unfolding answer
  answer-Held kid pc (expired now) w answers h =
      recorded-Held kid pc (load_public_keys_from_ssm crypto aws w).0 answers h
  answer-Held kid pc unknown w answers h =
      recorded-Held kid pc (load_public_keys_from_ssm crypto aws w).0 answers h
  answer-Held kid pc _ w answers h = h

  -- The keys in the store and those that goroutines hold are from the answers.
  record Inv (s : System crypto aws) : Type 0 where
    cached : Among s.store.public_keys s.answers
    held : (i : ℕ) → Held (s.kid i) (s.pc i) s.answers

  step-Inv : (e : Event crypto aws) (s : System crypto aws) → Inv s → Inv (step crypto aws e s)
  unfolding step
  step-Inv (elsewhere f) s inv = record { cached = inv.cached; held = inv.held }
  step-Inv (turn i) s inv =
      let known =
        advance-Known (s.kid i) (s.pc i) s.store s.world s.answers (inv.cached, inv.held i) in
      record {
        cached = known.0;
        held = λ j. elim (Bool-cases (j == i)) [
          | inl same ↦ rw ((==_iff j i).0 same) (rw ((==_iff i i).1 refl) known.1)
          | inr other ↦
              rw other (answer-Held (s.kid j) (s.pc j) (s.pc i) s.world s.answers (inv.held j))
        ];
      }

  run-Inv :
      (events : List (Event crypto aws)) (s : System crypto aws)
      → Inv s
      → Inv (run crypto aws events s)
  unfolding run
  run-Inv [] s inv = inv
  run-Inv (e ∷ rest) s inv = run-Inv rest (step crypto aws e s) (step-Inv e s inv)

  run-kid :
      (events : List (Event crypto aws)) (s : System crypto aws)
      → (run crypto aws events s).kid ≡ s.kid
  unfolding run step
  run-kid [] s = refl
  run-kid (elsewhere f ∷ rest) s = run-kid rest (step crypto aws (elsewhere f) s)
  run-kid (turn i ∷ rest) s = run-kid rest (step crypto aws (turn i) s)

  -- The store as it was made, with every goroutine about to ask for its key id.
  abbrev pub start : AwsKeyStore K P → W → (ℕ → String) → System crypto aws
  start ks w kids = record {
    store = ks;
    world = w;
    pc = λ i. enter;
    kid = kids;
    answers = ks.public_keys ∷ [];
  }

  -- However the turns of any number of goroutines are interleaved with each other and with changes
  -- of the world, a key that one of them returns stood under the id that it asked for in an answer
  -- of AWS to one of them, or in the keys that the store had at the start.
  pub run-Served :
      (ks : AwsKeyStore K P) (w : W) (kids : ℕ → String) (events : List (Event crypto aws)) (i : ℕ)
      (key : P)
      → (run crypto aws events (start ks w kids)).pc i ≡ returned (ok key)
      → Served (kids i) key (run crypto aws events (start ks w kids)).answers
  run-Served ks w kids events i key h =
      let s = start ks w kids in
      let inv = run-Inv events s (record { cached = inl refl; held = λ j. tt }) in
      let kept = λ (k : ℕ → String). Served (k i) key (run crypto aws events s).answers in
      subst kept (run-kid events s) (rw h at (inv.held i))
