-- ===== src/Tests/Redis.antt =====
-- The limiter and the revocation store over a Redis that is a table of counts.
use realtime_messaging_platf.Prelude.{
  ℕ, ◌+◌, ◌≤◌, ◌<◌, ◌≡◌, refl, ap, sym, ◌∙◌, true, ltb, String, str_eq, eq_iff, [], ◌∷◌,
  if◌then◌else◌, arith,
}
use realtime_messaging_platf.Effect.{Result, ok}
use realtime_messaging_platf.Chatmgmt.Adapter.Redis.{Commands, Cmdable}
use realtime_messaging_platf.Chatmgmt.Adapter.Redis.Window.{CountContract, allowed, allowed-le}
use realtime_messaging_platf.Chatmgmt.Adapter.Redis.Revoked.{KeyContract}

abbrev pub Counts : Type 0
Counts = String → ℕ

abbrev pub server : Commands Counts
server = record {
  incr = λ k d. (d k + 1, λ j. if str_eq k j then d k + 1 else d j);
  expire = λ k seconds d. d;
}

abbrev pub cmd : Cmdable Counts Counts
cmd = record {
  eval = λ p w. (ok (p w).0, (p w).1);
  exists = λ k w. (ok (w k), w);
  set = λ k v ttl w. (ok tt, λ j. if str_eq k j then 1 else w j);
}

abbrev pub empty : Counts
empty = λ k. 0

eval-ok :
    (p : Counts → ℕ × Counts) (w w' : Counts) (n : ℕ)
    → cmd.eval p w ≡ (ok n, w')
    → (n ≡ (p w).0) × (w' ≡ (p w).1)
eval-ok p w w' n h = (ground arith, sym (ap (λ (x : Result ℕ × Counts). x.1) h))

abbrev count_contract : CountContract server cmd
count_contract = record {
  count = λ d k. d k;
  data' = λ w. w;
  incr_answer = λ k d. refl;
  incr_count = λ k j d. refl;
  expire_keeps = λ k j seconds d lasts. refl;
  eval_ok = eval-ok;
  eval_loses_nothing = λ p w k grows. grows w;
}

pub set-ok :
    (k v : String) (ttl : ℕ) (w w' : Counts) → cmd.set k v ttl w ≡ (ok tt, w') → ltb 0 (w' k) ≡ true
set-ok k v ttl w w' h =
    sym (ap (λ (x : Result Unit × Counts). ltb 0 (x.1 k)) h) ∙ ground (arith, eq_iff k k)

pub exists-ok :
    (k : String) (w w' : Counts) (n : ℕ) → cmd.exists k w ≡ (ok n, w') → ltb 0 (w k) ≡ true → 0 < n
exists-ok k w w' n h p = ground arith

abbrev pub key_contract : KeyContract cmd
key_contract = record { present = λ w k. ltb 0 (w k); set_ok = set-ok; exists_ok = exists-ok }

allowed-le_example : allowed server cmd 2 900 "a" ("a" ∷ "b" ∷ "a" ∷ "a" ∷ "b" ∷ []) empty ≤ 2
allowed-le_example =
    allowed-le server cmd 2 900 count_contract (omega arith) "a" ("a" ∷ "b" ∷ "a" ∷ "a" ∷ "b" ∷ [])
      empty
