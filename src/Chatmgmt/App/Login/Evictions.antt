-- ===== src/Chatmgmt/App/Login/Evictions.antt =====
-- Which sessions a login removes.
use realtime_messaging_platf.Prelude.{
  ◌≡◌, Bool, false, ◌&&◌, ◌||◌, String, str_eq, List, [], ◌∷◌, if◌then◌else◌, arith, ap,
}
use realtime_messaging_platf.Effect.{ok}
use realtime_messaging_platf.Chatmgmt.App.{AuthService, SessionRecord}
use realtime_messaging_platf.Chatmgmt.App.Contract.{EvictionContract}
use realtime_messaging_platf.Chatmgmt.App.Login.{evict_conflicting_sessions, evict_each}

-- Some session of the list has the id.
abbrev pub has_id : List SessionRecord → String → Bool
has_id [] id = false
has_id (x ∷ xs) id = str_eq x.session_id id || has_id xs id

-- Some session of the list has the id and is bound to the device.
abbrev pub has_id_on : List SessionRecord → String → String → Bool
has_id_on [] device_id id = false
has_id_on (x ∷ xs) device_id id =
    (str_eq x.device_id device_id && str_eq x.session_id id) || has_id_on xs device_id id

module _ {W K P : Type 0} (s : AuthService W K P) (c : EvictionContract s) where
  -- A loop that ends well has deleted the sessions of the list, and no other.
  pub evict_each-present :
      (xs : List SessionRecord) (w w' : W) (id : String)
      → evict_each s xs w ≡ (ok tt, w')
      → c.present w' id ≡ (if has_id xs id then false else c.present w id)
  unfolding evict_each
  evict_each-present [] w w' id h = ground arith
  evict_each-present (x ∷ xs) w w' id h =
      let (d, w1) = s.session_store.delete x.session_id w in
      let (r, w2) = s.revocation_store.revoke x.session_id w1 in
      ground (
        arith,
        c.delete_ok x.session_id w w1 id,
        ap (λ (f : String → Bool). f id) (c.revoke_keeps x.session_id w1),
        evict_each-present xs w2 w' id,
      )

  -- The first loop deletes the sessions on the device, and no other.
  pub evict_conflicting_sessions-present :
      (xs : List SessionRecord) (device_id : String) (w w' : W) (id : String)
      → evict_conflicting_sessions s xs device_id w ≡ (ok tt, w')
      → c.present w' id ≡ (if has_id_on xs device_id id then false else c.present w id)
  unfolding evict_conflicting_sessions
  evict_conflicting_sessions-present [] device_id w w' id h = ground arith
  evict_conflicting_sessions-present (x ∷ xs) device_id w w' id h =
      let (d, w1) = s.session_store.delete x.session_id w in
      let (r, w2) = s.revocation_store.revoke x.session_id w1 in
      ground (
        arith,
        c.delete_ok x.session_id w w1 id,
        ap (λ (f : String → Bool). f id) (c.revoke_keeps x.session_id w1),
        evict_conflicting_sessions-present xs device_id w2 w' id,
        evict_conflicting_sessions-present xs device_id w w' id,
      )
