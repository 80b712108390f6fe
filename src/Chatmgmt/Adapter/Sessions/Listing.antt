-- ===== src/Chatmgmt/Adapter/Sessions/Listing.antt =====
-- A page of sessions is read whole and in order, or not at all.
use realtime_messaging_platf.Prelude.{◌≡◌, refl, String, ℕ, List, [], ◌∷◌, arith}
use realtime_messaging_platf.Effect.{ok}
use realtime_messaging_platf.Auth.Runtime.{Runtime}
use realtime_messaging_platf.Dynamo.{AttributeMap, Client, Codec}
use realtime_messaging_platf.Chatmgmt.App.{SessionRecord}
use realtime_messaging_platf.Chatmgmt.Adapter.Sessions.{
  SessionItem, to_session_item, from_session_item, unmarshal_session, unmarshal_sessions,
  list_request, list_by_user,
}

-- The items are the sessions as they are written, one for one.
abbrev pub Written : Codec SessionItem → List SessionRecord → List AttributeMap → Type 0
Written codec [] [] = Unit
Written codec [] (m ∷ ms) = ⊥
Written codec (r ∷ rs) [] = ⊥
Written codec (r ∷ rs) (m ∷ ms) =
    (codec.marshal_map (to_session_item r) ≡ ok m) × Written codec rs ms

module _ {W : Type 0} (rt : Runtime W) (db : Client W) (codec : Codec SessionItem)
    (format_int : ℕ → String) (table_name : String)
    (back : (item : SessionItem) (m : AttributeMap)
      → codec.marshal_map item ≡ ok m
      → codec.unmarshal_map m ≡ ok item) where
  unmarshal_sessions-Written :
      (rs : List SessionRecord) (ms : List AttributeMap)
      → Written codec rs ms
      → unmarshal_sessions rt db codec format_int table_name ms ≡ ok rs
  unfolding unmarshal_sessions unmarshal_session to_session_item from_session_item
  unmarshal_sessions-Written [] [] h = refl
  unmarshal_sessions-Written [] (m ∷ ms) h = absurd h
  unmarshal_sessions-Written (r ∷ rs) [] h = absurd h
  unmarshal_sessions-Written (r ∷ rs) (m ∷ ms) h =
      let one = back (to_session_item r) m h.0 in
      let rest = unmarshal_sessions-Written rs ms h.1 in ground (arith, one, rest)

  -- When the index answers with items as they were written for a list of sessions, the listing is
  -- that list, in its order.
  pub list_by_user-Written :
      (user_id : String) (rs : List SessionRecord) (ms : List AttributeMap) (w w1 w2 : W) (now : ℕ)
      → rt.now w ≡ (now, w1)
      → db.query (list_request rt db codec format_int table_name user_id now) w1 ≡ (ok ms, w2)
      → Written codec rs ms
      → list_by_user rt db codec format_int table_name user_id w ≡ (ok rs, w2)
  unfolding list_by_user
  list_by_user-Written user_id rs ms w w1 w2 now n q h =
      let read = unmarshal_sessions-Written rs ms h in ground (arith, read)
