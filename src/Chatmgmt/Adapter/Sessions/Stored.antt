-- ===== src/Chatmgmt/Adapter/Sessions/Stored.antt =====
-- The store of sessions in DynamoDB under the flow of a refresh.
use realtime_messaging_platf.Prelude.{
  ℕ, ◌≡◌, refl, ap, ◌∙◌, true, false, String, str_eq, Option, none, some, arith, lookup, [], ◌∷◌,
}
use realtime_messaging_platf.Effect.{Result, ok, err, labelled-ok}
use realtime_messaging_platf.Auth.Runtime.{Runtime}
use realtime_messaging_platf.Dynamo.{
  AttributeMap, AttributeValue, text, number, Client, Codec, GetItemInput, UpdateItemInput,
}
use realtime_messaging_platf.Chatmgmt.App.{SessionRecord, SessionUpdate}
use realtime_messaging_platf.Chatmgmt.App.Contract.{updated}
use realtime_messaging_platf.Chatmgmt.Adapter.Sessions.{
  SessionItem, from_session_item, unmarshal_session, session_of, get_by_id, update, session_request,
  update_request,
}

-- The attributes after the update of a rotation: five have the values of their placeholders, and
-- the others stay.
pub record Assigned (m m' : AttributeMap) (rth gen pth ea ttl : AttributeValue) : Type 0 where
  pub refresh_token_hash : lookup "refresh_token_hash" m' ≡ some rth
  pub token_generation : lookup "token_generation" m' ≡ some gen
  pub prev_token_hash : lookup "prev_token_hash" m' ≡ some pth
  pub expires_at : lookup "expires_at" m' ≡ some ea
  pub ttl_at : lookup "ttl" m' ≡ some ttl
  pub others :
      (name : String)
      → str_eq "refresh_token_hash" name ≡ false
      → str_eq "token_generation" name ≡ false
      → str_eq "prev_token_hash" name ≡ false
      → str_eq "expires_at" name ≡ false
      → str_eq "ttl" name ≡ false
      → lookup name m' ≡ lookup name m

-- What the store relies on of the database, in one table whose key is the session id, and of the
-- conversion of structs, which reads every field from its own attribute.
pub record SessionTable {W : Type 0} (db : Client W) (codec : Codec SessionItem)
    (format_int : ℕ → String) (table_name : String) : Type 0 where
  pub item_at : W → String → Option AttributeMap
  pub get_ok :
      (request : GetItemInput) (w w' : W) (id : String) (m : Option AttributeMap)
      → request.table_name ≡ table_name
      → request.key ≡ ("session_id", text id) ∷ []
      → request.consistent_read ≡ true
      → db.get_item request w ≡ (ok m, w')
      → m ≡ item_at w id
  pub get_keeps : (request : GetItemInput) (w : W) → item_at (db.get_item request w).1 ≡ item_at w
  pub set_ok :
      (request : UpdateItemInput) (w w' : W) (id : String) (m : AttributeMap)
      (rth gen pth ea ttl : AttributeValue)
      → request.table_name ≡ table_name
      → request.key ≡ ("session_id", text id) ∷ []
      → request.update_expression
        ≡ "SET refresh_token_hash = :rth, token_generation = :gen, prev_token_hash = :pth, expires_at = :ea, #ttl = :ttl"
      → request.condition_expression ≡ ""
      → request.expression_attribute_names ≡ ("#ttl", "ttl") ∷ []
      → request.expression_attribute_values
        ≡ (":rth", rth) ∷ (":gen", gen) ∷ (":pth", pth) ∷ (":ea", ea) ∷ (":ttl", ttl) ∷ []
      → db.update_item request w ≡ (ok tt, w')
      → item_at w id ≡ some m
      → (m' : AttributeMap) × (item_at w' id ≡ some m') × Assigned m m' rth gen pth ea ttl
  pub decodes :
      (m m' : AttributeMap) (item : SessionItem) (hash prev expires_at : String)
      (generation ttl : ℕ)
      → codec.unmarshal_map m ≡ ok item
      → Assigned m m'
          (text hash)
          (number (format_int generation))
          (text prev)
          (text expires_at)
          (number (format_int ttl))
      → codec.unmarshal_map m'
        ≡ ok (record item {
          refresh_token_hash = hash;
          token_generation = generation;
          prev_token_hash = prev;
          expires_at = expires_at;
          ttl = ttl;
        })

abbrev pub option_of : {A : Type 0} → Result A → Option A
option_of (ok a) = some a
option_of (err e) = none

pub option_of-some : {A : Type 0} (x : Result A) (a : A) → option_of x ≡ some a → x ≡ ok a
option_of-some (ok x) a h = ground arith
option_of-some (err e) a h = absurd (ground arith)

module _ {W : Type 0} (rt : Runtime W) (db : Client W) (codec : Codec SessionItem)
    (format_int : ℕ → String) (table_name : String)
    (t : SessionTable db codec format_int table_name) where
  -- The session that a read of the id would give.
  abbrev pub row : W → String → Option SessionRecord
  row w id = option_of (session_of rt db codec format_int table_name (t.item_at w id))

  pub row_cong : (w w' : W) → t.item_at w' ≡ t.item_at w → row w' ≡ row w
  row_cong w w' e = λ i id. option_of (session_of rt db codec format_int table_name (e i id))

  get_by_id-row_of :
      (id : String) (w w' : W) (r : SessionRecord) (found : Result (Option AttributeMap))
      → (db.get_item (session_request rt db codec format_int table_name id) w).0 ≡ found
      → get_by_id rt db codec format_int table_name id w ≡ (ok r, w')
      → row w id ≡ some r
  unfolding get_by_id session_request
  get_by_id-row_of id w w' r (err e) f g = absurd (ground arith)
  get_by_id-row_of id w w' r (ok m) f g =
      let request = session_request rt db codec format_int table_name id in
      let w1 = (db.get_item request w).1 in
      let at = t.get_ok request w w1 id m refl refl refl (ground arith) in
      let read : session_of rt db codec format_int table_name m ≡ ok r = ground arith in
      ground (arith, at, read)

  pub get_by_id-row :
      (id : String) (w w' : W) (r : SessionRecord)
      → get_by_id rt db codec format_int table_name id w ≡ (ok r, w')
      → row w id ≡ some r
  get_by_id-row id w w' r g =
      get_by_id-row_of id w w' r
        (db.get_item (session_request rt db codec format_int table_name id) w).0 refl g

  pub get_by_id-keeps :
      (id : String) (w : W)
      → t.item_at (get_by_id rt db codec format_int table_name id w).1 ≡ t.item_at w
  unfolding get_by_id
  get_by_id-keeps id w =
      ground (arith, t.get_keeps (session_request rt db codec format_int table_name id) w)

  unmarshal_session-inv :
      (m : AttributeMap) (r : SessionRecord) (read : Result SessionItem)
      → codec.unmarshal_map m ≡ read
      → unmarshal_session rt db codec format_int table_name m ≡ ok r
      → (item : SessionItem) × (codec.unmarshal_map m ≡ ok item) × (from_session_item item ≡ r)
  unfolding unmarshal_session
  unmarshal_session-inv m r (err e) d h = absurd (ground arith)
  unmarshal_session-inv m r (ok item) d h = (item, d, ground arith)

  update-row_of :
      (id : String) (u : SessionUpdate) (w w' : W) (r : SessionRecord) (found : Option AttributeMap)
      → t.item_at w id ≡ found
      → option_of (session_of rt db codec format_int table_name found) ≡ some r
      → update rt db codec format_int table_name id u w ≡ (ok tt, w')
      → row w' id ≡ some (updated u r)
  unfolding update update_request session_of unmarshal_session from_session_item
  update-row_of id u w w' r none a at g = absurd (ground arith)
  update-row_of id u w w' r (some m) a at g =
      let (item, d, is) =
        unmarshal_session-inv m r (codec.unmarshal_map m) refl
          (option_of-some (unmarshal_session rt db codec format_int table_name m) r at) in
      let request = update_request rt db codec format_int table_name id u in
      let set : db.update_item request w ≡ (ok tt, w') =
        ground (arith, labelled-ok "session store: update" (db.update_item request w).0 tt) in
      let (m', at', assigned) =
        t.set_ok request w w' id m (text u.refresh_token_hash)
          (number (format_int u.token_generation)) (text u.prev_token_hash) (text u.expires_at)
          (number (format_int u.ttl)) refl refl refl refl refl refl set a in
      let read =
        t.decodes m m' item u.refresh_token_hash u.prev_token_hash u.expires_at u.token_generation
          u.ttl d assigned in
      ground (arith, at', read, is)

  pub update-row :
      (id : String) (u : SessionUpdate) (w w' : W) (r : SessionRecord)
      → row w id ≡ some r
      → update rt db codec format_int table_name id u w ≡ (ok tt, w')
      → row w' id ≡ some (updated u r)
  update-row id u w w' r = update-row_of id u w w' r (t.item_at w id) refl

  pub get_by_id_of_row :
      (id : String) (w w2 : W) (r : SessionRecord) (found : Option AttributeMap)
      → row w id ≡ some r
      → db.get_item (session_request rt db codec format_int table_name id) w ≡ (ok found, w2)
      → get_by_id rt db codec format_int table_name id w ≡ (ok r, w2)
  unfolding get_by_id session_request
  get_by_id_of_row id w w2 r found at g =
      let same =
        t.get_ok (session_request rt db codec format_int table_name id) w w2 id found refl refl refl
          g in
      let read = option_of-some (session_of rt db codec format_int table_name found) r (
        ap (λ (x : Option AttributeMap). option_of (session_of rt db codec format_int table_name x))
          same
        ∙ at) in
      ground (arith, read)
