-- ===== src/Tests/Ids.antt =====
-- Client message ids.
use realtime_messaging_platf.Prelude.{◌≡◌, ◌≤◌, ◌<◌, ◌⊎◌, true, codes}
use realtime_messaging_platf.Domain.Errors.{Error, is, empty_id, invalid_id}
use realtime_messaging_platf.Effect.{ok, err}
use realtime_messaging_platf.Domain.Ids.{new_client_message_id, byte_length}
use realtime_messaging_platf.Domain.Ids.Laws.{new_client_message_id_cases}

new_client_message_id_cases_example :
    ((new_client_message_id "m-é" ≡ ok (record { value = "m-é" }))
      × (1 ≤ byte_length (codes "m-é"))
      × (byte_length (codes "m-é") ≤ 128))
    ⊎ ((e : Error) × (new_client_message_id "m-é" ≡ err e)
        × (((byte_length (codes "m-é") ≡ 0) × (is e empty_id ≡ true))
            ⊎ ((128 < byte_length (codes "m-é")) × (is e invalid_id ≡ true))))
new_client_message_id_cases_example = new_client_message_id_cases "m-é"
