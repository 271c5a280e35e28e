-- ===== src/Api/Lifecycle/Requests.antt =====
-- Sequences of requests and the acknowledgements.
use ivrdroid.Api.Retention.{delete_recording}
use ivrdroid.Api.Complete.{complete_recording}
use ivrdroid.Api.Content.{upload_segment_content}
use ivrdroid.Api.Lifecycle.Segments.{
  complete_segment-Keeps, upload_segment_content-Keeps, create_segment-Keeps,
}
use ivrdroid.Api.Lifecycle.Retention.{
  cleanup_abandoned_uploads-Keeps, purge_expired_recordings-Keeps, delete_recording-Keeps,
  create_session_recording-Keeps, create_conversation_recording-Keeps,
}
use ivrdroid.Api.Create.{create_session_recording, create_conversation_recording}
use ivrdroid.Api.Lifecycle.Recordings.{
  complete_recording-Keeps, complete_voicemail-Keeps, upload_recording_content-Keeps,
  create_recording-Keeps,
}
use ivrdroid.Api.Voicemail.{complete_voicemail, upload_recording_content, create_recording}
use ivrdroid.Api.Segments.{create_segment, Handled}
use ivrdroid.Api.Lifecycle.{
  Keeps-trans, Keeps-same, Keeps, acknowledged_recording, acknowledged_segment,
}
use ivrdroid.Api.{Db, Env}
use ivrdroid.Api.Handlers.{
  cleanup_request, purge_request, delete_request, complete_recording_request,
  complete_segment_request, upload_segment_request, create_segment_request, create_session_request,
  create_conversation_request, complete_voicemail_request, upload_recording_request,
  create_recording_request, handle, serve, committed, Request,
}
use ivrdroid.Base.{ℕ, ◌≡◌, String, List, [], ◌∷◌, true, refl, ok, err}

committed-Keeps :
    {A : Type 0} (db : Db) (answer : Handled A)
    → ((after : Db) (reply : A) → answer ≡ ok (after, reply) → Keeps db after)
    → Keeps db (committed db answer)
committed-Keeps db (ok (after, reply)) h = h after reply refl
committed-Keeps db (err error) h = Keeps-same db

handle-Keeps : (env : Env) (request : Request) (db : Db) → Keeps db (handle env request db)
unfolding handle
handle-Keeps env (create_recording_request device body) db =
    committed-Keeps db (create_recording env device body db)
      (create_recording-Keeps env db device body)
handle-Keeps env (upload_recording_request device id request) db =
    committed-Keeps db (upload_recording_content env device id request db)
      (upload_recording_content-Keeps env db device id request)
handle-Keeps env (complete_voicemail_request device id) db =
    committed-Keeps db (complete_voicemail env device id db)
      (complete_voicemail-Keeps env db device id)
handle-Keeps env (create_conversation_request device body) db =
    committed-Keeps db (create_conversation_recording env device body db)
      (create_conversation_recording-Keeps env db device body)
handle-Keeps env (create_session_request device body) db =
    committed-Keeps db (create_session_recording env device body db)
      (create_session_recording-Keeps env db device body)
handle-Keeps env (create_segment_request device id index body) db =
    committed-Keeps db (create_segment env device id index body db)
      (create_segment-Keeps env db device id index body)
handle-Keeps env (upload_segment_request kind device id index request) db =
    committed-Keeps db (upload_segment_content env kind device id index request db)
      (upload_segment_content-Keeps env db kind device id index request)
handle-Keeps env (complete_segment_request kind device id index) db =
    complete_segment-Keeps env db kind device id index
handle-Keeps env (complete_recording_request kind device id count) db =
    committed-Keeps db (complete_recording env kind device id count db)
      (complete_recording-Keeps env db kind device id count)
handle-Keeps env (delete_request id) db =
    committed-Keeps db (delete_recording env id db) (delete_recording-Keeps env db id)
handle-Keeps env (purge_request days) db = purge_expired_recordings-Keeps env db days
handle-Keeps env cleanup_request db = cleanup_abandoned_uploads-Keeps env db

serve-Keeps : (requests : List (Env × Request)) (db : Db) → Keeps db (serve requests db)
unfolding serve
serve-Keeps [] db = Keeps-same db
serve-Keeps ((env, request) ∷ requests) db =
    Keeps-trans db (handle env request db) (serve requests (handle env request db))
      (handle-Keeps env request db) (serve-Keeps requests (handle env request db))

-- A segment that is acknowledged to its device is acknowledged after any sequence of requests, whoever
-- sends them: neither a repeated upload, nor a failed completion, nor the clean-up takes it back.
pub acknowledged_segment-serve :
    (requests : List (Env × Request)) (db : Db) (id : String) (index : ℕ)
    → acknowledged_segment id index db ≡ true
    → acknowledged_segment id index (serve requests db) ≡ true
acknowledged_segment-serve requests db id index v = (serve-Keeps requests db).segments id index v

-- A recording that is acknowledged to its device is acknowledged after any sequence of requests, also
-- when it was deleted or has expired.
pub acknowledged_recording-serve :
    (requests : List (Env × Request)) (db : Db) (id : String)
    → acknowledged_recording id db ≡ true
    → acknowledged_recording id (serve requests db) ≡ true
acknowledged_recording-serve requests db id v = (serve-Keeps requests db).recordings id v
