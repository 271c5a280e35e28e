-- ===== src/Api/Handlers.antt =====
-- The requests to the three interfaces and the periodic tasks, and the rows after a sequence of them.
-- A request that is refused leaves the rows as they were, but for a session audit's segment that is
-- corrupt.
use ivrdroid.Api.Retention.{cleanup_abandoned_uploads, purge_expired_recordings, delete_recording}
use ivrdroid.Api.Complete.{complete_recording}
use ivrdroid.Api.Create.{
  create_session_recording, AuditRequest, create_conversation_recording, ConversationRequest,
}
use ivrdroid.Api.Segments.{create_segment, SegmentRequest, Handled}
use ivrdroid.Api.Content.{complete_segment, upload_segment_content, ContentRequest}
use ivrdroid.Api.{Kind, Db, Env}
use ivrdroid.Api.Voicemail.{
  complete_voicemail, upload_recording_content, RecordingRequest, create_recording,
}
use ivrdroid.Base.{ℕ, String, List, [], ◌∷◌, Option, ok, err}

pub data Request : Type 0 where
  create_recording_request : String → RecordingRequest → Request
  upload_recording_request : String → String → ContentRequest → Request
  complete_voicemail_request : String → String → Request
  create_conversation_request : String → ConversationRequest → Request
  create_session_request : String → AuditRequest → Request
  create_segment_request : String → String → ℕ → SegmentRequest → Request
  upload_segment_request : Kind → String → String → ℕ → ContentRequest → Request
  complete_segment_request : Kind → String → String → ℕ → Request
  complete_recording_request : Kind → String → String → ℕ → Request
  delete_request : String → Request
  purge_request : Option ℕ → Request
  cleanup_request : Request

-- The rows that are committed; an exception rolls the session back.
abbrev pub committed : {A : Type 0} → Db → Handled A → Db
committed db (ok (after, reply)) = after
committed db (err error) = db

unfoldable pub handle : Env → Request → Db → Db
unfolding create_recording upload_recording_content complete_voicemail create_conversation_recording
    create_session_recording create_segment upload_segment_content complete_segment
    complete_recording delete_recording purge_expired_recordings cleanup_abandoned_uploads
handle env (create_recording_request device body) db =
    committed db (create_recording env device body db)
handle env (upload_recording_request device id request) db =
    committed db (upload_recording_content env device id request db)
handle env (complete_voicemail_request device id) db =
    committed db (complete_voicemail env device id db)
handle env (create_conversation_request device body) db =
    committed db (create_conversation_recording env device body db)
handle env (create_session_request device body) db =
    committed db (create_session_recording env device body db)
handle env (create_segment_request device id index body) db =
    committed db (create_segment env device id index body db)
handle env (upload_segment_request kind device id index request) db =
    committed db (upload_segment_content env kind device id index request db)
handle env (complete_segment_request kind device id index) db =
    (complete_segment env kind device id index db).0
handle env (complete_recording_request kind device id count) db =
    committed db (complete_recording env kind device id count db)
handle env (delete_request id) db = committed db (delete_recording env id db)
handle env (purge_request days) db = purge_expired_recordings env days db
handle env cleanup_request db = cleanup_abandoned_uploads env db

-- One request behind the other, each with what it finds around it.
unfoldable pub serve : List (Env × Request) → Db → Db
unfolding handle
serve [] db = db
serve ((env, request) ∷ requests) db = serve requests (handle env request db)
