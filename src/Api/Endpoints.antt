-- ===== src/Api/Endpoints.antt =====
-- The endpoints of server/app/conversation_recording_api.py and session_audit_api.py by their names, and
-- the endpoints of the three interfaces that only read.
use ivrdroid.Api.Segments.{
  audit_receipt, conversation_receipt, create_segment, SegmentResponse, Handled, segment_response,
  SegmentRequest,
}
use ivrdroid.Api.Content.{complete_segment, upload_segment_content, ContentRequest}
use ivrdroid.Api.Complete.{complete_recording, RecordingResponse, recording_response}
use ivrdroid.Api.Voicemail.{find_upload, UploadResponse, as_upload_response, get_owned_recording}
use ivrdroid.Api.{
  Checked, Kind, Db, owned_segment, Env, owned_recording, conversation, session_audit,
}
use ivrdroid.Base.{ℕ, String, ok, ◌>>=◌}

module _ (env : Env) where
  -- The receipts of the two files are two constructors of `Receipt`.
  abbrev pub create_conversation_segment :
      String → String → ℕ → ℕ → String → SegmentRequest → Db → Handled SegmentResponse
  create_conversation_segment device_id recording_id segment_index revision_id block_id body db =
      create_segment env device_id recording_id segment_index
        (record body { receipt = conversation_receipt revision_id block_id }) db

  abbrev pub create_session_segment :
      String → String → ℕ → ℕ → SegmentRequest → Db → Handled SegmentResponse
  create_session_segment device_id recording_id segment_index policy_version body db =
      create_segment env device_id recording_id segment_index
        (record body { receipt = audit_receipt policy_version }) db

  abbrev pub upload_conversation_segment_content :
      String → String → ℕ → ContentRequest → Db → Handled SegmentResponse
  upload_conversation_segment_content = upload_segment_content env conversation

  abbrev pub upload_session_segment_content :
      String → String → ℕ → ContentRequest → Db → Handled SegmentResponse
  upload_session_segment_content = upload_segment_content env session_audit

  abbrev pub complete_conversation_segment : String → String → ℕ → Db → Db × Checked SegmentResponse
  complete_conversation_segment = complete_segment env conversation

  abbrev pub complete_session_segment : String → String → ℕ → Db → Db × Checked SegmentResponse
  complete_session_segment = complete_segment env session_audit

  abbrev pub complete_conversation_recording : String → String → ℕ → Db → Handled RecordingResponse
  complete_conversation_recording = complete_recording env conversation

  abbrev pub complete_session_recording : String → String → ℕ → Db → Handled RecordingResponse
  complete_session_recording = complete_recording env session_audit

-- `conversation_recording_status` and `session_recording_status`.
unfoldable pub recording_status : Kind → String → String → Db → Checked RecordingResponse
unfolding owned_recording recording_response
recording_status kind device_id recording_id db = do
  r ← owned_recording kind device_id recording_id db
  ok (recording_response r)

-- `conversation_segment_upload_status` and `session_segment_upload_status`.
unfoldable pub segment_upload_status : Kind → String → String → ℕ → Db → Checked SegmentResponse
unfolding owned_recording owned_segment segment_response
segment_upload_status kind device_id recording_id segment_index db = do
  r ← owned_recording kind device_id recording_id db
  s ← owned_segment r segment_index db
  ok (segment_response s)

-- `recording_upload_status`.
unfoldable pub recording_upload_status : String → String → Db → Checked UploadResponse
unfolding get_owned_recording as_upload_response
recording_upload_status device_id recording_id db = do
  r ← get_owned_recording device_id recording_id db
  ok (as_upload_response r (find_upload r.id db))
