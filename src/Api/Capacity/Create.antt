-- ===== src/Api/Capacity/Create.antt =====
-- New conversations and session audits against the quota of the recordings.
use ivrdroid.Api.Capacity.Segments.{Within}
use ivrdroid.Api.Complete.{RecordingResponse}
use ivrdroid.Api.Capacity.{used}
use ivrdroid.Api.{
  identity_reused, metadata_reused, session_audit, same_kind, duplicate_recording,
  other_device_conflict, is_recording, use_continuous_api, find_by, CallReport, Call, Recording, Db,
  Env,
}
use ivrdroid.Api.Create.{
  is_conversation_of, has_audit, check_conversation, check_session, choose_session,
  choose_conversation, AuditRequest, ConversationRequest, create_conversation_recording,
  create_session_recording, empty_recording,
}
use ivrdroid.Api.Quota.{recording_used_bytes}
use ivrdroid.Base.{
  ◌≡◌, ◌≤◌, String, Option, none, some, arith, subst, ok, guard-eq-ok, >>=-eq-ok, ok-first, not,
  ◌&&◌, str_eq,
}

module _ (env : Env) (db : Db) (fits : used db ≤ env.settings.recording_quota_bytes) where
  choose_conversation-Within :
      (device_id : String) (body : ConversationRequest) (o : Option Recording) (after : Db)
      (response : RecordingResponse)
      → choose_conversation env device_id body db o ≡ ok (after, response)
      → Within env db fits after
  unfolding empty_recording recording_used_bytes
  choose_conversation-Within device_id body none after response e =
      let (u, c1, e1) = >>=-eq-ok (check_conversation env device_id body db) _ e in
      subst (Within env db fits) (ok-first e1) (omega (arith, fits))
  choose_conversation-Within device_id body (some r) after response e =
      let (c1, e1) = guard-eq-ok r.is_legacy use_continuous_api _ e in
      let (c2, e2) = guard-eq-ok (str_eq r.device_id device_id) other_device_conflict _ e1 in
      let (c3, e3) = guard-eq-ok (is_conversation_of r body) metadata_reused _ e2 in
      subst (Within env db fits) (ok-first e3) fits

  pub create_conversation_recording-Within :
      (device_id : String) (body : ConversationRequest) (after : Db) (response : RecordingResponse)
      → create_conversation_recording env device_id body db ≡ ok (after, response)
      → Within env db fits after
  unfolding create_conversation_recording
  create_conversation_recording-Within device_id body after response e =
      choose_conversation-Within device_id body
        (find_by (is_recording body.recording_id) db.recordings) after response e

  choose_session-Within :
      (device_id : String) (body : AuditRequest) (call : Call) (report : CallReport)
      (o : Option Recording) (after : Db) (response : RecordingResponse)
      → choose_session env device_id body call report db o ≡ ok (after, response)
      → Within env db fits after
  unfolding empty_recording recording_used_bytes
  choose_session-Within device_id body call report none after response e =
      let (c1, e1) =
        guard-eq-ok (not (has_audit device_id body.call_id db.recordings)) duplicate_recording _
          e in
      subst (Within env db fits) (ok-first e1) (omega (arith, fits))
  choose_session-Within device_id body call report (some r) after response e =
      let (c1, e1) = guard-eq-ok r.is_legacy use_continuous_api _ e in
      let (c2, e2) =
        guard-eq-ok
          (str_eq r.device_id device_id
            && (same_kind r.kind session_audit && str_eq r.call_id body.call_id))
          identity_reused _ e1 in
      subst (Within env db fits) (ok-first e2) fits

  pub create_session_recording-Within :
      (device_id : String) (body : AuditRequest) (after : Db) (response : RecordingResponse)
      → create_session_recording env device_id body db ≡ ok (after, response)
      → Within env db fits after
  unfolding create_session_recording
  create_session_recording-Within device_id body after response e =
      let ((call, report), c1, e1) = >>=-eq-ok (check_session env device_id body db) _ e in
      choose_session-Within device_id body call report
        (find_by (is_recording body.recording_id) db.recordings) after response e1
