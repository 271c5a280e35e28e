-- ===== src/Api/Create.antt =====
-- `create_conversation_recording` of server/app/conversation_recording_api.py and
-- `create_session_recording` of server/app/session_audit_api.py, with `validate_call_report` of
-- server/app/audit_settings.py. The operator's number is not kept here.
use ivrdroid.Api.Voicemail.{is_revision}
use ivrdroid.Api.Segments.{call_ended_at, tolerance, same_text, same_number, Handled}
use ivrdroid.Api.Complete.{RecordingResponse, recording_response}
use ivrdroid.Api.{
  conference_unverified, timestamp_outside, block_absent, revision_mismatch, receipt_mismatch,
  no_audit_receipt, revision_unsuitable, call_of_other_device, metadata_reused, identity_reused,
  is_call, is_recording, other_device_conflict, call_not_terminal, call_unknown,
  duplicate_recording, find_by, use_continuous_api, found, policy_not_enabled, Checked,
  conversation, session_audit, uploading, Call, Db, Report, report_disabled, report_pending,
  same_kind, CallEvent, CallReport, Env, Kind, Recording, ReportState,
}
use ivrdroid.Base.{
  ℕ, suc, ◌+◌, max, String, List, [], ◌∷◌, Option, none, some, Bool, true, false, ◌&&◌, ◌||◌, not,
  if◌then◌else◌, ◌==◌, ltb, ok, guard, ◌>>=◌, ◌>>◌, str_eq,
}

-- `ConversationRecordingCreateRequest`.
pub record ConversationRequest : Type 0 where
  pub recording_id : String
  pub call_id : String
  pub revision_id : ℕ
  pub block_id : String
  pub captured_at : ℕ

-- `SessionAuditRecordingCreateRequest`.
pub record AuditRequest : Type 0 where
  pub recording_id : String
  pub call_id : String
  pub policy_version : ℕ
  pub captured_at : ℕ

-- `_external_instruction`: whether there is one.
unfoldable pub external_instruction : String → List (String × String) → Bool
external_instruction block_id [] = false
external_instruction block_id ((op, id) ∷ instructions) =
    (str_eq op "external_call" && str_eq id block_id) || external_instruction block_id instructions

abbrev earliest : ℕ → Option ℕ → Option ℕ
earliest at none = some at
earliest at (some other) = if ltb other at then some other else some at

-- `_conference_at`.
unfoldable pub conference_at : String → List CallEvent → Option ℕ
conference_at block_id [] = none
conference_at block_id (event ∷ events) =
    let rest = conference_at block_id events in
    if str_eq event.block_id block_id && event.is_conferenced
    then earliest event.occurred_at rest
    else rest

abbrev number_behind : Option ℕ → ℕ
number_behind none = 0
number_behind (some n) = suc n

-- The number behind the largest one of the call.
unfoldable pub next_sequence : String → String → List Recording → ℕ
next_sequence device_id call_id [] = 0
next_sequence device_id call_id (r ∷ recordings) =
    let rest = next_sequence device_id call_id recordings in
    if str_eq r.device_id device_id && str_eq r.call_id call_id
    then max (number_behind r.sequence) rest
    else rest

abbrev pub is_conversation_of : Recording → ConversationRequest → Bool
is_conversation_of r body =
    same_kind r.kind conversation
    && (str_eq r.call_id body.call_id
        && (same_number r.revision_id body.revision_id
            && (same_text r.block_id body.block_id && (r.captured_at == body.captured_at))))

-- The fields that both kinds of recordings start with.
unfoldable pub empty_recording :
    ℕ
    → String
    → String
    → String
    → Option ℕ
    → Option String
    → Option ℕ
    → Kind
    → Option Report
    → ℕ
    → String
    → Recording
empty_recording now id device_id call_id revision_id block_id sequence kind report captured_at
      stop_reason =
    record {
      id = id;
      device_id = device_id;
      call_id = call_id;
      revision_id = revision_id;
      block_id = block_id;
      sequence = sequence;
      kind = kind;
      audit_metadata = report;
      segment_count = 0;
      captured_at = captured_at;
      duration_ms = 0;
      stop_reason = stop_reason;
      source_size_bytes = 0;
      source_sha256 = "0000000000000000000000000000000000000000000000000000000000000000";
      status = uploading;
      is_legacy = true;
      partial = false;
      media = none;
      updated_at = now;
    }

abbrev pub has_audit : String → String → List Recording → Bool
has_audit device_id call_id [] = false
has_audit device_id call_id (r ∷ recordings) =
    (same_kind r.kind session_audit && (str_eq r.device_id device_id && str_eq r.call_id call_id))
    || has_audit device_id call_id recordings

abbrev is_enabled : ℕ → List (ℕ × Bool) → Bool
is_enabled version [] = false
is_enabled version ((v, enabled) ∷ policies) =
    if v == version then enabled else is_enabled version policies

abbrev has_acknowledged : String → ℕ → List (String × ℕ) → Bool
has_acknowledged device_id version [] = false
has_acknowledged device_id version ((d, v) ∷ rest) =
    (str_eq d device_id && (v == version)) || has_acknowledged device_id version rest

abbrev is_report_disabled : ReportState → Bool
is_report_disabled report_disabled = true
is_report_disabled _ = false

abbrev is_report_pending : ReportState → Bool
is_report_pending report_pending = true
is_report_pending _ = false

-- `validate_call_report`.
unfoldable pub validate_call_report : CallReport → Bool → String → Db → Checked (Unit {0})
validate_call_report report is_stock_dialer device_id db =
    guard
      (is_report_disabled report.state
        || (is_enabled report.report.policy_version db.policies
            && (not is_stock_dialer
                && has_acknowledged device_id report.report.policy_version db.acknowledgements)))
      policy_not_enabled

module _ (env : Env) where
  -- The tests of a conversation against its call and the signed revision.
  unfoldable pub check_conversation : String → ConversationRequest → Db → Checked (Unit {0})
  unfolding external_instruction conference_at
  check_conversation device_id body db = do
    call ← found call_unknown (find_by (is_call body.call_id) db.calls)
    guard (str_eq call.device_id device_id) call_of_other_device
    guard (not call.in_progress) call_not_terminal
    revision ← found revision_unsuitable (find_by (is_revision body.revision_id) db.revisions)
    guard (revision.schema_version == 4) revision_unsuitable
    guard (same_number call.revision_id body.revision_id) revision_mismatch
    guard (external_instruction body.block_id revision.instructions) block_absent
    at ← found conference_unverified (conference_at body.block_id call.events)
    guard
        (not (
          ltb (body.captured_at + tolerance) call.started_at
          || (ltb (call_ended_at call + tolerance) body.captured_at
              || (ltb (at + tolerance) call.started_at
                  || (ltb (call_ended_at call + tolerance) at
                      || ltb (body.captured_at + 1000000) at)))))
        timestamp_outside

  abbrev pub choose_conversation :
      String → ConversationRequest → Db → Option Recording → Handled RecordingResponse
  choose_conversation device_id body db none = do
    check_conversation device_id body db
    let sequence = next_sequence device_id body.call_id db.recordings
    let r =
        empty_recording env.now body.recording_id device_id body.call_id (some body.revision_id)
          (some body.block_id) (some sequence) conversation none body.captured_at
          "recording_failure"
    ok (record db { recordings = r ∷ db.recordings }, recording_response r)
  choose_conversation device_id body db (some r) = do
    guard r.is_legacy use_continuous_api
    guard (str_eq r.device_id device_id) other_device_conflict
    guard (is_conversation_of r body) metadata_reused
    ok (db, recording_response r)

  -- `create_conversation_recording`.
  unfoldable pub create_conversation_recording :
      String → ConversationRequest → Db → Handled RecordingResponse
  unfolding check_conversation next_sequence empty_recording recording_response
  create_conversation_recording device_id body db =
      choose_conversation device_id body db (find_by (is_recording body.recording_id) db.recordings)

  -- The tests of a session audit against the receipt of its call; they return the call and the receipt.
  unfoldable pub check_session : String → AuditRequest → Db → Checked (Call × CallReport)
  unfolding validate_call_report
  check_session device_id body db = do
    call ← found call_not_terminal (find_by (is_call body.call_id) db.calls)
    guard (not call.in_progress) call_not_terminal
    guard (str_eq call.device_id device_id) call_of_other_device
    report ← found no_audit_receipt call.session_audit
    validate_call_report report call.is_stock_dialer device_id db
    guard
        (is_report_pending report.state
          && (same_text report.recording_id body.recording_id
              && ((report.report.policy_version == body.policy_version)
                  && same_number report.captured_at body.captured_at)))
        receipt_mismatch
    guard
        (not (
          ltb (body.captured_at + tolerance) call.started_at
          || ltb (call_ended_at call + tolerance) body.captured_at))
        timestamp_outside
    ok (call, report)

  abbrev pub choose_session :
      String → AuditRequest → Call → CallReport → Db → Option Recording → Handled RecordingResponse
  choose_session device_id body call report db none = do
    guard (not (has_audit device_id body.call_id db.recordings)) duplicate_recording
    let r =
        empty_recording env.now body.recording_id device_id body.call_id call.revision_id none none
          session_audit (some report.report) body.captured_at report.report.stop_reason
    ok (record db { recordings = r ∷ db.recordings }, recording_response r)
  choose_session device_id body call report db (some r) = do
    guard r.is_legacy use_continuous_api
    guard
        (str_eq r.device_id device_id
          && (same_kind r.kind session_audit && str_eq r.call_id body.call_id))
        identity_reused
    ok (db, recording_response r)

  -- `create_session_recording`.
  unfoldable pub create_session_recording : String → AuditRequest → Db → Handled RecordingResponse
  unfolding check_session empty_recording recording_response
  create_session_recording device_id body db = do
    (call, report) ← check_session device_id body db
    choose_session device_id body call report db
        (find_by (is_recording body.recording_id) db.recordings)
