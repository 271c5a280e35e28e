-- ===== src/Api/Segments.antt =====
-- The segment handlers of server/app/conversation_recording_api.py and session_audit_api.py: creation,
-- upload and completion of a segment. The two files differ in the checks of a receipt, the capacity
-- that they require and what a corrupt upload leaves.
use ivrdroid.Api.Quota.{require_capacity}
use ivrdroid.Api.{
  exceeds_duration_bound, timing_not_contiguous, timestamp_outside, is_call, call_not_terminal,
  found, is_segment, find_by, not_accepting_segments, already_complete, receipt_mismatch,
  index_mismatch, is_finished, metadata_reused, session_audit, Db, conversation, failed_segment,
  is_accepted, owned_recording, put_segment, uploading, uploading_segment, Call, Checked, Env, Kind,
  Report, Segment, SegmentStatus, Status, Recording,
}
use ivrdroid.Recordings.Upload.{Upload, written_stat}
use ivrdroid.Base.{
  ℕ, ◌+◌, ◌*◌, ◌-◌, max, String, [], ◌∷◌, Option, none, some, Bool, true, false, ◌&&◌, ◌||◌, not,
  if◌then◌else◌, ◌==◌, ltb, ok, guard, ◌>>=◌, ◌>>◌, str_eq,
}

-- What identifies the logical recording in the receipt of a segment.
pub data Receipt : Type 0 where
  conversation_receipt : ℕ → String → Receipt
  audit_receipt : ℕ → Receipt

abbrev pub kind_of : Receipt → Kind
kind_of (conversation_receipt _ _) = conversation
kind_of (audit_receipt _) = session_audit

-- `ConversationSegmentCreateRequest` and `SessionAuditSegmentCreateRequest`.
pub record SegmentRequest : Type 0 where
  pub receipt : Receipt
  pub recording_id : String
  pub call_id : String
  pub segment_index : ℕ
  pub captured_at : ℕ
  pub duration_ms : ℕ
  pub stop_reason : String
  pub partial : Bool
  pub expected_size_bytes : ℕ
  pub source_sha256 : String

pub record SegmentResponse : Type 0 where
  pub id : String
  pub segment_index : ℕ
  pub status : SegmentStatus
  pub upload_offset : ℕ
  pub expected_size_bytes : ℕ
  pub source_sha256 : String
  pub acknowledged : Bool

-- `_segment_response`.
unfoldable pub segment_response : Segment → SegmentResponse
segment_response s = record {
  id = s.recording_id;
  segment_index = s.segment_index;
  status = s.status;
  upload_offset = s.upload.upload_offset;
  expected_size_bytes = s.upload.expected_size_bytes;
  source_sha256 = s.upload.source_sha256;
  acknowledged = is_accepted s.status;
}

abbrev pub same_number : Option ℕ → ℕ → Bool
same_number none n = false
same_number (some m) n = m == n

abbrev pub same_text : Option String → String → Bool
same_text none s = false
same_text (some t) s = str_eq t s

abbrev has_policy_version : Option Report → ℕ → Bool
has_policy_version none n = false
has_policy_version (some report) n = report.policy_version == n

unfoldable pub receipt_matches : Receipt → Recording → Bool
receipt_matches (conversation_receipt revision_id block_id) r =
    same_number r.revision_id revision_id && same_text r.block_id block_id
receipt_matches (audit_receipt policy_version) r =
    has_policy_version r.audit_metadata policy_version

-- The comparison with a segment that is there.
unfoldable pub is_same : Segment → SegmentRequest → Bool
is_same s body =
    (s.captured_at == body.captured_at)
    && ((s.duration_ms == body.duration_ms)
        && (str_eq s.stop_reason body.stop_reason
            && ((if s.partial then body.partial else not body.partial)
                && ((s.upload.expected_size_bytes == body.expected_size_bytes)
                    && str_eq s.upload.source_sha256 body.source_sha256))))

-- A directory that `create_upload_directory` made for an upload of nothing yet.
unfoldable pub fresh_upload : ℕ → SegmentRequest → Upload
fresh_upload now body = record {
  upload_offset = 0;
  expected_size_bytes = body.expected_size_bytes;
  source_sha256 = body.source_sha256;
  updated_at = now;
  recording_updated_at = now;
  is_name = true;
  directory = some written_stat;
  files = [];
}

abbrev pub Handled : Type 0 → Type 0
Handled A = Checked (Db × A)

-- Five seconds, in microseconds.
abbrev pub tolerance : ℕ
tolerance = 5000000

abbrev pub call_ended_at : Call → ℕ
call_ended_at call = call.started_at + call.duration_seconds * 1000000

-- Audit segments follow each other every 15 seconds, within a tenth of a second.
unfoldable pub is_contiguous : Receipt → Recording → SegmentRequest → Bool
is_contiguous (conversation_receipt _ _) r body = true
is_contiguous (audit_receipt _) r body =
    let expected_at = r.captured_at + body.segment_index * 15000000 in
    not (ltb 100000 ((body.captured_at - expected_at) + (expected_at - body.captured_at)))

abbrev pub is_failed : SegmentStatus → Bool
is_failed failed_segment = true
is_failed _ = false

abbrev pub is_uploading : SegmentStatus → Bool
is_uploading uploading_segment = true
is_uploading _ = false

abbrev pub accepts_segments : Status → Bool
accepts_segments uploading = true
accepts_segments _ = false

module _ (env : Env) where
  -- The row of a failed segment that starts again.
  abbrev pub restarted_segment : Segment → Segment
  restarted_segment s = record s {
    status = uploading_segment;
    upload = record s.upload {
      upload_offset = 0;
      updated_at = env.now;
      recording_updated_at = env.now;
      is_name = true;
      directory = some written_stat;
      files = [];
    };
  }

  -- The branch of a segment that is there.
  unfoldable pub retry_segment : SegmentRequest → Segment → Db → Handled SegmentResponse
  unfolding is_same require_capacity fresh_upload put_segment segment_response
  retry_segment body s db = do
    guard (is_same s body) metadata_reused
    if is_failed s.status
        then (do
          require_capacity env (kind_of body.receipt) body.expected_size_bytes db
          let restarted = restarted_segment s
          ok (put_segment restarted db, segment_response restarted))
        else ok (db, segment_response s)

  -- The row of a new segment.
  abbrev pub new_segment : SegmentRequest → Recording → Segment
  new_segment body r = record {
    recording_id = r.id;
    segment_index = body.segment_index;
    captured_at = body.captured_at;
    duration_ms = body.duration_ms;
    stop_reason = body.stop_reason;
    partial = body.partial;
    status = uploading_segment;
    upload = fresh_upload env.now body;
  }

  -- The branch of a new segment.
  unfoldable pub add_segment : SegmentRequest → Recording → Db → Handled SegmentResponse
  unfolding require_capacity fresh_upload is_contiguous segment_response
  add_segment body r db = do
    guard (not (is_finished r.status)) already_complete
    guard (accepts_segments r.status) not_accepting_segments
    call ← found call_not_terminal (find_by (is_call r.call_id) db.calls)
    guard (not call.in_progress) call_not_terminal
    guard
        (not (
          ltb (body.captured_at + tolerance) (max call.started_at r.captured_at)
          || ltb (call_ended_at call + tolerance) body.captured_at))
        timestamp_outside
    guard (is_contiguous body.receipt r body) timing_not_contiguous
    guard
        (not (
          ltb env.settings.recording_upload_limit_bytes body.expected_size_bytes
          || ltb (44 + body.duration_ms * 192 + 4096) body.expected_size_bytes))
        exceeds_duration_bound
    require_capacity env (kind_of body.receipt) body.expected_size_bytes db
    let s = new_segment body r
    ok (record db { segments = s ∷ db.segments }, segment_response s)

  abbrev pub choose_segment :
      SegmentRequest → Recording → Db → Option Segment → Handled SegmentResponse
  choose_segment body r db none = add_segment body r db
  choose_segment body r db (some s) = retry_segment body s db

  -- `create_conversation_segment` and `create_session_segment`.
  unfoldable pub create_segment :
      String → String → ℕ → SegmentRequest → Db → Handled SegmentResponse
  unfolding owned_recording receipt_matches add_segment retry_segment
  create_segment device_id recording_id segment_index body db = do
    r ← owned_recording (kind_of body.receipt) device_id recording_id db
    guard (segment_index == body.segment_index) index_mismatch
    guard
        (str_eq body.recording_id r.id
          && (str_eq body.call_id r.call_id && receipt_matches body.receipt r))
        receipt_mismatch
    choose_segment body r db (find_by (is_segment r.id body.segment_index) db.segments)
