-- ===== src/Api.antt =====
-- The rows that server/app/recording_api.py, conversation_recording_api.py and session_audit_api.py read
-- and write, their errors, and the lookup of rows.
pub mod Quota
pub mod Segments
pub mod Content
pub mod Assembly
pub mod Complete
pub mod Voicemail
pub mod Retention
pub mod Create
pub mod Playback
pub mod Retry
pub mod Lifecycle
pub mod Endpoints
pub mod Handlers
pub mod Tests
pub mod Sums
pub mod Capacity
use ivrdroid.Recordings.{Bytes, RecordingError, status_code}
use ivrdroid.Recordings.Cipher.{Aead, RecordingCipher}
use ivrdroid.Recordings.Audio.{Tools}
use ivrdroid.Recordings.Upload.{Upload, File}
use ivrdroid.Base.{
  guard, ◌>>=◌, ◌>>◌, ℕ, zero, suc, ◌+◌, String, List, [], ◌∷◌, Option, none, some, Bool, true,
  false, ◌&&◌, if◌then◌else◌, ◌==◌, Result, ok, err, str_eq, map,
}

pub data Kind : Type 0 where
  voicemail conversation session_audit : Kind

abbrev pub same_kind : Kind → Kind → Bool
same_kind voicemail voicemail = true
same_kind conversation conversation = true
same_kind session_audit session_audit = true
same_kind _ _ = false

-- `Recording.status` and `ConversationRecordingSegment.status`.
pub data Status : Type 0 where
  uploading processing ready deleted failed : Status

pub data SegmentStatus : Type 0 where
  uploading_segment verified assembled failed_segment : SegmentStatus

-- The receipt that a call keeps of its session audit.
pub record Report : Type 0 where
  pub policy_version : ℕ
  pub duration_ms : ℕ
  pub partial : Bool
  pub stop_reason : String

-- The media columns, which are set and cleared together, with the file that is stored under the name:
-- the names of different rows differ. The name is a text in ASCII.
pub record Media : Type 0 where
  pub key_version : ℕ
  pub size_bytes : ℕ
  pub sha256 : String
  pub storage_name : Bytes
  pub file : Option File

-- A row of `Recording`; times are in microseconds. `is_legacy` is the format `legacy_wav`.
pub record Recording : Type 0 where
  pub id : String
  pub device_id : String
  pub call_id : String
  pub revision_id : Option ℕ
  pub block_id : Option String
  -- `none` stands for -1, the number of a session audit.
  pub sequence : Option ℕ
  pub kind : Kind
  pub audit_metadata : Option Report
  pub segment_count : ℕ
  pub captured_at : ℕ
  pub duration_ms : ℕ
  pub stop_reason : String
  pub source_size_bytes : ℕ
  pub source_sha256 : String
  pub status : Status
  pub is_legacy : Bool
  pub partial : Bool
  pub media : Option Media
  pub updated_at : ℕ

-- A row of `ConversationRecordingSegment`; the columns of its upload are those of `RecordingUpload`.
pub record Segment : Type 0 where
  pub recording_id : String
  pub segment_index : ℕ
  pub captured_at : ℕ
  pub duration_ms : ℕ
  pub stop_reason : String
  pub partial : Bool
  pub status : SegmentStatus
  pub upload : Upload

-- An event of an external call, as far as it is valid.
pub record CallEvent : Type 0 where
  pub block_id : String
  pub is_conferenced : Bool
  pub occurred_at : ℕ

-- `SessionAuditReport`, as a call keeps it.
pub data ReportState : Type 0 where
  report_disabled report_pending report_unavailable : ReportState

pub record CallReport : Type 0 where
  pub state : ReportState
  pub recording_id : Option String
  pub captured_at : Option ℕ
  pub report : Report

-- A row of `CallRecord`.
pub record Call : Type 0 where
  pub id : String
  pub device_id : String
  pub in_progress : Bool
  pub is_stock_dialer : Bool
  pub events : List CallEvent
  pub session_audit : Option CallReport
  pub revision_id : Option ℕ
  pub started_at : ℕ
  pub duration_seconds : ℕ

-- A row of `RecordingUpload`.
pub record Pending : Type 0 where
  pub recording_id : String
  pub upload : Upload

-- A row of `Revision`, with what is read of its manifest: operations with their block ids, whether there
-- is a finish key, and the limit of a recording.
pub record Revision : Type 0 where
  pub id : ℕ
  pub schema_version : ℕ
  pub instructions : List (String × String)
  pub has_finish_key : Bool
  pub maximum_duration_seconds : ℕ

-- `continuous` are the ids of the table `ContinuousRecording`.
pub record Db : Type 0 where
  pub recordings : List Recording
  pub uploads : List Pending
  pub segments : List Segment
  pub calls : List Call
  pub revisions : List Revision
  pub continuous : List String
  -- The versions of the audit policies with whether they are enabled, and the versions that a device
  -- has acknowledged.
  pub policies : List (ℕ × Bool)
  pub acknowledgements : List (String × ℕ)

pub record Settings : Type 0 where
  pub recording_quota_bytes : ℕ
  pub recording_upload_limit_bytes : ℕ
  pub recording_chunk_limit_bytes : ℕ
  pub audit_recording_quota_bytes : ℕ
  pub audit_recording_reserve_bytes : ℕ
  pub recording_abandoned_upload_hours : ℕ

-- What a request finds around it: the settings, the libraries, the clock, a random nonce, the text
-- `uuid4().hex` in ASCII, the bytes that are free on the disk, and whether the row of the retention policy is there.
pub record Env : Type 1 where
  pub settings : Settings
  pub aead : Aead
  pub cipher : RecordingCipher
  pub tools : Tools
  pub sha256 : Bytes → String
  -- The text `{recording.id}:{segment_index}`.
  pub segment_identity : String → ℕ → String
  pub now : ℕ
  pub nonce : Bytes
  pub uuid_hex : Bytes
  pub free_bytes : ℕ
  pub has_policy : Bool

-- The errors of the three interfaces.
pub data ApiError : Type 0 where
  recording_not_found other_device other_kind use_continuous_api segment_not_found : ApiError
  index_mismatch receipt_mismatch metadata_reused already_complete not_accepting_segments : ApiError
  call_not_terminal timestamp_outside timing_not_contiguous exceeds_duration_bound : ApiError
  storage_full offset_required wrong_content_type not_accepting_content : ApiError
  content_length_invalid chunk_exceeds_limit cannot_complete count_mismatch : ApiError
  audit_duration_disagrees audit_segment_too_short audit_termination_disagrees reserve_reached :
      ApiError
  upload_unavailable pending_recording other_device_conflict call_unknown call_of_other_device :
      ApiError
  revision_unsuitable revision_mismatch block_absent finish_key_disabled : ApiError
  duration_exceeds_limit maximum_too_early duplicate_recording : ApiError
  conference_unverified policy_not_enabled no_audit_receipt identity_reused : ApiError
  recording_error : RecordingError → ApiError

abbrev pub http_status : ApiError → ℕ
http_status recording_not_found = 404
http_status segment_not_found = 404
http_status other_device = 403
http_status timestamp_outside = 422
http_status timing_not_contiguous = 422
http_status exceeds_duration_bound = 413
http_status call_of_other_device = 403
http_status revision_unsuitable = 422
http_status block_absent = 422
http_status finish_key_disabled = 422
http_status duration_exceeds_limit = 422
http_status maximum_too_early = 422
http_status policy_not_enabled = 422
http_status storage_full = 507
http_status reserve_reached = 507
http_status offset_required = 400
http_status wrong_content_type = 415
http_status content_length_invalid = 400
http_status chunk_exceeds_limit = 413
http_status (recording_error e) = status_code e
http_status _ = 409

abbrev pub Checked : Type 0 → Type 0
Checked A = Result ApiError A

-- `raise HTTPException(error.status_code, str(error)) from error`.
abbrev pub raised {ℓ} : {A : Type ℓ} → Result RecordingError A → Result ApiError A
raised (ok value) = ok value
raised (err error) = err (recording_error error)

-- The first row that passes a test, and the rows with another in its place.
module _ {ℓ} {A : Type ℓ} (test : A → Bool) where
  abbrev pub find_by : List A → Option A
  find_by [] = none
  find_by (x ∷ xs) = if test x then some x else find_by xs

  abbrev pub replace_by : A → List A → List A
  replace_by y [] = []
  replace_by y (x ∷ xs) = if test x then y ∷ xs else x ∷ replace_by y xs

abbrev pub is_recording : String → Recording → Bool
is_recording recording_id r = str_eq r.id recording_id

abbrev pub is_segment : String → ℕ → Segment → Bool
is_segment recording_id segment_index s =
    str_eq s.recording_id recording_id && (s.segment_index == segment_index)

abbrev pub is_pending : String → Pending → Bool
is_pending recording_id p = str_eq p.recording_id recording_id

abbrev pub is_call : String → Call → Bool
is_call call_id c = str_eq c.id call_id

abbrev pub found {ℓ} : {A : Type ℓ} → ApiError → Option A → Result ApiError A
found error none = err error
found error (some x) = ok x

unfoldable pub put_recording : Recording → Db → Db
put_recording r db = record db { recordings = replace_by (is_recording r.id) r db.recordings }

unfoldable pub put_segment : Segment → Db → Db
put_segment s db = record db {
  segments = replace_by (is_segment s.recording_id s.segment_index) s db.segments;
}

abbrev pub is_accepted : SegmentStatus → Bool
is_accepted verified = true
is_accepted assembled = true
is_accepted _ = false

abbrev pub is_finished : Status → Bool
is_finished ready = true
is_finished deleted = true
is_finished _ = false

-- `_owned_recording` of both interfaces for segments.
unfoldable pub owned_recording : Kind → String → String → Db → Checked Recording
owned_recording kind device_id recording_id db = do
  r ← found recording_not_found (find_by (is_recording recording_id) db.recordings)
  guard (str_eq r.device_id device_id) other_device
  guard (same_kind r.kind kind) other_kind
  guard r.is_legacy use_continuous_api
  ok r

-- `_owned_segment`.
unfoldable pub owned_segment : Recording → ℕ → Db → Checked Segment
owned_segment r segment_index db =
    found segment_not_found (find_by (is_segment r.id segment_index) db.segments)
