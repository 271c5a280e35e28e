-- ===== src/Api/Voicemail.antt =====
-- The handlers of server/app/recording_api.py that a device calls, and `finalize_recording` of
-- server/app/recording_service.py.
use ivrdroid.Api.Complete.{shown}
use ivrdroid.Api.Quota.{recording_used_bytes, require_recording_capacity}
use ivrdroid.Api.Content.{ContentRequest, read_bounded_chunk}
use ivrdroid.Api.Segments.{tolerance, accepts_segments, Handled, same_text, same_number}
use ivrdroid.Api.{
  failed, exceeds_duration_bound, maximum_too_early, duration_exceeds_limit, finish_key_disabled,
  block_absent, revision_mismatch, revision_unsuitable, timestamp_outside, call_of_other_device,
  raised, is_call, metadata_reused, other_device, ready, upload_unavailable, uploading,
  wrong_content_type, call_unknown, cannot_complete, not_accepting_content, offset_required,
  other_device_conflict, recording_not_found, voicemail, duplicate_recording, found, is_finished,
  is_pending, is_recording, replace_by, use_continuous_api, Checked, Pending, find_by,
  put_recording, Db, Env, Recording, Revision, Status,
}
use ivrdroid.Recordings.{quota_full, policy_unavailable, Bytes}
use ivrdroid.Recordings.Cipher.{Out, encrypt_media}
use ivrdroid.Recordings.Upload.{
  rec_suffix, rec_suffix, rec_suffix, rec_suffix, rec_suffix, rec_suffix, rec_suffix, rec_suffix,
  rec_suffix, rec_suffix, rec_suffix, rec_suffix, rec_suffix, rec_suffix, rec_suffix, rec_suffix,
  rec_suffix, rec_suffix, rec_suffix, rec_suffix, rec_suffix, rec_suffix, rec_suffix, rec_suffix,
  rec_suffix, rec_suffix, rec_suffix, rec_suffix, rec_suffix, rec_suffix, Upload, read_uploaded_wav,
  store_chunk, written_stat,
}
use ivrdroid.Recordings.Audio.{inspect_caller_wav, transcode_voicemail, WavDetails}
use ivrdroid.Base.{
  ◌++◌, ℕ, ◌+◌, ◌*◌, String, List, [], ◌∷◌, Option, none, some, Bool, true, false, ◌&&◌, ◌||◌, not,
  if◌then◌else◌, ◌==◌, length, ltb, ok, guard, ◌>>=◌, ◌>>◌, str_eq,
}

-- `RecordingCreateRequest`.
pub record RecordingRequest : Type 0 where
  pub recording_id : String
  pub call_id : String
  pub revision_id : ℕ
  pub block_id : String
  pub sequence : ℕ
  pub captured_at : ℕ
  pub duration_ms : ℕ
  pub stop_reason : String
  pub expected_size_bytes : ℕ
  pub source_sha256 : String

pub record UploadResponse : Type 0 where
  pub id : String
  pub status : Status
  pub upload_offset : ℕ
  pub expected_size_bytes : ℕ
  pub source_sha256 : String
  pub acknowledged : Bool

abbrev offset_of : Option Upload → ℕ
offset_of none = 0
offset_of (some up) = up.upload_offset

abbrev expected_of : Recording → Option Upload → ℕ
expected_of r none = r.source_size_bytes
expected_of r (some up) = up.expected_size_bytes

-- `_as_upload_response`.
unfoldable pub as_upload_response : Recording → Option Upload → UploadResponse
as_upload_response r upload = record {
  id = r.id;
  status = shown r.status;
  upload_offset = offset_of upload;
  expected_size_bytes = expected_of r upload;
  source_sha256 = r.source_sha256;
  acknowledged = is_finished r.status;
}

-- `_get_owned_recording`: the kind is not looked at.
unfoldable pub get_owned_recording : String → String → Db → Checked Recording
get_owned_recording device_id recording_id db = do
  r ← found recording_not_found (find_by (is_recording recording_id) db.recordings)
  guard (str_eq r.device_id device_id) other_device
  guard r.is_legacy use_continuous_api
  ok r

unfoldable pub is_same_recording : Recording → RecordingRequest → Bool
is_same_recording r body =
    str_eq r.call_id body.call_id
    && (same_number r.revision_id body.revision_id
        && (same_text r.block_id body.block_id
            && (same_number r.sequence body.sequence
                && ((r.duration_ms == body.duration_ms)
                    && (str_eq r.stop_reason body.stop_reason
                        && ((r.source_size_bytes == body.expected_size_bytes)
                            && str_eq r.source_sha256 body.source_sha256))))))

-- `_recording_instruction_exists`.
unfoldable pub recording_instruction_exists : String → List (String × String) → Bool
recording_instruction_exists block_id [] = false
recording_instruction_exists block_id ((op, id) ∷ instructions) =
    (str_eq op "record_message" && str_eq id block_id)
    || recording_instruction_exists block_id instructions

unfoldable pub upload_for : ℕ → ℕ → String → Upload
upload_for now size sha256 = record {
  upload_offset = 0;
  expected_size_bytes = size;
  source_sha256 = sha256;
  updated_at = now;
  recording_updated_at = now;
  is_name = true;
  directory = some written_stat;
  files = [];
}

abbrev pub is_revision : ℕ → Revision → Bool
is_revision id revision = revision.id == id

-- The unique constraint on the device, the call and the sequence.
unfoldable pub takes_step : String → RecordingRequest → List Recording → Bool
takes_step device_id body [] = false
takes_step device_id body (r ∷ recordings) =
    (str_eq r.device_id device_id
      && (str_eq r.call_id body.call_id && same_number r.sequence body.sequence))
    || takes_step device_id body recordings

abbrev pub find_upload : String → Db → Option Upload
find_upload recording_id db = elim (find_by (is_pending recording_id) db.uploads) [
  | none ↦ none
  | some p ↦ some p.upload
]

-- `session.delete(upload)`: the id is the key of the table.
unfoldable pub delete_upload : String → List Pending → List Pending
delete_upload recording_id [] = []
delete_upload recording_id (p ∷ uploads) =
    let rest = delete_upload recording_id uploads in
    if is_pending recording_id p then rest else p ∷ rest

module _ (env : Env) where
  abbrev pub is_restartable : Status → Option Upload → Bool
  is_restartable failed none = true
  is_restartable _ _ = false

  -- The branch of a recording that is there.
  unfoldable pub retry_recording :
      String → RecordingRequest → Recording → Db → Handled UploadResponse
  unfolding is_same_recording require_recording_capacity upload_for put_recording as_upload_response
  retry_recording device_id body r db = do
    guard r.is_legacy use_continuous_api
    guard (str_eq r.device_id device_id) other_device_conflict
    guard (is_same_recording r body) metadata_reused
    let upload = find_upload body.recording_id db
    if is_restartable r.status upload
        then (do
          require_recording_capacity env body.expected_size_bytes db
          let restarted : Recording = record r { status = uploading; updated_at = env.now }
          let up = upload_for env.now body.expected_size_bytes body.source_sha256
          let stored = put_recording restarted db
          ok (
            record stored { uploads = (record { recording_id = r.id; upload = up }) ∷ db.uploads },
            as_upload_response restarted (some up),
          ))
        else ok (db, as_upload_response r upload)

  -- The tests of a receipt against its call and the signed revision.
  unfoldable pub check_receipt : String → RecordingRequest → Db → Checked (Unit {0})
  unfolding recording_instruction_exists
  check_receipt device_id body db = do
    call ← found call_unknown (find_by (is_call body.call_id) db.calls)
    guard (str_eq call.device_id device_id) call_of_other_device
    guard
        (not (
          ltb (body.captured_at + tolerance) call.started_at
          || (ltb (call.started_at + 600000000) body.captured_at
              || ltb (env.now + 300000000) body.captured_at)))
        timestamp_outside
    revision ← found revision_unsuitable (find_by (is_revision body.revision_id) db.revisions)
    guard ((revision.schema_version == 3) || (revision.schema_version == 4)) revision_unsuitable
    guard (same_number call.revision_id body.revision_id) revision_mismatch
    guard (recording_instruction_exists body.block_id revision.instructions) block_absent
    guard (not (str_eq body.stop_reason "finish_key" && not revision.has_finish_key))
        finish_key_disabled
    let signed_maximum_ms = revision.maximum_duration_seconds * 1000
    guard (not (ltb signed_maximum_ms body.duration_ms)) duration_exceeds_limit
    guard
        (not (
          str_eq body.stop_reason "maximum_duration"
          && ltb (body.duration_ms + 100) signed_maximum_ms))
        maximum_too_early
    guard
        (not (
          ltb env.settings.recording_upload_limit_bytes body.expected_size_bytes
          || ltb (44 + body.duration_ms * 192 + 4096) body.expected_size_bytes))
        exceeds_duration_bound

  -- The row of a new recording.
  abbrev pub new_recording : String → RecordingRequest → Recording
  new_recording device_id body = record {
    id = body.recording_id;
    device_id = device_id;
    call_id = body.call_id;
    revision_id = some body.revision_id;
    block_id = some body.block_id;
    sequence = some body.sequence;
    kind = voicemail;
    audit_metadata = none;
    segment_count = 0;
    captured_at = body.captured_at;
    duration_ms = body.duration_ms;
    stop_reason = body.stop_reason;
    source_size_bytes = body.expected_size_bytes;
    source_sha256 = body.source_sha256;
    status = uploading;
    is_legacy = true;
    partial = false;
    media = none;
    updated_at = env.now;
  }

  -- The branch of a new recording.
  unfoldable pub add_recording : String → RecordingRequest → Db → Handled UploadResponse
  unfolding check_receipt require_recording_capacity upload_for takes_step as_upload_response
  add_recording device_id body db = do
    check_receipt device_id body db
    require_recording_capacity env body.expected_size_bytes db
    guard (not (takes_step device_id body db.recordings)) duplicate_recording
    let r = new_recording device_id body
    let up = upload_for env.now body.expected_size_bytes body.source_sha256
    ok (
      record db {
        recordings = r ∷ db.recordings;
        uploads = (record { recording_id = body.recording_id; upload = up }) ∷ db.uploads;
      },
      as_upload_response r (some up),
    )

  abbrev pub choose_recording :
      String → RecordingRequest → Db → Option Recording → Handled UploadResponse
  choose_recording device_id body db none = add_recording device_id body db
  choose_recording device_id body db (some r) = retry_recording device_id body r db

  -- `create_recording`.
  unfoldable pub create_recording : String → RecordingRequest → Db → Handled UploadResponse
  unfolding add_recording retry_recording
  create_recording device_id body db =
      choose_recording device_id body db (find_by (is_recording body.recording_id) db.recordings)

  abbrev pub put_upload : Pending → Db → Db
  put_upload p db = record db { uploads = replace_by (is_pending p.recording_id) p db.uploads }

  -- The branch of a recording that is not finished.
  unfoldable pub receive_recording : Recording → ℕ → ContentRequest → Db → Handled UploadResponse
  unfolding read_bounded_chunk store_chunk put_recording as_upload_response
  receive_recording r offset request db = do
    guard (accepts_segments r.status) not_accepting_content
    p ← found upload_unavailable (find_by (is_pending r.id) db.uploads)
    body ← read_bounded_chunk env.settings.recording_chunk_limit_bytes request
    upload ← raised (
        store_chunk env.aead env.cipher r.id env.settings.recording_chunk_limit_bytes env.nonce
          env.now (record p.upload { recording_updated_at = r.updated_at }) offset body)
    let touched : Recording = record r { updated_at = upload.recording_updated_at }
    ok (
      put_upload (record p { upload = upload }) (put_recording touched db),
      as_upload_response touched (some upload),
    )

  -- `upload_recording_content`.
  unfoldable pub upload_recording_content :
      String → String → ContentRequest → Db → Handled UploadResponse
  unfolding get_owned_recording receive_recording as_upload_response
  upload_recording_content device_id recording_id request db = do
    offset ← found offset_required request.upload_offset
    guard request.is_offset_stream wrong_content_type
    r ← get_owned_recording device_id recording_id db
    if is_finished r.status
        then ok (db, as_upload_response r none)
        else receive_recording r offset request db

  -- The row of a recording whose media is stored.
  abbrev pub final_recording : Recording → WavDetails → Bytes → Bytes → Recording
  final_recording r details encoded encrypted = record r {
    duration_ms = details.duration_ms;
    media = some (record {
      key_version = env.cipher.version;
      size_bytes = length encrypted;
      sha256 = env.sha256 encoded;
      storage_name = env.uuid_hex ++ rec_suffix;
      file = some (record { stat = written_stat; payload = encrypted });
    });
    status = ready;
    updated_at = env.now;
  }

  -- `finalize_recording`: the row of the recording that is ready.
  unfoldable pub finalize_recording : Recording → Upload → Db → Out Recording
  unfolding read_uploaded_wav inspect_caller_wav transcode_voicemail encrypt_media
      recording_used_bytes
  finalize_recording r upload db = do
    source ← read_uploaded_wav env.aead env.cipher r.id env.sha256 upload
    details ← inspect_caller_wav env.tools source r.duration_ms
    encoded ← transcode_voicemail env.tools source
    encrypted ← encrypt_media env.aead env.cipher env.nonce r.id encoded
    guard env.has_policy policy_unavailable
    guard
        (not (
          ltb env.settings.recording_quota_bytes
            (recording_used_bytes (some r.id) none db + length encrypted)))
        quota_full
    ok (final_recording r details encoded encrypted)

  -- The branch of a recording that is not finished.
  unfoldable pub finish_recording : Recording → Db → Handled UploadResponse
  unfolding finalize_recording put_recording delete_upload as_upload_response
  finish_recording r db = do
    guard (accepts_segments r.status) cannot_complete
    p ← found upload_unavailable (find_by (is_pending r.id) db.uploads)
    final ← raised (finalize_recording r p.upload db)
    let stored = put_recording final db
    ok (record stored { uploads = delete_upload r.id db.uploads }, as_upload_response final none)

  -- `complete_recording` of voicemails.
  unfoldable pub complete_voicemail : String → String → Db → Handled UploadResponse
  unfolding get_owned_recording finish_recording as_upload_response
  complete_voicemail device_id recording_id db = do
    r ← get_owned_recording device_id recording_id db
    if is_finished r.status then ok (db, as_upload_response r none) else finish_recording r db
