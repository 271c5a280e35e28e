-- ===== src/Api/Content.antt =====
-- The handlers of server/app/conversation_recording_api.py and session_audit_api.py that receive and
-- complete a segment, and `_read_bounded_chunk`, which the interfaces share.
use ivrdroid.Api.Segments.{Handled, SegmentResponse, segment_response}
use ivrdroid.Api.{
  wrong_content_type, offset_required, raised, cannot_complete, found, not_accepting_content,
  verified, failed_segment, is_accepted, recording_error, Segment, owned_segment, session_audit, Db,
  Kind, Recording, chunk_exceeds_limit, content_length_invalid, owned_recording, put_segment,
  uploading_segment, Checked, Env, SegmentStatus,
}
use ivrdroid.Recordings.{Bytes, RecordingError, status_code}
use ivrdroid.Recordings.Upload.{Upload, store_chunk, write_uploaded_wav_to_path, upload_directory}
use ivrdroid.Recordings.Audio.{inspect_pcm_wav_path, WavDetails}
use ivrdroid.Base.{
  ℕ, ◌+◌, String, List, [], ◌∷◌, ◌++◌, Option, none, Bool, true, false, ◌||◌, not, if◌then◌else◌,
  ◌==◌, length, ltb, Result, ok, err, guard, ◌>>=◌, ◌>>◌,
}

-- The header `Content-Length`: negative numbers and other texts are refused.
pub data Declared : Type 0 where
  undeclared invalid_length : Declared
  declared : ℕ → Declared

-- A request with content. The header `Upload-Offset` is `none` if it is absent or negative.
pub record ContentRequest : Type 0 where
  pub upload_offset : Option ℕ
  pub is_offset_stream : Bool
  pub content_length : Declared
  pub parts : List Bytes

abbrev checked_length : ℕ → Declared → Checked (Unit {0})
checked_length limit undeclared = ok tt
checked_length limit invalid_length = err content_length_invalid
checked_length limit (declared size) = guard (not (ltb limit size)) chunk_exceeds_limit

unfoldable pub read_parts : ℕ → Bytes → List Bytes → Checked Bytes
read_parts limit body [] = ok body
read_parts limit body (part ∷ parts) = do
  guard (not (ltb limit (length body + length part))) chunk_exceeds_limit
  read_parts limit (body ++ part) parts

-- `_read_bounded_chunk`.
unfoldable pub read_bounded_chunk : ℕ → ContentRequest → Checked Bytes
unfolding read_parts
read_bounded_chunk limit request = do
  checked_length limit request.content_length
  read_parts limit [] request.parts

abbrev pub accepts_content : SegmentStatus → Bool
accepts_content uploading_segment = true
accepts_content _ = false

abbrev pub removed : Upload → Result RecordingError (Unit {0}) → Upload
removed up (ok _) = record up { directory = none; files = [] }
removed up (err _) = up

-- `remove_upload_files`.
unfoldable pub remove_upload_files : Upload → Upload
unfolding upload_directory
remove_upload_files up = removed up (upload_directory up)

module _ (env : Env) where
  -- The branch of a segment that is not verified yet.
  unfoldable pub receive_segment :
      Recording → Segment → ℕ → ContentRequest → Db → Handled SegmentResponse
  unfolding read_bounded_chunk store_chunk put_segment segment_response
  receive_segment r s offset request db = do
    guard (accepts_content s.status) not_accepting_content
    body ← read_bounded_chunk env.settings.recording_chunk_limit_bytes request
    upload ← raised (
        store_chunk env.aead env.cipher (env.segment_identity r.id s.segment_index)
          env.settings.recording_chunk_limit_bytes env.nonce env.now s.upload offset body)
    let stored : Segment = record s { upload = upload }
    ok (put_segment stored db, segment_response stored)

  -- `upload_conversation_segment_content` and `upload_session_segment_content`.
  unfoldable pub upload_segment_content :
      Kind → String → String → ℕ → ContentRequest → Db → Handled SegmentResponse
  unfolding owned_recording owned_segment receive_segment segment_response
  upload_segment_content kind device_id recording_id segment_index request db = do
    offset ← found offset_required request.upload_offset
    guard request.is_offset_stream wrong_content_type
    r ← owned_recording kind device_id recording_id db
    s ← owned_segment r segment_index db
    if is_accepted s.status
        then ok (db, segment_response s)
        else receive_segment r s offset request db

  -- The verification of a complete segment.
  unfoldable pub verify_segment : Recording → Segment → Result RecordingError WavDetails
  unfolding write_uploaded_wav_to_path inspect_pcm_wav_path
  verify_segment r s = do
    source ←
        write_uploaded_wav_to_path env.aead env.cipher (env.segment_identity r.id s.segment_index)
          env.sha256 s.upload
    inspect_pcm_wav_path env.tools source s.duration_ms

  -- A session audit is restarted after an error with the status 400 or 422.
  abbrev pub is_restarted : Kind → RecordingError → Bool
  is_restarted session_audit error = (status_code error == 400) || (status_code error == 422)
  is_restarted _ error = false

  -- The rows after a verification that failed.
  unfoldable pub after_failure : Kind → Segment → RecordingError → Db → Db
  unfolding put_segment remove_upload_files
  after_failure kind s error db =
      if is_restarted kind error
      then put_segment
          (record s {
            status = failed_segment;
            upload =
                remove_upload_files
                  (record s.upload { updated_at = env.now; recording_updated_at = env.now });
          })
          db
      else db

  -- The row of a segment that was verified: its duration is the one that was measured.
  abbrev pub verified_segment : Segment → WavDetails → Segment
  verified_segment s details = record s {
    duration_ms = details.duration_ms;
    status = verified;
    upload = record s.upload { updated_at = env.now; recording_updated_at = env.now };
  }

  unfoldable pub after_verification :
      Kind → Segment → Db → Result RecordingError WavDetails → Db × Checked SegmentResponse
  unfolding after_failure put_segment segment_response
  after_verification kind s db (err error) =
      (after_failure kind s error db, err (recording_error error))
  after_verification kind s db (ok details) =
      let done = verified_segment s details in (put_segment done db, ok (segment_response done))

  -- The rows and the reply, since an error may change the rows.
  abbrev pub replied : Db → Checked (Db × Checked SegmentResponse) → Db × Checked SegmentResponse
  replied db (ok answer) = answer
  replied db (err error) = (db, err error)

  unfoldable pub finish_segment :
      Kind → Recording → Segment → Db → Checked (Db × Checked SegmentResponse)
  unfolding verify_segment after_verification segment_response
  finish_segment kind r s db =
      if is_accepted s.status then ok (db, ok (segment_response s)) else (do
        guard (accepts_content s.status) cannot_complete
        ok (after_verification kind s db (verify_segment r s)))

  unfoldable pub complete_owned :
      Kind → String → String → ℕ → Db → Checked (Db × Checked SegmentResponse)
  unfolding owned_recording owned_segment finish_segment
  complete_owned kind device_id recording_id segment_index db = do
    r ← owned_recording kind device_id recording_id db
    s ← owned_segment r segment_index db
    finish_segment kind r s db

  -- `complete_conversation_segment` and `complete_session_segment`.
  unfoldable pub complete_segment : Kind → String → String → ℕ → Db → Db × Checked SegmentResponse
  unfolding complete_owned
  complete_segment kind device_id recording_id segment_index db =
      replied db (complete_owned kind device_id recording_id segment_index db)
