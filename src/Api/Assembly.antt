-- ===== src/Api/Assembly.antt =====
-- `assemble_conversation_recording` of server/app/recording_service.py.
use ivrdroid.Api.Quota.{recording_used_bytes}
use ivrdroid.Api.{
  Db, ready, Recording, assembled, put_recording, verified, Env, Segment, SegmentStatus,
}
use ivrdroid.Recordings.{
  missing_stop_reason, quota_full, early_stop_reason, policy_unavailable, media_invalid,
  unverified_segments, indexes_not_contiguous, no_segments, segment_changed, timestamps_disordered,
  Bytes,
}
use ivrdroid.Recordings.Cipher.{Out}
use ivrdroid.Recordings.Cipher.Files.{EncryptedFile, encrypt_media_file}
use ivrdroid.Recordings.Upload.{written_stat, rec_suffix, write_uploaded_wav_to_path}
use ivrdroid.Recordings.Audio.{inspect_pcm_wav_path, opened, read_frames, converted}
use ivrdroid.Base.{
  ℕ, suc, ◌+◌, String, List, [], ◌∷◌, ◌++◌, Option, none, some, Bool, true, false, ◌&&◌, ◌||◌, not,
  if◌then◌else◌, ◌==◌, length, ltb, map, ok, err, guard, ◌>>=◌, ◌>>◌, str_eq,
}

abbrev pub is_boundary : Segment → Bool
is_boundary s = str_eq s.stop_reason "segment_boundary"

-- `[item.segment_index for item in segments] == list(range(len(segments)))`, from a start.
unfoldable pub are_contiguous : ℕ → List Segment → Bool
are_contiguous n [] = true
are_contiguous n (s ∷ segments) = (s.segment_index == n) && are_contiguous (suc n) segments

abbrev is_verified : SegmentStatus → Bool
is_verified verified = true
is_verified _ = false

unfoldable pub are_verified : List Segment → Bool
are_verified [] = true
are_verified (s ∷ segments) = is_verified s.status && are_verified segments

-- All but the last end at a boundary.
unfoldable pub are_bounded : List Segment → Bool
are_bounded [] = true
are_bounded (s ∷ []) = true
are_bounded (s ∷ segments) = is_boundary s && are_bounded segments

unfoldable pub last_of : Segment → List Segment → Segment
last_of s [] = s
last_of s (next ∷ segments) = last_of next segments

-- The tests before the assembly; the last segment is returned.
unfoldable pub check_segments : Bool → List Segment → Out Segment
unfolding are_contiguous are_verified are_bounded last_of
check_segments confirmed_abandoned [] = err no_segments
check_segments confirmed_abandoned (s ∷ segments) = do
  guard (are_contiguous 0 (s ∷ segments)) indexes_not_contiguous
  guard (are_verified (s ∷ segments)) unverified_segments
  guard (are_bounded (s ∷ segments)) early_stop_reason
  let last = last_of s segments
  guard (not (is_boundary last && not confirmed_abandoned)) missing_stop_reason
  ok last

pub record Combined : Type 0 where
  pub duration_ms : ℕ
  pub pcm : Bytes

abbrev is_earlier : ℕ → Option ℕ → Bool
is_earlier captured_at none = false
is_earlier captured_at (some previous) = ltb captured_at previous

abbrev pub any_partial : List Segment → Bool
any_partial [] = false
any_partial (s ∷ segments) = s.partial || any_partial segments

abbrev pub total_size : List Segment → ℕ
total_size [] = 0
total_size (s ∷ segments) = s.upload.expected_size_bytes + total_size segments

module _ (env : Env) where
  -- The frames of one segment, with its duration.
  unfoldable pub segment_audio : Segment → Out Combined
  unfolding write_uploaded_wav_to_path inspect_pcm_wav_path read_frames
  segment_audio s = do
    source ←
        write_uploaded_wav_to_path env.aead env.cipher
          (env.segment_identity s.recording_id s.segment_index) env.sha256 s.upload
    details ← inspect_pcm_wav_path env.tools source s.duration_ms
    wave ← opened (env.tools.open_wave source)
    frames ← read_frames segment_changed wave.frames wave.frames wave.data_bytes
    ok (record { duration_ms = details.duration_ms; pcm = frames })

  -- The loop over the segments, with the time of the one before.
  unfoldable pub combine : Option ℕ → List Segment → Out Combined
  unfolding segment_audio
  combine previous [] = ok (record { duration_ms = 0; pcm = [] })
  combine previous (s ∷ segments) = do
    guard (not (is_earlier s.captured_at previous)) timestamps_disordered
    audio ← segment_audio s
    rest ← combine (some s.captured_at) segments
    ok (record { duration_ms = audio.duration_ms + rest.duration_ms; pcm = audio.pcm ++ rest.pcm })

  -- The row of a recording that was assembled.
  unfoldable pub assembled_recording :
      Bool → Recording → List Segment → Segment → Combined → EncryptedFile → Recording
  assembled_recording confirmed_abandoned r segments last combined written = record r {
    duration_ms = combined.duration_ms;
    stop_reason = if confirmed_abandoned then "recording_failure" else last.stop_reason;
    partial = confirmed_abandoned || any_partial segments;
    source_size_bytes = total_size segments;
    source_sha256 = env.sha256 combined.pcm;
    segment_count = length segments;
    media = some (record {
      key_version = env.cipher.version;
      size_bytes = written.size;
      sha256 = written.sha256;
      storage_name = env.uuid_hex ++ rec_suffix;
      file = some (record { stat = written_stat; payload = written.content });
    });
    status = ready;
    updated_at = env.now;
  }

  -- The segments of a recording become assembled.
  abbrev pub mark_assembled : String → Segment → Segment
  mark_assembled recording_id s =
      if str_eq s.recording_id recording_id
      then record s {
        status = assembled;
        upload = record s.upload { updated_at = env.now; recording_updated_at = env.now };
      }
      else s

  unfoldable pub store_assembled : Recording → Db → Db
  unfolding put_recording
  store_assembled r db =
      let stored = put_recording r db in
      record stored { segments = map (mark_assembled r.id) stored.segments }

  -- `segments` are the segments of the recording, in the order of their indexes.
  unfoldable pub assemble_conversation_recording : Bool → Recording → List Segment → Db → Out Db
  unfolding check_segments combine recording_used_bytes encrypt_media_file assembled_recording
      store_assembled
  assemble_conversation_recording confirmed_abandoned r segments db = do
    last ← check_segments confirmed_abandoned segments
    combined ← combine none segments
    encoded ← converted media_invalid (env.tools.encode_conversation combined.pcm)
    guard env.has_policy policy_unavailable
    guard
        (not (
          ltb env.settings.recording_quota_bytes
            (recording_used_bytes none (some r.id) db + (length encoded + 39))))
        quota_full
    written ← encrypt_media_file env.aead env.cipher env.sha256 env.nonce r.id encoded
    ok (
        store_assembled (assembled_recording confirmed_abandoned r segments last combined written)
          db)
