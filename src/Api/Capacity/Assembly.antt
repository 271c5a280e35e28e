-- ===== src/Api/Capacity/Assembly.antt =====
-- The assembly of a recording against the quota of the recordings.
use ivrdroid.Recordings.Cipher.Files.{encrypt_media_file}
use ivrdroid.Recordings.Cipher.Files.Laws.{encrypt_media_file-eq-ok, IsStreamed}
use ivrdroid.Recordings.{quota_full, policy_unavailable, media_invalid}
use ivrdroid.Recordings.Audio.{converted}
use ivrdroid.Api.Capacity.Segments.{Within}
use ivrdroid.Api.Sums.{sum_by-map-≤, find_by-is_recording}
use ivrdroid.Api.Complete.{
  check_kind, segments_of, RecordingResponse, remove_segment_files, assemble_recording,
  complete_recording, remove_files_of,
}
use ivrdroid.Api.Assembly.{combine, check_segments, assemble_conversation_recording, mark_assembled}
use ivrdroid.Api.Quota.{sum_by, ready_bytes, segment_bytes}
use ivrdroid.Api.Capacity.{raised-eq-ok, sum_by-replace_by, found-eq-ok, recording_used_bytes, used}
use ivrdroid.Api.Segments.{accepts_segments}
use ivrdroid.Recordings.Cipher.{IsLawful}
use ivrdroid.Recordings.Upload.{upload_directory, Upload}
use ivrdroid.Api.{
  raised, count_mismatch, cannot_complete, is_finished, use_continuous_api, other_kind, same_kind,
  other_device, recording_not_found, found, is_recording, find_by, Db, Kind, RecordingError,
  Segment, Env, Recording, owned_recording,
}
use ivrdroid.Recordings.Cipher.Laws.{length-encrypt_media}
use ivrdroid.Api.Content.{removed, remove_upload_files}
use ivrdroid.Api.Quota.{recording_used_bytes}
use ivrdroid.Api.Assembly.{store_assembled, assembled_recording}
use ivrdroid.Api.{put_recording}
use ivrdroid.Base.{
  ℕ, ◌+◌, ◌≡◌, ◌≤◌, String, List, none, some, Bool, true, false, map, arith, refl, ap, subst,
  str_eq, ltb, not, ok, err, Result, guard-eq-ok, >>=-eq-ok, if-eq-ok, inl, inr, length, ◌==◌,
}

-- The libraries and the nonce of a request are as their documentation says.
pub record IsSound (env : Env) : Type 0 where
  pub lawful : IsLawful env.aead
  pub streamed : IsStreamed env.aead
  pub nonce_size : length env.nonce ≡ 12

removed-size :
    (up : Upload) (found : Result RecordingError (Unit {0}))
    → (removed up found).expected_size_bytes ≡ up.expected_size_bytes
removed-size up (ok u) = refl
removed-size up (err e) = refl

-- The declared size stays.
remove_upload_files-size :
    (up : Upload) → (remove_upload_files up).expected_size_bytes ≡ up.expected_size_bytes
unfolding remove_upload_files
remove_upload_files-size up = removed-size up (upload_directory up)

pub owned_recording-eq-ok :
    (kind : Kind) (device_id recording_id : String) (db : Db) (r : Recording)
    → owned_recording kind device_id recording_id db ≡ ok r
    → find_by (is_recording r.id) db.recordings ≡ some r
unfolding owned_recording
owned_recording-eq-ok kind device_id recording_id db r e =
    let (found_r, c1, e1) =
      >>=-eq-ok (found recording_not_found (find_by (is_recording recording_id) db.recordings)) _
        e in
    let (c2, e2) = guard-eq-ok (str_eq found_r.device_id device_id) other_device _ e1 in
    let (c3, e3) = guard-eq-ok (same_kind found_r.kind kind) other_kind _ e2 in
    let (c4, e4) = guard-eq-ok found_r.is_legacy use_continuous_api (ok found_r) e3 in
    let same : found_r ≡ r = cc in
    find_by-is_recording recording_id db.recordings r (
      subst (λ q. find_by (is_recording recording_id) db.recordings ≡ some q) same
        (found-eq-ok recording_not_found (find_by (is_recording recording_id) db.recordings) c1))

pub ready_uploading : (r : Recording) → accepts_segments r.status ≡ true → ready_bytes r ≡ 0
ready_uploading r e = ground (arith, e)

module _ (env : Env) (recording_id : String) where
  mark_assembled-weight :
      (s : Segment)
      → segment_bytes none (mark_assembled env recording_id s) ≤ segment_bytes (some recording_id) s
  mark_assembled-weight s = ground arith

  remove_files_of-weight :
      (s : Segment) → segment_bytes none (remove_files_of recording_id s) ≤ segment_bytes none s
  remove_files_of-weight s = ground (arith, remove_upload_files-size s.upload)

  -- The segments of the recording give way to its media.
  pub store_assembled-used :
      (db : Db) (row r : Recording)
      → find_by (is_recording row.id) db.recordings ≡ some r
      → row.id ≡ recording_id
      → ready_bytes r ≡ 0
      → used (store_assembled env row db)
        ≤ recording_used_bytes none (some recording_id) db + ready_bytes row
  unfolding store_assembled put_recording recording_used_bytes
  store_assembled-used db row r here id none_ready =
      let ready = sum_by-replace_by (is_recording row.id) ready_bytes row db.recordings r here in
      let less =
        sum_by-map-≤ (segment_bytes (some recording_id)) (segment_bytes none)
          (mark_assembled env recording_id) mark_assembled-weight db.segments in
      let same : sum_by (segment_bytes none) (map (mark_assembled env row.id) db.segments)
          ≡ sum_by (segment_bytes none) (map (mark_assembled env recording_id) db.segments) =
        ap (λ i. sum_by (segment_bytes none) (map (mark_assembled env i) db.segments)) id in
      omega (arith, ready, less, same, none_ready)

module _ (env : Env) (sound : IsSound env) (db : Db)
    (fits : used db ≤ env.settings.recording_quota_bytes) where
  assemble-Within :
      (confirmed_abandoned : Bool) (r : Recording) (segments : List Segment) (after : Db)
      → find_by (is_recording r.id) db.recordings ≡ some r
      → accepts_segments r.status ≡ true
      → assemble_conversation_recording env confirmed_abandoned r segments db ≡ ok after
      → Within env db fits after
  unfolding assemble_conversation_recording assembled_recording
  assemble-Within confirmed_abandoned r segments after here waits e =
      let (last, c1, e1) = >>=-eq-ok (check_segments confirmed_abandoned segments) _ e in
      let (combined, c2, e2) = >>=-eq-ok (combine env none segments) _ e1 in
      let (encoded, c3, e3) =
        >>=-eq-ok (converted media_invalid (env.tools.encode_conversation combined.pcm)) _ e2 in
      let (c4, e4) = guard-eq-ok env.has_policy policy_unavailable _ e3 in
      let (c5, e5) =
        guard-eq-ok
          (not (
            ltb env.settings.recording_quota_bytes
              (recording_used_bytes none (some r.id) db + (length encoded + 39))))
          quota_full _ e4 in
      let (written, c6, e6) =
        >>=-eq-ok (encrypt_media_file env.aead env.cipher env.sha256 env.nonce r.id encoded) _ e5 in
      let (made, counted, digest) =
        encrypt_media_file-eq-ok env.aead sound.streamed env.cipher env.sha256 env.nonce r.id
          encoded written c6 in
      let size =
        length-encrypt_media env.aead sound.lawful env.cipher env.nonce r.id encoded written.content
          sound.nonce_size made in
      let row = assembled_recording env confirmed_abandoned r segments last combined written in
      let room : recording_used_bytes none (some r.id) db + (length encoded + 39)
          ≤ env.settings.recording_quota_bytes =
        ground (arith, c5) in
      let stored : store_assembled env row db ≡ after = cc in
      subst (Within env db fits) stored (
        omega (
          arith,
          store_assembled-used env r.id db row r here refl (ready_uploading r waits),
          room,
          size,
          counted,
        ))

  assemble_recording-Within :
      (kind : Kind) (r : Recording) (segment_count : ℕ) (after : Db)
      → find_by (is_recording r.id) db.recordings ≡ some r
      → assemble_recording env kind r segment_count db ≡ ok after
      → Within env db fits after
  unfolding assemble_recording remove_segment_files recording_used_bytes
  assemble_recording-Within kind r segment_count after here e =
      let (waits, e1) = guard-eq-ok (accepts_segments r.status) cannot_complete _ e in
      let segments = segments_of r.id db.segments in
      let (c2, e2) = guard-eq-ok (length segments == segment_count) count_mismatch _ e1 in
      let (u, c3, e3) = >>=-eq-ok (check_kind env kind r segments db) _ e2 in
      let (stored, c4, e4) =
        >>=-eq-ok (raised (assemble_conversation_recording env false r segments db)) _ e3 in
      let within = assemble-Within false r segments stored here waits (raised-eq-ok _ c4) in
      let less =
        sum_by-map-≤ (segment_bytes none) (segment_bytes none) (remove_files_of r.id)
          (remove_files_of-weight env r.id) stored.segments in
      let same : remove_segment_files r.id stored ≡ after = cc in
      subst (Within env db fits) same (omega (arith, within, less))

  -- The completion of a recording.
  pub complete_recording-Within :
      (kind : Kind) (device_id recording_id : String) (segment_count : ℕ) (after : Db)
      (response : RecordingResponse)
      → complete_recording env kind device_id recording_id segment_count db ≡ ok (after, response)
      → Within env db fits after
  unfolding complete_recording
  complete_recording-Within kind device_id recording_id segment_count after response e =
      let (r, owned, e1) = >>=-eq-ok (owned_recording kind device_id recording_id db) _ e in
      elim (if-eq-ok (is_finished r.status) _ _ e1) [
        | inl (finished, e2) ↦ (let same : db ≡ after = cc in subst (Within env db fits) same fits)
        | inr (waits, e2) ↦
            (let (stored, c3, e3) =
                >>=-eq-ok (assemble_recording env kind r segment_count db) _ e2 in
              let within =
                assemble_recording-Within kind r segment_count stored
                  (owned_recording-eq-ok kind device_id recording_id db r owned) c3 in
              let (shown_r, c4, e4) =
                >>=-eq-ok
                  (found recording_not_found
                    (find_by (is_recording recording_id) stored.recordings))
                  _ e3 in
              let same : stored ≡ after = cc in subst (Within env db fits) same within)
      ]
