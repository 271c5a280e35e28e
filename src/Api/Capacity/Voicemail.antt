-- ===== src/Api/Capacity/Voicemail.antt =====
-- The handlers of voicemails against the quota of the recordings.
use ivrdroid.Recordings.{quota_full, policy_unavailable}
use ivrdroid.Recordings.Cipher.{encrypt_media}
use ivrdroid.Recordings.Audio.{transcode_voicemail, inspect_caller_wav}
use ivrdroid.Recordings.Upload.{read_uploaded_wav, store_chunk}
use ivrdroid.Api.Segments.{accepts_segments}
use ivrdroid.Api.Content.{read_bounded_chunk, ContentRequest}
use ivrdroid.Api.Sums.{find_by-is_pending, find_by-is_recording}
use ivrdroid.Api.Capacity.Segments.{Within}
use ivrdroid.Api.Capacity.{
  raised-eq-ok, require_recording_capacity-≤, found-eq-ok, require_recording_capacity,
  sum_by-replace_by, used,
}
use ivrdroid.Api.Capacity.Assembly.{ready_uploading}
use ivrdroid.Api.Quota.{ready_bytes, pending_bytes, sum_by, recording_used_bytes}
use ivrdroid.Api.{
  raised, is_pending, upload_unavailable, cannot_complete, not_accepting_content,
  wrong_content_type, offset_required, is_finished, uploading, duplicate_recording, metadata_reused,
  other_device_conflict, use_continuous_api, other_device, recording_not_found, found, is_recording,
  find_by, Db, Upload, Env, Pending, Recording, put_recording,
}
use ivrdroid.Api.Voicemail.{
  final_recording, put_upload, finalize_recording, complete_voicemail, finish_recording,
  receive_recording, upload_recording_content, new_recording, find_upload, is_same_recording,
  takes_step, check_receipt, choose_recording, UploadResponse, RecordingRequest, add_recording,
  create_recording, retry_recording, is_restartable, get_owned_recording, upload_for, delete_upload,
}
use ivrdroid.Recordings.Upload.Steps.{store_chunk-size}
use ivrdroid.Base.{
  ok-same, not_ltb→le, ok-first, ℕ, ◌+◌, ◌≡◌, ◌≤◌, String, List, [], ◌∷◌, Option, none, some, true,
  arith, refl, subst, str_eq, ltb, not, ok, guard-eq-ok, >>=-eq-ok, if-eq-ok, Option-cases, inl,
  inr, length,
}

-- A row that is not ready in the place of one, and another in the place of an upload.
pub used-put_recording :
    (row r : Recording) (db : Db)
    → find_by (is_recording row.id) db.recordings ≡ some r
    → used (put_recording row db) + ready_bytes r ≡ used db + ready_bytes row
unfolding put_recording recording_used_bytes
used-put_recording row r db here =
    omega (arith, sum_by-replace_by (is_recording row.id) ready_bytes row db.recordings r here)

-- The uploads that are left weigh what the others weighed.
delete_upload-weight :
    (recording_id : String) (uploads : List Pending)
    → sum_by (pending_bytes none) (delete_upload recording_id uploads)
      ≡ sum_by (pending_bytes (some recording_id)) uploads
unfolding delete_upload
delete_upload-weight recording_id [] = refl
delete_upload-weight recording_id (p ∷ uploads) =
    ground (arith, delete_upload-weight recording_id uploads)

pub get_owned_recording-eq-ok :
    (device_id recording_id : String) (db : Db) (r : Recording)
    → get_owned_recording device_id recording_id db ≡ ok r
    → find_by (is_recording r.id) db.recordings ≡ some r
unfolding get_owned_recording
get_owned_recording-eq-ok device_id recording_id db r e =
    let (found_r, c1, e1) =
      >>=-eq-ok (found recording_not_found (find_by (is_recording recording_id) db.recordings)) _
        e in
    let (c2, e2) = guard-eq-ok (str_eq found_r.device_id device_id) other_device _ e1 in
    let (c3, e3) = guard-eq-ok found_r.is_legacy use_continuous_api (ok found_r) e2 in
    let same : found_r ≡ r = cc in
    find_by-is_recording recording_id db.recordings r (
      subst (λ q. find_by (is_recording recording_id) db.recordings ≡ some q) same
        (found-eq-ok recording_not_found (find_by (is_recording recording_id) db.recordings) c1))

ready_failed :
    (r : Recording) (o : Option Upload) (env : Env)
    → is_restartable env r.status o ≡ true
    → ready_bytes r ≡ 0
ready_failed r none env e = ground (arith, e)
ready_failed r (some up) env e = ground (arith, e)

module _ (env : Env) (db : Db) (fits : used db ≤ env.settings.recording_quota_bytes) where
  add_recording-Within :
      (device_id : String) (body : RecordingRequest) (after : Db) (response : UploadResponse)
      → add_recording env device_id body db ≡ ok (after, response)
      → Within env db fits after
  unfolding add_recording upload_for recording_used_bytes
  add_recording-Within device_id body after response e =
      let (u, c1, e1) = >>=-eq-ok (check_receipt env device_id body db) _ e in
      let (v, c2, e2) =
        >>=-eq-ok (require_recording_capacity env body.expected_size_bytes db) _ e1 in
      let (c3, e3) =
        guard-eq-ok (not (takes_step device_id body db.recordings)) duplicate_recording _ e2 in
      let left = require_recording_capacity-≤ env body.expected_size_bytes db c2 in
      let row = new_recording env device_id body in
      let up = upload_for env.now body.expected_size_bytes body.source_sha256 in
      let same : (record db {
        recordings = row ∷ db.recordings;
        uploads = (record { recording_id = body.recording_id; upload = up }) ∷ db.uploads;
      })
          ≡ after =
        cc in
      subst (Within env db fits) same (omega (arith, left))

  retry_recording-Within :
      (device_id : String) (body : RecordingRequest) (r : Recording) (after : Db)
      (response : UploadResponse)
      → find_by (is_recording r.id) db.recordings ≡ some r
      → retry_recording env device_id body r db ≡ ok (after, response)
      → Within env db fits after
  unfolding retry_recording upload_for recording_used_bytes put_recording
  retry_recording-Within device_id body r after response here e =
      let (c1, e1) = guard-eq-ok r.is_legacy use_continuous_api _ e in
      let (c2, e2) = guard-eq-ok (str_eq r.device_id device_id) other_device_conflict _ e1 in
      let (c3, e3) = guard-eq-ok (is_same_recording r body) metadata_reused _ e2 in
      let upload = find_upload body.recording_id db in
      elim (if-eq-ok (is_restartable env r.status upload) _ _ e3) [
        | inl (again, e4) ↦
            (let (v, c5, e5) =
                >>=-eq-ok (require_recording_capacity env body.expected_size_bytes db) _ e4 in
              let left = require_recording_capacity-≤ env body.expected_size_bytes db c5 in
              let restarted : Recording = record r { status = uploading; updated_at = env.now } in
              let up = upload_for env.now body.expected_size_bytes body.source_sha256 in
              let stored = put_recording restarted db in
              let same : (record stored {
                uploads = (record { recording_id = r.id; upload = up }) ∷ db.uploads;
              })
                  ≡ after =
                cc in
              subst (Within env db fits) same (
                omega (
                  arith,
                  left,
                  used-put_recording restarted r db here,
                  ready_failed r upload env again,
                )))
        | inr (kept, e4) ↦ (let same : db ≡ after = cc in subst (Within env db fits) same fits)
      ]

  -- The creation of a recording.
  pub create_recording-Within :
      (device_id : String) (body : RecordingRequest) (after : Db) (response : UploadResponse)
      → create_recording env device_id body db ≡ ok (after, response)
      → Within env db fits after
  unfolding create_recording
  create_recording-Within device_id body after response e =
      let choice : Option Recording → Type 0 =
        λ o. choose_recording env device_id body db o ≡ ok (after, response) in
      elim (Option-cases (find_by (is_recording body.recording_id) db.recordings)) [
        | inl none_there ↦
            add_recording-Within device_id body after response (subst choice none_there e)
        | inr (r, there) ↦
            retry_recording-Within device_id body r after response
              (find_by-is_recording body.recording_id db.recordings r there) (subst choice there e)
      ]

  receive_recording-Within :
      (r : Recording) (offset : ℕ) (request : ContentRequest) (after : Db)
      (response : UploadResponse)
      → find_by (is_recording r.id) db.recordings ≡ some r
      → receive_recording env r offset request db ≡ ok (after, response)
      → Within env db fits after
  unfolding receive_recording recording_used_bytes put_recording
  receive_recording-Within r offset request after response here e =
      let (waits, e1) = guard-eq-ok (accepts_segments r.status) not_accepting_content _ e in
      let (p, c2, e2) =
        >>=-eq-ok (found upload_unavailable (find_by (is_pending r.id) db.uploads)) _ e1 in
      let (body, c3, e3) =
        >>=-eq-ok (read_bounded_chunk env.settings.recording_chunk_limit_bytes request) _ e2 in
      let before : Upload = record p.upload { recording_updated_at = r.updated_at } in
      let (upload, c4, e4) =
        >>=-eq-ok
          (raised (
            store_chunk env.aead env.cipher r.id env.settings.recording_chunk_limit_bytes env.nonce
              env.now before offset body))
          _ e3 in
      let size =
        store_chunk-size env.aead env.cipher r.id env.settings.recording_chunk_limit_bytes env.nonce
          env.now before offset body upload (raised-eq-ok _ c4) in
      let touched : Recording = record r { updated_at = upload.recording_updated_at } in
      let next : Pending = record p { upload = upload } in
      let place = found-eq-ok upload_unavailable (find_by (is_pending r.id) db.uploads) c2 in
      let sum =
        sum_by-replace_by (is_pending p.recording_id) (pending_bytes none) next db.uploads p
          (find_by-is_pending r.id db.uploads p place) in
      let same : put_upload env next (put_recording touched db) ≡ after = ok-first e4 in
      subst (Within env db fits) same
        (omega (arith, sum, size, used-put_recording touched r db here, fits))

  -- The upload of content.
  pub upload_recording_content-Within :
      (device_id recording_id : String) (request : ContentRequest) (after : Db)
      (response : UploadResponse)
      → upload_recording_content env device_id recording_id request db ≡ ok (after, response)
      → Within env db fits after
  unfolding upload_recording_content
  upload_recording_content-Within device_id recording_id request after response e =
      let (offset, c1, e1) = >>=-eq-ok (found offset_required request.upload_offset) _ e in
      let (c2, e2) = guard-eq-ok request.is_offset_stream wrong_content_type _ e1 in
      let (r, c3, e3) = >>=-eq-ok (get_owned_recording device_id recording_id db) _ e2 in
      elim (if-eq-ok (is_finished r.status) _ _ e3) [
        | inl (finished, e4) ↦ (let same : db ≡ after = cc in subst (Within env db fits) same fits)
        | inr (waits, e4) ↦
            receive_recording-Within r offset request after response
              (get_owned_recording-eq-ok device_id recording_id db r c3) e4
      ]

  finish_recording-Within :
      (r : Recording) (after : Db) (response : UploadResponse)
      → find_by (is_recording r.id) db.recordings ≡ some r
      → finish_recording env r db ≡ ok (after, response)
      → Within env db fits after
  unfolding finish_recording finalize_recording recording_used_bytes put_recording
  finish_recording-Within r after response here e =
      let (waits, e1) = guard-eq-ok (accepts_segments r.status) cannot_complete _ e in
      let (p, c2, e2) =
        >>=-eq-ok (found upload_unavailable (find_by (is_pending r.id) db.uploads)) _ e1 in
      let (final, c3, e3) = >>=-eq-ok (raised (finalize_recording env r p.upload db)) _ e2 in
      let (source, f1, g1) =
        >>=-eq-ok (read_uploaded_wav env.aead env.cipher r.id env.sha256 p.upload) _
          (raised-eq-ok _ c3) in
      let (details, f2, g2) = >>=-eq-ok (inspect_caller_wav env.tools source r.duration_ms) _ g1 in
      let (encoded, f3, g3) = >>=-eq-ok (transcode_voicemail env.tools source) _ g2 in
      let (encrypted, f4, g4) =
        >>=-eq-ok (encrypt_media env.aead env.cipher env.nonce r.id encoded) _ g3 in
      let (f5, g5) = guard-eq-ok env.has_policy policy_unavailable _ g4 in
      let (f6, g6) =
        guard-eq-ok
          (not (
            ltb env.settings.recording_quota_bytes
              (recording_used_bytes (some r.id) none db + length encrypted)))
          quota_full _ g5 in
      let room : recording_used_bytes (some r.id) none db + length encrypted
          ≤ env.settings.recording_quota_bytes =
        not_ltb→le env.settings.recording_quota_bytes _ f6 in
      let row = final_recording env r details encoded encrypted in
      let made : row ≡ final = ok-same g6 in
      let stored = put_recording final db in
      let same : (record stored { uploads = delete_upload r.id db.uploads }) ≡ after =
        ok-first e3 in
      let within = Within env db fits in
      subst within same (
        subst
          (λ f. within (record (put_recording f db) { uploads = delete_upload r.id db.uploads }))
          made
          (omega (
            arith,
            room,
            delete_upload-weight r.id db.uploads,
            used-put_recording row r db here,
            ready_uploading r waits,
          )))

  -- The completion of a voicemail.
  pub complete_voicemail-Within :
      (device_id recording_id : String) (after : Db) (response : UploadResponse)
      → complete_voicemail env device_id recording_id db ≡ ok (after, response)
      → Within env db fits after
  unfolding complete_voicemail
  complete_voicemail-Within device_id recording_id after response e =
      let (r, c1, e1) = >>=-eq-ok (get_owned_recording device_id recording_id db) _ e in
      elim (if-eq-ok (is_finished r.status) _ _ e1) [
        | inl (finished, e2) ↦ (let same : db ≡ after = cc in subst (Within env db fits) same fits)
        | inr (waits, e2) ↦
            finish_recording-Within r after response
              (get_owned_recording-eq-ok device_id recording_id db r c1) e2
      ]
