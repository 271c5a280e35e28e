-- ===== src/Api/Lifecycle/Recordings.antt =====
-- The handlers of recordings and the acknowledgements.
use ivrdroid.Recordings.Cipher.Files.{encrypt_media_file}
use ivrdroid.Api.Sums.{find_by-is_recording}
use ivrdroid.Api.Capacity.Voicemail.{get_owned_recording-eq-ok}
use ivrdroid.Recordings.Upload.{read_uploaded_wav, store_chunk}
use ivrdroid.Recordings.Cipher.{encrypt_media}
use ivrdroid.Api.Capacity.{raised-eq-ok}
use ivrdroid.Recordings.{quota_full, policy_unavailable, media_invalid}
use ivrdroid.Api.Capacity.Assembly.{owned_recording-eq-ok}
use ivrdroid.Recordings.Audio.{transcode_voicemail, inspect_caller_wav, converted}
use ivrdroid.Api.Quota.{recording_used_bytes, require_recording_capacity}
use ivrdroid.Api.Segments.{accepts_segments}
use ivrdroid.Api.Lifecycle.{
  Keeps-uploads, Keeps-new_recording, Keeps-map-segments, Keeps-put_recording, Keeps-same,
  Keeps-trans, Keeps,
}
use ivrdroid.Api.Content.{read_bounded_chunk, ContentRequest}
use ivrdroid.Api.{
  uploading, metadata_reused, other_device_conflict, is_pending, use_continuous_api, raised,
  upload_unavailable, duplicate_recording, not_accepting_content, count_mismatch,
  recording_not_found, wrong_content_type, cannot_complete, offset_required, found, owned_recording,
  is_recording, Segment, find_by, Kind, Recording, Db, Upload, is_finished, Env, Status,
  put_recording,
}
use ivrdroid.Api.Assembly.{
  mark_assembled, combine, check_segments, assemble_conversation_recording, assembled_recording,
  store_assembled,
}
use ivrdroid.Api.Complete.{
  remove_files_of, check_kind, segments_of, RecordingResponse, complete_recording,
  assemble_recording, remove_segment_files,
}
use ivrdroid.Api.Voicemail.{
  final_recording, find_upload, is_same_recording, get_owned_recording, takes_step, check_receipt,
  choose_recording, UploadResponse, RecordingRequest, is_restartable, create_recording,
  retry_recording, add_recording, upload_recording_content, receive_recording, complete_voicemail,
  finish_recording, finalize_recording, new_recording,
}
use ivrdroid.Base.{
  ℕ, ◌≡◌, String, List, Option, none, some, true, false, not, ltb, ◌==◌, ◌+◌, arith, refl, subst,
  ok, str_eq, length, guard-eq-ok, >>=-eq-ok, if-eq-ok, ok-first, ok-same, Option-cases, inl, inr,
}

not_finished :
    (status status' : Status)
    → is_finished status ≡ false
    → is_finished status ≡ true
    → is_finished status' ≡ true
not_finished status status' f t = cc

restartable_lem :
    (env : Env) (s : Status) (o : Option Upload)
    → is_restartable env s o ≡ true
    → is_finished s ≡ false
restartable_lem env s none e = ground (arith, e)
restartable_lem env s (some up) e = ground (arith, e)

module _ (env : Env) (db : Db) where
  store_assembled-Keeps :
      (row r : Recording)
      → find_by (is_recording row.id) db.recordings ≡ some r
      → row.id ≡ r.id
      → is_finished row.status ≡ true
      → Keeps db (store_assembled env row db)
  unfolding store_assembled
  store_assembled-Keeps row r here same finished =
      Keeps-trans db (put_recording row db) (store_assembled env row db)
        (Keeps-put_recording row r db here same (λ v. finished))
        (Keeps-map-segments (mark_assembled env row.id) (put_recording row db)
          (λ id index s. ground arith) (λ s accepted. ground (arith, accepted)))

  assemble-Keeps :
      (r : Recording) (segments : List Segment) (after : Db)
      → find_by (is_recording r.id) db.recordings ≡ some r
      → assemble_conversation_recording env false r segments db ≡ ok after
      → Keeps db after
  unfolding assemble_conversation_recording assembled_recording
  assemble-Keeps r segments after here e =
      let (last, c1, e1) = >>=-eq-ok (check_segments false segments) _ e in
      let (combined, c2, e2) = >>=-eq-ok (combine env none segments) _ e1 in
      let (encoded, c3, e3) =
        >>=-eq-ok (converted media_invalid (env.tools.encode_conversation combined.pcm)) _ e2 in
      let (c4, e4) = guard-eq-ok env.has_policy policy_unavailable _ e3 in
      let (c5, e5) =
        guard-eq-ok
          (not (
            ltb env.settings.recording_quota_bytes
              (recording_used_bytes none (some r.id) db + (length encoded + 39))))
          quota_full _ e4 in
      let (written, c6, e6) =
        >>=-eq-ok (encrypt_media_file env.aead env.cipher env.sha256 env.nonce r.id encoded) _ e5 in
      subst (Keeps db) (ok-same e6) (
        store_assembled-Keeps (assembled_recording env false r segments last combined written) r
          here refl refl)

  assemble_recording-Keeps :
      (kind : Kind) (r : Recording) (segment_count : ℕ) (after : Db)
      → find_by (is_recording r.id) db.recordings ≡ some r
      → assemble_recording env kind r segment_count db ≡ ok after
      → Keeps db after
  unfolding assemble_recording remove_segment_files
  assemble_recording-Keeps kind r segment_count after here e =
      let (waits, e1) = guard-eq-ok (accepts_segments r.status) cannot_complete _ e in
      let segments = segments_of r.id db.segments in
      let (c2, e2) = guard-eq-ok (length segments == segment_count) count_mismatch _ e1 in
      let (u, c3, e3) = >>=-eq-ok (check_kind env kind r segments db) _ e2 in
      let (stored, c4, e4) =
        >>=-eq-ok (raised (assemble_conversation_recording env false r segments db)) _ e3 in
      subst (Keeps db) (ok-same e4) (
        Keeps-trans db stored (remove_segment_files r.id stored)
          (assemble-Keeps r segments stored here (raised-eq-ok _ c4))
          (Keeps-map-segments (remove_files_of r.id) stored (λ id index s. ground arith)
            (λ s accepted. ground (arith, accepted))))

  pub complete_recording-Keeps :
      (kind : Kind) (device_id recording_id : String) (segment_count : ℕ) (after : Db)
      (response : RecordingResponse)
      → complete_recording env kind device_id recording_id segment_count db ≡ ok (after, response)
      → Keeps db after
  unfolding complete_recording
  complete_recording-Keeps kind device_id recording_id segment_count after response e =
      let (r, owned, e1) = >>=-eq-ok (owned_recording kind device_id recording_id db) _ e in
      elim (if-eq-ok (is_finished r.status) _ _ e1) [
        | inl (finished, e2) ↦ subst (Keeps db) (ok-first e2) (Keeps-same db)
        | inr (waits, e2) ↦
            (let (stored, c3, e3) =
                >>=-eq-ok (assemble_recording env kind r segment_count db) _ e2 in
              let (shown_r, c4, e4) =
                >>=-eq-ok
                  (found recording_not_found
                    (find_by (is_recording recording_id) stored.recordings))
                  _ e3 in
              subst (Keeps db) (ok-first e4) (
                assemble_recording-Keeps kind r segment_count stored
                  (owned_recording-eq-ok kind device_id recording_id db r owned) c3))
      ]

  pub create_recording-Keeps :
      (device_id : String) (body : RecordingRequest) (after : Db) (response : UploadResponse)
      → create_recording env device_id body db ≡ ok (after, response)
      → Keeps db after
  unfolding create_recording add_recording retry_recording
  create_recording-Keeps device_id body after response e =
      let choice : Option Recording → Type 0 =
        λ o. choose_recording env device_id body db o ≡ ok (after, response) in
      elim (Option-cases (find_by (is_recording body.recording_id) db.recordings)) [
        | inl fresh ↦
            (let (u, c1, e1) =
                >>=-eq-ok (check_receipt env device_id body db) _ (subst choice fresh e) in
              let (v, c2, e2) =
                >>=-eq-ok (require_recording_capacity env body.expected_size_bytes db) _ e1 in
              let (c3, e3) =
                guard-eq-ok (not (takes_step device_id body db.recordings)) duplicate_recording _
                  e2 in
              subst (Keeps db) (ok-first e3)
                (Keeps-new_recording (new_recording env device_id body) db _ fresh))
        | inr (r, there) ↦
            (let (c1, e1) = guard-eq-ok r.is_legacy use_continuous_api _ (subst choice there e) in
              let (c2, e2) =
                guard-eq-ok (str_eq r.device_id device_id) other_device_conflict _ e1 in
              let (c3, e3) = guard-eq-ok (is_same_recording r body) metadata_reused _ e2 in
              let upload = find_upload body.recording_id db in
              elim (if-eq-ok (is_restartable env r.status upload) _ _ e3) [
                | inl (again, e4) ↦
                    (let (v, c5, e5) =
                        >>=-eq-ok (require_recording_capacity env body.expected_size_bytes db) _
                          e4 in
                      let restarted : Recording = record r {
                        status = uploading;
                        updated_at = env.now;
                      } in
                      let k =
                        Keeps-put_recording restarted r db
                          (find_by-is_recording body.recording_id db.recordings r there) refl
                          (not_finished r.status uploading
                            (restartable_lem env r.status upload again)) in
                      subst (Keeps db) (ok-first e5)
                        (Keeps-uploads db (put_recording restarted db) _ k))
                | inr (kept, e4) ↦ subst (Keeps db) (ok-first e4) (Keeps-same db)
              ])
      ]

  receive_recording-Keeps :
      (r : Recording) (offset : ℕ) (request : ContentRequest) (after : Db)
      (response : UploadResponse)
      → find_by (is_recording r.id) db.recordings ≡ some r
      → receive_recording env r offset request db ≡ ok (after, response)
      → Keeps db after
  unfolding receive_recording
  receive_recording-Keeps r offset request after response here e =
      let (accepts, e1) = guard-eq-ok (accepts_segments r.status) not_accepting_content _ e in
      let (p, c2, e2) =
        >>=-eq-ok (found upload_unavailable (find_by (is_pending r.id) db.uploads)) _ e1 in
      let (body, c3, e3) =
        >>=-eq-ok (read_bounded_chunk env.settings.recording_chunk_limit_bytes request) _ e2 in
      let (upload, c4, e4) =
        >>=-eq-ok
          (raised (
            store_chunk env.aead env.cipher r.id env.settings.recording_chunk_limit_bytes env.nonce
              env.now (record p.upload { recording_updated_at = r.updated_at }) offset body))
          _ e3 in
      let touched : Recording = record r { updated_at = upload.recording_updated_at } in
      subst (Keeps db) (ok-first e4) (
        Keeps-uploads db (put_recording touched db) _
          (Keeps-put_recording touched r db here refl (λ finished. finished)))

  pub upload_recording_content-Keeps :
      (device_id recording_id : String) (request : ContentRequest) (after : Db)
      (response : UploadResponse)
      → upload_recording_content env device_id recording_id request db ≡ ok (after, response)
      → Keeps db after
  unfolding upload_recording_content
  upload_recording_content-Keeps device_id recording_id request after response e =
      let (offset, c1, e1) = >>=-eq-ok (found offset_required request.upload_offset) _ e in
      let (c2, e2) = guard-eq-ok request.is_offset_stream wrong_content_type _ e1 in
      let (r, c3, e3) = >>=-eq-ok (get_owned_recording device_id recording_id db) _ e2 in
      elim (if-eq-ok (is_finished r.status) _ _ e3) [
        | inl (finished, e4) ↦ subst (Keeps db) (ok-first e4) (Keeps-same db)
        | inr (waits, e4) ↦
            receive_recording-Keeps r offset request after response
              (get_owned_recording-eq-ok device_id recording_id db r c3) e4
      ]

  finish_recording-Keeps :
      (r : Recording) (after : Db) (response : UploadResponse)
      → find_by (is_recording r.id) db.recordings ≡ some r
      → finish_recording env r db ≡ ok (after, response)
      → Keeps db after
  unfolding finish_recording finalize_recording
  finish_recording-Keeps r after response here e =
      let (waits, e1) = guard-eq-ok (accepts_segments r.status) cannot_complete _ e in
      let (p, c2, e2) =
        >>=-eq-ok (found upload_unavailable (find_by (is_pending r.id) db.uploads)) _ e1 in
      let (final, c3, e3) = >>=-eq-ok (raised (finalize_recording env r p.upload db)) _ e2 in
      let (source, f1, g1) =
        >>=-eq-ok (read_uploaded_wav env.aead env.cipher r.id env.sha256 p.upload) _
          (raised-eq-ok _ c3) in
      let (details, f2, g2) = >>=-eq-ok (inspect_caller_wav env.tools source r.duration_ms) _ g1 in
      let (encoded, f3, g3) = >>=-eq-ok (transcode_voicemail env.tools source) _ g2 in
      let (encrypted, f4, g4) =
        >>=-eq-ok (encrypt_media env.aead env.cipher env.nonce r.id encoded) _ g3 in
      let (f5, g5) = guard-eq-ok env.has_policy policy_unavailable _ g4 in
      let (f6, g6) =
        guard-eq-ok
          (not (
            ltb env.settings.recording_quota_bytes
              (recording_used_bytes (some r.id) none db + length encrypted)))
          quota_full _ g5 in
      let row = final_recording env r details encoded encrypted in
      let k : Keeps db (put_recording final db) =
        subst (λ f. Keeps db (put_recording f db)) (ok-same g6)
          (Keeps-put_recording row r db here refl (λ finished. refl)) in
      subst (Keeps db) (ok-first e3) (Keeps-uploads db (put_recording final db) _ k)

  pub complete_voicemail-Keeps :
      (device_id recording_id : String) (after : Db) (response : UploadResponse)
      → complete_voicemail env device_id recording_id db ≡ ok (after, response)
      → Keeps db after
  unfolding complete_voicemail
  complete_voicemail-Keeps device_id recording_id after response e =
      let (r, c1, e1) = >>=-eq-ok (get_owned_recording device_id recording_id db) _ e in
      elim (if-eq-ok (is_finished r.status) _ _ e1) [
        | inl (finished, e2) ↦ subst (Keeps db) (ok-first e2) (Keeps-same db)
        | inr (waits, e2) ↦
            finish_recording-Keeps r after response
              (get_owned_recording-eq-ok device_id recording_id db r c1) e2
      ]
