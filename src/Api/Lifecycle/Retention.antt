-- ===== src/Api/Lifecycle/Retention.antt =====
-- New conversations and session audits, deletion, expiry and clean-up, and the acknowledgements.
use ivrdroid.Api.Capacity.{found-eq-ok}
use ivrdroid.Api.Sums.{find_by-is_recording}
use ivrdroid.Api.Complete.{RecordingResponse}
use ivrdroid.Api.Lifecycle.{
  Keeps-put_recording, Keeps-new_recording, Keeps-map-recordings, Keeps-map, Keeps-same, Keeps,
}
use ivrdroid.Api.{
  identity_reused, metadata_reused, session_audit, other_device_conflict, same_kind,
  pending_recording, use_continuous_api, duplicate_recording, find_by, recording_not_found, found,
  is_finished, is_recording, Recording, Db, Env,
}
use ivrdroid.Api.Create.{
  is_conversation_of, check_conversation, has_audit, choose_session, check_session,
  choose_conversation, AuditRequest, ConversationRequest, create_conversation_recording,
  create_session_recording, empty_recording,
}
use ivrdroid.Api.Retention.{
  is_ready, is_deleted, fail_segment, expire, fail_recording, delete_recording, tombstone_recording,
  purge_expired_recordings, cleanup_abandoned_uploads,
}
use ivrdroid.Base.{
  ℕ, ◌≡◌, String, Option, none, some, true, ◌&&◌, not, arith, refl, subst, ok, str_eq, guard-eq-ok,
  >>=-eq-ok, if-eq-ok, ok-first, Option-cases, inl, inr,
}

module _ (env : Env) (db : Db) where
  pub create_conversation_recording-Keeps :
      (device_id : String) (body : ConversationRequest) (after : Db) (response : RecordingResponse)
      → create_conversation_recording env device_id body db ≡ ok (after, response)
      → Keeps db after
  unfolding create_conversation_recording empty_recording
  create_conversation_recording-Keeps device_id body after response e =
      let choice : Option Recording → Type 0 =
        λ o. choose_conversation env device_id body db o ≡ ok (after, response) in
      elim (Option-cases (find_by (is_recording body.recording_id) db.recordings)) [
        | inl fresh ↦
            (let (u, c1, e1) =
                >>=-eq-ok (check_conversation env device_id body db) _ (subst choice fresh e) in
              subst (Keeps db) (ok-first e1) (Keeps-new_recording _ db db.uploads fresh))
        | inr (r, there) ↦
            (let (c1, e1) = guard-eq-ok r.is_legacy use_continuous_api _ (subst choice there e) in
              let (c2, e2) =
                guard-eq-ok (str_eq r.device_id device_id) other_device_conflict _ e1 in
              let (c3, e3) = guard-eq-ok (is_conversation_of r body) metadata_reused _ e2 in
              subst (Keeps db) (ok-first e3) (Keeps-same db))
      ]

  pub create_session_recording-Keeps :
      (device_id : String) (body : AuditRequest) (after : Db) (response : RecordingResponse)
      → create_session_recording env device_id body db ≡ ok (after, response)
      → Keeps db after
  unfolding create_session_recording empty_recording
  create_session_recording-Keeps device_id body after response e =
      let ((call, report), c0, e0) = >>=-eq-ok (check_session env device_id body db) _ e in
      let choice : Option Recording → Type 0 =
        λ o. choose_session env device_id body call report db o ≡ ok (after, response) in
      elim (Option-cases (find_by (is_recording body.recording_id) db.recordings)) [
        | inl fresh ↦
            (let (c1, e1) =
                guard-eq-ok (not (has_audit device_id body.call_id db.recordings))
                  duplicate_recording _ (subst choice fresh e0) in
              subst (Keeps db) (ok-first e1) (Keeps-new_recording _ db db.uploads fresh))
        | inr (r, there) ↦
            (let (c1, e1) = guard-eq-ok r.is_legacy use_continuous_api _ (subst choice there e0) in
              let (c2, e2) =
                guard-eq-ok
                  (str_eq r.device_id device_id
                    && (same_kind r.kind session_audit && str_eq r.call_id body.call_id))
                  identity_reused _ e1 in
              subst (Keeps db) (ok-first e2) (Keeps-same db))
      ]

  pub delete_recording-Keeps :
      (recording_id : String) (after : Db) (u : Unit {0})
      → delete_recording env recording_id db ≡ ok (after, u)
      → Keeps db after
  unfolding delete_recording tombstone_recording
  delete_recording-Keeps recording_id after u e =
      let (r, c1, e1) =
        >>=-eq-ok (found recording_not_found (find_by (is_recording recording_id) db.recordings)) _
          e in
      elim (if-eq-ok (is_deleted r.status) _ _ e1) [
        | inl (gone, e2) ↦ subst (Keeps db) (ok-first e2) (Keeps-same db)
        | inr (there, e2) ↦
            (let (c3, e3) = guard-eq-ok (is_ready r.status) pending_recording _ e2 in
              let place = find_by-is_recording recording_id db.recordings r (
                found-eq-ok recording_not_found (find_by (is_recording recording_id) db.recordings)
                  c1) in
              subst (Keeps db) (ok-first e3) (
                Keeps-put_recording (tombstone_recording env.now r) r db place refl
                  (λ finished. refl)))
      ]

  expire-id :
      (days : ℕ) (id : String) (r : Recording)
      → is_recording id (expire env days r) ≡ is_recording id r
  unfolding tombstone_recording
  expire-id days id r = ground arith

  expire-status :
      (days : ℕ) (r : Recording)
      → is_finished r.status ≡ true
      → is_finished (expire env days r).status ≡ true
  unfolding tombstone_recording
  expire-status days r h = ground (arith, h)

  pub purge_expired_recordings-Keeps :
      (days : Option ℕ) → Keeps db (purge_expired_recordings env days db)
  unfolding purge_expired_recordings
  purge_expired_recordings-Keeps none = Keeps-same db
  purge_expired_recordings-Keeps (some days) =
      Keeps-map-recordings (expire env days) db (expire-id days) (expire-status days)

  pub cleanup_abandoned_uploads-Keeps : Keeps db (cleanup_abandoned_uploads env db)
  unfolding cleanup_abandoned_uploads
  cleanup_abandoned_uploads-Keeps =
      Keeps-map (fail_recording env db.continuous db.uploads) (fail_segment env) _ db
        (λ id r. ground arith) (λ r h. ground (arith, h)) (λ id index s. ground arith)
        (λ s h. ground (arith, h))
