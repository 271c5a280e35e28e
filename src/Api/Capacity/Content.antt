-- ===== src/Api/Capacity/Content.antt =====
-- The handlers that receive and complete a segment against the quota of the recordings.
use ivrdroid.Recordings.Upload.{store_chunk}
use ivrdroid.Recordings.Audio.{WavDetails}
use ivrdroid.Api.Sums.{find_by-is_segment}
use ivrdroid.Api.Capacity.Segments.{Within}
use ivrdroid.Api.Segments.{segment_response, SegmentResponse}
use ivrdroid.Api.Capacity.{raised-eq-ok, used-put_segment, found-eq-ok, used}
use ivrdroid.Api.Quota.{reserved_bytes}
use ivrdroid.Api.{
  cannot_complete, owned_recording, raised, wrong_content_type, is_accepted, offset_required,
  segment_not_found, failed_segment, found, not_accepting_content, put_segment, RecordingError,
  Checked, Kind, is_segment, find_by, Db, Recording, Env, Segment, owned_segment,
}
use ivrdroid.Recordings.Upload.Steps.{store_chunk-size}
use ivrdroid.Api.Content.{
  complete_owned, replied, verify_segment, is_restarted, read_bounded_chunk, ContentRequest,
  remove_upload_files, after_failure, after_verification, finish_segment, receive_segment,
  accepts_content, upload_segment_content, complete_segment,
}
use ivrdroid.Base.{
  if-eq-ok, ℕ, ◌≡◌, ◌≤◌, String, some, Bool, true, arith, refl, sym, subst, if◌then◌else◌, ok, err,
  Result, guard-eq-ok, >>=-eq-ok, Bool-cases, inl, inr,
}

-- A segment of the same status and size has the same weight.
reserved_bytes_same :
    (s t : Segment)
    → s.status ≡ t.status
    → s.upload.expected_size_bytes ≡ t.upload.expected_size_bytes
    → reserved_bytes s ≡ reserved_bytes t
reserved_bytes_same s t e size = cc

reserved_uploading :
    (s : Segment)
    → accepts_content s.status ≡ true
    → reserved_bytes s ≡ s.upload.expected_size_bytes
reserved_uploading s e = ground (arith, e)

pub found-is_segment :
    (r : Recording) (segment_index : ℕ) (db : Db) (s : Segment)
    → owned_segment r segment_index db ≡ ok s
    → find_by (is_segment s.recording_id s.segment_index) db.segments ≡ some s
unfolding owned_segment
found-is_segment r segment_index db s e =
    find_by-is_segment r.id segment_index db.segments s
      (found-eq-ok segment_not_found (find_by (is_segment r.id segment_index) db.segments) e)

module _ (env : Env) (db : Db) (fits : used db ≤ env.settings.recording_quota_bytes) where
  put_segment-Within :
      (s t : Segment)
      → find_by (is_segment s.recording_id s.segment_index) db.segments ≡ some t
      → reserved_bytes s ≤ reserved_bytes t
      → Within env db fits (put_segment s db)
  put_segment-Within s t here small = omega (arith, used-put_segment s t db here, small, fits)

  receive_segment-Within :
      (r : Recording) (s : Segment) (offset : ℕ) (request : ContentRequest) (after : Db)
      (response : SegmentResponse)
      → find_by (is_segment s.recording_id s.segment_index) db.segments ≡ some s
      → receive_segment env r s offset request db ≡ ok (after, response)
      → Within env db fits after
  unfolding receive_segment
  receive_segment-Within r s offset request after response here e =
      let (c1, e1) = guard-eq-ok (accepts_content s.status) not_accepting_content _ e in
      let (body, read, e2) =
        >>=-eq-ok (read_bounded_chunk env.settings.recording_chunk_limit_bytes request) _ e1 in
      let (upload, stored, e3) =
        >>=-eq-ok
          (raised (
            store_chunk env.aead env.cipher (env.segment_identity r.id s.segment_index)
              env.settings.recording_chunk_limit_bytes env.nonce env.now s.upload offset body))
          _ e2 in
      let size =
        store_chunk-size env.aead env.cipher (env.segment_identity r.id s.segment_index)
          env.settings.recording_chunk_limit_bytes env.nonce env.now s.upload offset body upload
          (raised-eq-ok _ stored) in
      let next : Segment = record s { upload = upload } in
      let same : put_segment next db ≡ after = cc in
      subst (Within env db fits) same
        (put_segment-Within next s here (omega (arith, reserved_bytes_same next s refl size)))

  -- The upload of content.
  pub upload_segment_content-Within :
      (kind : Kind) (device_id recording_id : String) (segment_index : ℕ) (request : ContentRequest)
      (after : Db) (response : SegmentResponse)
      → upload_segment_content env kind device_id recording_id segment_index request db
        ≡ ok (after, response)
      → Within env db fits after
  unfolding upload_segment_content
  upload_segment_content-Within kind device_id recording_id segment_index request after response e =
      let (offset, c1, e1) = >>=-eq-ok (found offset_required request.upload_offset) _ e in
      let (c2, e2) = guard-eq-ok request.is_offset_stream wrong_content_type _ e1 in
      let (r, c3, e3) = >>=-eq-ok (owned_recording kind device_id recording_id db) _ e2 in
      let (s, c4, e4) = >>=-eq-ok (owned_segment r segment_index db) _ e3 in
      elim (if-eq-ok (is_accepted s.status) _ _ e4) [
        | inl (accepted, e5) ↦ (let same : db ≡ after = cc in subst (Within env db fits) same fits)
        | inr (waits, e5) ↦
            receive_segment-Within r s offset request after response
              (found-is_segment r segment_index db s c4) e5
      ]

  after_failure-Within :
      (kind : Kind) (s : Segment) (error : RecordingError)
      → find_by (is_segment s.recording_id s.segment_index) db.segments ≡ some s
      → Within env db fits (after_failure env kind s error db)
  unfolding after_failure remove_upload_files
  after_failure-Within kind s error here =
      let reset : Segment = record s {
        status = failed_segment;
        upload =
            remove_upload_files
              (record s.upload { updated_at = env.now; recording_updated_at = env.now });
      } in
      let choice : Bool → Type 0 =
        λ b. Within env db fits (if b then put_segment reset db else db) in
      elim (Bool-cases (is_restarted env kind error)) [
        | inl again ↦ subst choice (sym again) (put_segment-Within reset s here (omega arith))
        | inr kept ↦ subst choice (sym kept) fits
      ]

  after_verification-Within :
      (kind : Kind) (s : Segment) (o : Result RecordingError WavDetails)
      → find_by (is_segment s.recording_id s.segment_index) db.segments ≡ some s
      → accepts_content s.status ≡ true
      → Within env db fits (after_verification env kind s db o).0
  unfolding after_verification
  after_verification-Within kind s (err error) here waits = after_failure-Within kind s error here
  after_verification-Within kind s (ok details) here waits =
      put_segment-Within _ s here (omega (arith, reserved_uploading s waits))

  finish_segment-Within :
      (kind : Kind) (r : Recording) (s : Segment) (answer : Db × Checked SegmentResponse)
      → find_by (is_segment s.recording_id s.segment_index) db.segments ≡ some s
      → finish_segment env kind r s db ≡ ok answer
      → Within env db fits answer.0
  unfolding finish_segment
  finish_segment-Within kind r s answer here e = elim (if-eq-ok (is_accepted s.status) _ _ e) [
    | inl (accepted, e1) ↦
        (let same : (db, ok (segment_response s)) ≡ answer = cc in
          subst (λ a. Within env db fits a.0) same fits)
    | inr (waits, e1) ↦
        (let (c, e2) = guard-eq-ok (accepts_content s.status) cannot_complete _ e1 in
          let same : after_verification env kind s db (verify_segment env r s) ≡ answer = cc in
          subst (λ a. Within env db fits a.0) same
            (after_verification-Within kind s (verify_segment env r s) here c))
  ]

  replied-Within :
      (answer : Checked (Db × Checked SegmentResponse))
      → ((a : Db × Checked SegmentResponse) → answer ≡ ok a → Within env db fits a.0)
      → Within env db fits (replied env db answer).0
  replied-Within (ok a) h = h a refl
  replied-Within (err error) h = fits

  complete_owned-Within :
      (kind : Kind) (device_id recording_id : String) (segment_index : ℕ)
      (a : Db × Checked SegmentResponse)
      → complete_owned env kind device_id recording_id segment_index db ≡ ok a
      → Within env db fits a.0
  unfolding complete_owned
  complete_owned-Within kind device_id recording_id segment_index a e =
      let (r, c1, e1) = >>=-eq-ok (owned_recording kind device_id recording_id db) _ e in
      let (s, c2, e2) = >>=-eq-ok (owned_segment r segment_index db) _ e1 in
      finish_segment-Within kind r s a (found-is_segment r segment_index db s c2) e2

  -- The completion of a segment, also if it fails.
  pub complete_segment-Within :
      (kind : Kind) (device_id recording_id : String) (segment_index : ℕ)
      → Within env db fits (complete_segment env kind device_id recording_id segment_index db).0
  unfolding complete_segment
  complete_segment-Within kind device_id recording_id segment_index =
      replied-Within (complete_owned env kind device_id recording_id segment_index db)
        (complete_owned-Within kind device_id recording_id segment_index)
