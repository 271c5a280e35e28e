-- ===== src/Api/Lifecycle/Segments.antt =====
-- The handlers of segments and the acknowledgements.
use ivrdroid.Api.Sums.{find_by-is_segment}
use ivrdroid.Recordings.Upload.{store_chunk}
use ivrdroid.Api.Quota.{require_capacity}
use ivrdroid.Api.Capacity.Content.{found-is_segment}
use ivrdroid.Recordings.Audio.{WavDetails}
use ivrdroid.Api.Lifecycle.{Keeps-new_segment, Keeps-put_segment, Keeps-same, Keeps}
use ivrdroid.Api.Segments.{
  new_segment, is_contiguous, call_ended_at, tolerance, choose_segment, restarted_segment,
  accepts_segments, receipt_matches, is_same, kind_of, SegmentRequest, SegmentResponse, add_segment,
  create_segment, retry_segment, is_failed,
}
use ivrdroid.Api.Content.{
  verified_segment, is_restarted, verify_segment, read_bounded_chunk, replied, ContentRequest,
  remove_upload_files, after_failure, after_verification, complete_owned, complete_segment,
  finish_segment, receive_segment, upload_segment_content, accepts_content,
}
use ivrdroid.Api.{
  exceeds_duration_bound, timing_not_contiguous, timestamp_outside, is_call, uploading_segment,
  call_not_terminal, not_accepting_segments, receipt_mismatch, raised, already_complete,
  cannot_complete, failed_segment, index_mismatch, metadata_reused, wrong_content_type, is_finished,
  not_accepting_content, offset_required, owned_segment, RecordingError, found, is_segment,
  owned_recording, Segment, find_by, Kind, Recording, Checked, Db, is_accepted, Env, SegmentStatus,
  put_segment,
}
use ivrdroid.Base.{
  ℕ, ◌≡◌, String, Option, none, some, Bool, true, false, if◌then◌else◌, ◌&&◌, ◌||◌, not, ltb, ◌==◌,
  ◌+◌, ◌*◌, max, arith, refl, sym, subst, ok, err, Result, str_eq, guard-eq-ok, >>=-eq-ok, if-eq-ok,
  ok-first, ok-same, Option-cases, Bool-cases, inl, inr,
}

-- What is not accepted need not stay so.
not_accepted :
    (status status' : SegmentStatus)
    → is_accepted status ≡ false
    → is_accepted status ≡ true
    → is_accepted status' ≡ true
not_accepted status status' f t = cc

failed_lem : (s : SegmentStatus) → is_failed s ≡ true → is_accepted s ≡ false
failed_lem s e = ground (arith, e)

waits_lem : (s : SegmentStatus) → accepts_content s ≡ true → is_accepted s ≡ false
waits_lem s e = ground (arith, e)

module _ (env : Env) (db : Db) where
  retry_segment-Keeps :
      (body : SegmentRequest) (s : Segment) (after : Db) (response : SegmentResponse)
      → find_by (is_segment s.recording_id s.segment_index) db.segments ≡ some s
      → retry_segment env body s db ≡ ok (after, response)
      → Keeps db after
  unfolding retry_segment
  retry_segment-Keeps body s after response here e =
      let (same, e1) = guard-eq-ok (is_same s body) metadata_reused _ e in
      elim (if-eq-ok (is_failed s.status) _ _ e1) [
        | inl (again, e2) ↦
            (let (u, room, e3) =
                >>=-eq-ok (require_capacity env (kind_of body.receipt) body.expected_size_bytes db)
                  _ e2 in
              subst (Keeps db) (ok-first e3) (
                Keeps-put_segment (restarted_segment env s) s db here refl refl
                  (not_accepted s.status uploading_segment (failed_lem s.status again))))
        | inr (kept, e2) ↦ subst (Keeps db) (ok-first e2) (Keeps-same db)
      ]

  add_segment-Keeps :
      (body : SegmentRequest) (r : Recording) (after : Db) (response : SegmentResponse)
      → find_by (is_segment r.id body.segment_index) db.segments ≡ none
      → add_segment env body r db ≡ ok (after, response)
      → Keeps db after
  unfolding add_segment
  add_segment-Keeps body r after response fresh e =
      let (c1, e1) = guard-eq-ok (not (is_finished r.status)) already_complete _ e in
      let (c2, e2) = guard-eq-ok (accepts_segments r.status) not_accepting_segments _ e1 in
      let (call, c3, e3) =
        >>=-eq-ok (found call_not_terminal (find_by (is_call r.call_id) db.calls)) _ e2 in
      let (c4, e4) = guard-eq-ok (not call.in_progress) call_not_terminal _ e3 in
      let (c5, e5) =
        guard-eq-ok
          (not (
            ltb (body.captured_at + tolerance) (max call.started_at r.captured_at)
            || ltb (call_ended_at call + tolerance) body.captured_at))
          timestamp_outside _ e4 in
      let (c6, e6) = guard-eq-ok (is_contiguous body.receipt r body) timing_not_contiguous _ e5 in
      let (c7, e7) =
        guard-eq-ok
          (not (
            ltb env.settings.recording_upload_limit_bytes body.expected_size_bytes
            || ltb (44 + body.duration_ms * 192 + 4096) body.expected_size_bytes))
          exceeds_duration_bound _ e6 in
      let (u, room, e8) =
        >>=-eq-ok (require_capacity env (kind_of body.receipt) body.expected_size_bytes db) _ e7 in
      subst (Keeps db) (ok-first e8) (Keeps-new_segment (new_segment env body r) db fresh)

  pub create_segment-Keeps :
      (device_id recording_id : String) (segment_index : ℕ) (body : SegmentRequest) (after : Db)
      (response : SegmentResponse)
      → create_segment env device_id recording_id segment_index body db ≡ ok (after, response)
      → Keeps db after
  unfolding create_segment
  create_segment-Keeps device_id recording_id segment_index body after response e =
      let (r, owned, e1) =
        >>=-eq-ok (owned_recording (kind_of body.receipt) device_id recording_id db) _ e in
      let (c1, e2) = guard-eq-ok (segment_index == body.segment_index) index_mismatch _ e1 in
      let (c2, e3) =
        guard-eq-ok
          (str_eq body.recording_id r.id
            && (str_eq body.call_id r.call_id && receipt_matches body.receipt r))
          receipt_mismatch _ e2 in
      let choice : Option Segment → Type 0 =
        λ o. choose_segment env body r db o ≡ ok (after, response) in
      elim (Option-cases (find_by (is_segment r.id body.segment_index) db.segments)) [
        | inl fresh ↦ add_segment-Keeps body r after response fresh (subst choice fresh e3)
        | inr (s, there) ↦
            retry_segment-Keeps body s after response
              (find_by-is_segment r.id body.segment_index db.segments s there)
              (subst choice there e3)
      ]

  receive_segment-Keeps :
      (r : Recording) (s : Segment) (offset : ℕ) (request : ContentRequest) (after : Db)
      (response : SegmentResponse)
      → find_by (is_segment s.recording_id s.segment_index) db.segments ≡ some s
      → receive_segment env r s offset request db ≡ ok (after, response)
      → Keeps db after
  unfolding receive_segment
  receive_segment-Keeps r s offset request after response here e =
      let (c1, e1) = guard-eq-ok (accepts_content s.status) not_accepting_content _ e in
      let (body, read, e2) =
        >>=-eq-ok (read_bounded_chunk env.settings.recording_chunk_limit_bytes request) _ e1 in
      let (upload, stored, e3) =
        >>=-eq-ok
          (raised (
            store_chunk env.aead env.cipher (env.segment_identity r.id s.segment_index)
              env.settings.recording_chunk_limit_bytes env.nonce env.now s.upload offset body))
          _ e2 in
      subst (Keeps db) (ok-first e3) (
        Keeps-put_segment (record s { upload = upload }) s db here refl refl (λ accepted. accepted))

  pub upload_segment_content-Keeps :
      (kind : Kind) (device_id recording_id : String) (segment_index : ℕ) (request : ContentRequest)
      (after : Db) (response : SegmentResponse)
      → upload_segment_content env kind device_id recording_id segment_index request db
        ≡ ok (after, response)
      → Keeps db after
  unfolding upload_segment_content
  upload_segment_content-Keeps kind device_id recording_id segment_index request after response e =
      let (offset, c1, e1) = >>=-eq-ok (found offset_required request.upload_offset) _ e in
      let (c2, e2) = guard-eq-ok request.is_offset_stream wrong_content_type _ e1 in
      let (r, c3, e3) = >>=-eq-ok (owned_recording kind device_id recording_id db) _ e2 in
      let (s, c4, e4) = >>=-eq-ok (owned_segment r segment_index db) _ e3 in
      elim (if-eq-ok (is_accepted s.status) _ _ e4) [
        | inl (accepted, e5) ↦ subst (Keeps db) (ok-first e5) (Keeps-same db)
        | inr (waits, e5) ↦
            receive_segment-Keeps r s offset request after response
              (found-is_segment r segment_index db s c4) e5
      ]

  after_verification-Keeps :
      (kind : Kind) (s : Segment) (o : Result RecordingError WavDetails)
      → find_by (is_segment s.recording_id s.segment_index) db.segments ≡ some s
      → accepts_content s.status ≡ true
      → Keeps db (after_verification env kind s db o).0
  unfolding after_verification after_failure remove_upload_files
  after_verification-Keeps kind s (err error) here waits =
      let reset : Segment = record s {
        status = failed_segment;
        upload =
            remove_upload_files
              (record s.upload { updated_at = env.now; recording_updated_at = env.now });
      } in
      let choice : Bool → Type 0 = λ b. Keeps db (if b then put_segment reset db else db) in
      elim (Bool-cases (is_restarted env kind error)) [
        | inl again ↦ subst choice (sym again) (
            Keeps-put_segment reset s db here refl refl
              (not_accepted s.status failed_segment (waits_lem s.status waits)))
        | inr kept ↦ subst choice (sym kept) (Keeps-same db)
      ]
  after_verification-Keeps kind s (ok details) here waits =
      Keeps-put_segment (verified_segment env s details) s db here refl refl (λ accepted. refl)

  finish_segment-Keeps :
      (kind : Kind) (r : Recording) (s : Segment) (answer : Db × Checked SegmentResponse)
      → find_by (is_segment s.recording_id s.segment_index) db.segments ≡ some s
      → finish_segment env kind r s db ≡ ok answer
      → Keeps db answer.0
  unfolding finish_segment
  finish_segment-Keeps kind r s answer here e = elim (if-eq-ok (is_accepted s.status) _ _ e) [
    | inl (accepted, e1) ↦ subst (λ a. Keeps db a.0) (ok-same e1) (Keeps-same db)
    | inr (waits, e1) ↦
        (let (c, e2) = guard-eq-ok (accepts_content s.status) cannot_complete _ e1 in
          subst (λ a. Keeps db a.0) (ok-same e2)
            (after_verification-Keeps kind s (verify_segment env r s) here c))
  ]

  replied-Keeps :
      (answer : Checked (Db × Checked SegmentResponse))
      → ((a : Db × Checked SegmentResponse) → answer ≡ ok a → Keeps db a.0)
      → Keeps db (replied env db answer).0
  replied-Keeps (ok a) h = h a refl
  replied-Keeps (err error) h = Keeps-same db

  complete_owned-Keeps :
      (kind : Kind) (device_id recording_id : String) (segment_index : ℕ)
      (a : Db × Checked SegmentResponse)
      → complete_owned env kind device_id recording_id segment_index db ≡ ok a
      → Keeps db a.0
  unfolding complete_owned
  complete_owned-Keeps kind device_id recording_id segment_index a e =
      let (r, c1, e1) = >>=-eq-ok (owned_recording kind device_id recording_id db) _ e in
      let (s, c2, e2) = >>=-eq-ok (owned_segment r segment_index db) _ e1 in
      finish_segment-Keeps kind r s a (found-is_segment r segment_index db s c2) e2

  pub complete_segment-Keeps :
      (kind : Kind) (device_id recording_id : String) (segment_index : ℕ)
      → Keeps db (complete_segment env kind device_id recording_id segment_index db).0
  unfolding complete_segment
  complete_segment-Keeps kind device_id recording_id segment_index =
      replied-Keeps (complete_owned env kind device_id recording_id segment_index db)
        (complete_owned-Keeps kind device_id recording_id segment_index)
