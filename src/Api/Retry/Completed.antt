-- ===== src/Api/Retry/Completed.antt =====
-- A device that repeats the creation of a segment when its completion was answered.
use ivrdroid.Api.Retry.{owned_recording_same}
use ivrdroid.Api.Sums.{find_by-replace_by, is_segment_same, test-find_by}
use ivrdroid.Api.Content.{
  finish_segment, complete_owned, after_verification, complete_segment, verify_segment,
  verified_segment,
}
use ivrdroid.Recordings.Audio.{WavDetails}
use ivrdroid.Api.{
  owned_segment, RecordingError, replace_by, Kind, metadata_reused, is_segment, find_by,
  receipt_mismatch, index_mismatch, Segment, owned_recording, Recording, Db, uploading_segment, Env,
  put_segment,
}
use ivrdroid.Api.Segments.{
  choose_segment, segment_response, receipt_matches, kind_of, SegmentResponse, SegmentRequest,
  create_segment, retry_segment, is_same,
}
use ivrdroid.Base.{
  ok-same, ℕ, ◌≡◌, String, some, true, if◌then◌else◌, ◌&&◌, ◌==◌, arith, refl, sym, ◌∙◌, ap, subst,
  ok, err, Result, str_eq, guard-eq-ok, >>=-eq-ok,
}

-- What a completion that answers leaves: the verified segment at the place of its index.
record Completed (env : Env) (r : Recording) (s : Segment) (segment_index : ℕ) (db after : Db)
    (response : SegmentResponse) : Type 0 where
  details : WavDetails
  verifies : verify_segment env r s ≡ ok details
  kept : after.recordings ≡ db.recordings
  there :
      find_by (is_segment r.id segment_index) after.segments ≡ some (verified_segment env s details)
  replied_to : segment_response (verified_segment env s details) ≡ response

after_verification-Completed :
    (env : Env) (kind : Kind) (r : Recording) (s : Segment) (segment_index : ℕ) (db after : Db)
    (response : SegmentResponse) (v : Result RecordingError WavDetails)
    → find_by (is_segment r.id segment_index) db.segments ≡ some s
    → verify_segment env r s ≡ v
    → after_verification env kind s db v ≡ (after, ok response)
    → Completed env r s segment_index db after response
unfolding after_verification put_segment
after_verification-Completed env kind r s segment_index db after response (err error) there v e = cc
after_verification-Completed env kind r s segment_index db after response (ok details) there v e =
    let done = verified_segment env s details in
    let test = is_segment r.id segment_index in
    let passes : test s ≡ true = test-find_by test db.segments s there in
    let own : is_segment s.recording_id s.segment_index ≡ test =
      is_segment_same r.id segment_index s passes in
    let place : find_by test
          (replace_by (is_segment s.recording_id s.segment_index) done db.segments)
        ≡ some done =
      rw own (find_by-replace_by test done db.segments s there passes) in
    subst (λ d. Completed env r s segment_index db d response) (ap (λ p. p.0) e)
      (record {
        details = details;
        verifies = v;
        kept = refl;
        there = place;
        replied_to = ok-same (ap (λ p. p.1) e);
      })

complete_segment-Completed :
    (env : Env) (kind : Kind) (device_id recording_id : String) (segment_index : ℕ) (r : Recording)
    (s : Segment) (db after : Db) (response : SegmentResponse)
    → owned_recording kind device_id recording_id db ≡ ok r
    → find_by (is_segment r.id segment_index) db.segments ≡ some s
    → s.status ≡ uploading_segment
    → complete_segment env kind device_id recording_id segment_index db ≡ (after, ok response)
    → Completed env r s segment_index db after response
unfolding complete_segment complete_owned finish_segment owned_segment
complete_segment-Completed env kind device_id recording_id segment_index r s db after response owned
      there uploading_now e =
    let run : complete_segment env kind device_id recording_id segment_index db
        ≡ after_verification env kind s db (verify_segment env r s) =
      rw (owned, there, uploading_now) refl in
    after_verification-Completed env kind r s segment_index db after response _ there refl
      (sym run ∙ e)

-- A creation that finds the verified segment compares the measured duration.
create_segment-verified :
    (env env' : Env) (device_id recording_id : String) (segment_index : ℕ) (body : SegmentRequest)
    (db : Db) (r : Recording) (s : Segment) (details : WavDetails)
    → owned_recording (kind_of body.receipt) device_id recording_id db ≡ ok r
    → (segment_index == body.segment_index) ≡ true
    → (str_eq body.recording_id r.id
        && (str_eq body.call_id r.call_id && receipt_matches body.receipt r))
      ≡ true
    → find_by (is_segment r.id body.segment_index) db.segments
      ≡ some (verified_segment env s details)
    → is_same s body ≡ true
    → create_segment env' device_id recording_id segment_index body db ≡ (
        if details.duration_ms == body.duration_ms
        then ok (db, segment_response (verified_segment env s details))
        else err metadata_reused)
unfolding create_segment retry_segment is_same
create_segment-verified env env' device_id recording_id segment_index body db r s details owned c1
      c2 there same =
    rw (owned, c1, c2, there) (ground (arith, same))

-- A segment that was created, and is uploaded and completed, was verified; and the creation that is
-- then sent again, with the same receipt, is answered as the completion was and changes nothing if the
-- duration that the verification measured is the declared one, and is refused as a reuse of the index
-- if it is not. The segment is uploading, and its receipt agrees with the one that is sent again: the
-- creation is accepted before the completion too.
pub create_segment-complete_segment :
    (env env' env'' : Env) (device_id recording_id : String) (segment_index : ℕ)
    (body : SegmentRequest) (db db' after : Db) (r : Recording) (s : Segment)
    (response' response : SegmentResponse)
    → owned_recording (kind_of body.receipt) device_id recording_id db ≡ ok r
    → find_by (is_segment r.id segment_index) db.segments ≡ some s
    → s.status ≡ uploading_segment
    → create_segment env device_id recording_id segment_index body db ≡ ok (db', response')
    → complete_segment env' (kind_of body.receipt) device_id recording_id segment_index db
      ≡ (after, ok response)
    → (details : WavDetails) × (verify_segment env' r s ≡ ok details)
      × (create_segment env'' device_id recording_id segment_index body after ≡ (
          if details.duration_ms == body.duration_ms
          then ok (after, response)
          else err metadata_reused))
unfolding create_segment retry_segment
create_segment-complete_segment env env' env'' device_id recording_id segment_index body db db'
      after r s response' response owned there uploading_now created completed =
    let (r', owned', e1) =
      >>=-eq-ok (owned_recording (kind_of body.receipt) device_id recording_id db) _ created in
    let same_r : r' ≡ r = ok-same (sym owned' ∙ owned) in
    let (c1, e2) = guard-eq-ok (segment_index == body.segment_index) index_mismatch _ e1 in
    let index : segment_index ≡ body.segment_index = ground (arith, c1) in
    let (c2, e3) =
      guard-eq-ok
        (str_eq body.recording_id r'.id
          && (str_eq body.call_id r'.call_id && receipt_matches body.receipt r'))
        receipt_mismatch _ e2 in
    let there' : find_by (is_segment r'.id body.segment_index) db.segments ≡ some s =
      subst (λ q. find_by (is_segment q.id body.segment_index) db.segments ≡ some s) (sym same_r)
        (subst (λ i. find_by (is_segment r.id i) db.segments ≡ some s) index there) in
    let (same, e4) =
      guard-eq-ok (is_same s body) metadata_reused _
        (subst (λ o. choose_segment env body r' db o ≡ ok (db', response')) there' e3) in
    let c =
      complete_segment-Completed env' (kind_of body.receipt) device_id recording_id segment_index r
        s db after response owned there uploading_now completed in
    (
      c.details,
      c.verifies,
      subst
          (λ q. create_segment env'' device_id recording_id segment_index body after ≡ (
            if c.details.duration_ms == body.duration_ms
            then ok (after, q)
            else err metadata_reused))
          c.replied_to
          (create_segment-verified env' env'' device_id recording_id segment_index body after r s
            c.details
            (owned_recording_same (kind_of body.receipt) device_id recording_id db after c.kept
              ∙ owned)
            c1
            (subst
              (λ q.
                (str_eq body.recording_id q.id
                  && (str_eq body.call_id q.call_id && receipt_matches body.receipt q))
                ≡ true)
              same_r c2)
            (subst
              (λ i.
                find_by (is_segment r.id i) after.segments
                ≡ some (verified_segment env' s c.details))
              index c.there)
            same),
    )
