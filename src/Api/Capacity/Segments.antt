-- ===== src/Api/Capacity/Segments.antt =====
-- The handlers of segments against the quota of the recordings.
use ivrdroid.Api.Sums.{find_by-is_segment}
use ivrdroid.Api.Segments.{
  new_segment, restarted_segment, choose_segment, is_contiguous, call_ended_at, tolerance,
  receipt_matches, accepts_segments, create_segment, kind_of, fresh_upload, add_segment, is_failed,
  is_same, SegmentResponse, SegmentRequest, retry_segment,
}
use ivrdroid.Api.Capacity.{
  used-put_segment, require_capacity-≤, recording_used_bytes, require_capacity, reserved_bytes,
  used,
}
use ivrdroid.Api.{
  exceeds_duration_bound, timing_not_contiguous, timestamp_outside, is_call, call_not_terminal,
  receipt_mismatch, found, not_accepting_segments, index_mismatch, already_complete, is_finished,
  owned_recording, Recording, put_segment, metadata_reused, is_segment, find_by, Segment, Db, Env,
}
use ivrdroid.Api.Quota.{recording_used_bytes}
use ivrdroid.Base.{
  Option-cases, ◌*◌, max, ◌&&◌, ◌==◌, if-eq-ok, ℕ, ◌+◌, ◌≡◌, ◌≤◌, String, ◌∷◌, Option, some, true,
  arith, subst, str_eq, ltb, not, ◌||◌, ok, guard-eq-ok, >>=-eq-ok, inl, inr,
}

reserved_failed : (s : Segment) → is_failed s.status ≡ true → reserved_bytes s ≡ 0
reserved_failed s e = ground (arith, e)

module _ (env : Env) (db : Db) (fits : used db ≤ env.settings.recording_quota_bytes) where
  -- The rows after a handler are within the quota.
  abbrev pub Within : Db → Type 0
  Within after = used after ≤ env.settings.recording_quota_bytes

  retry_segment-Within :
      (body : SegmentRequest) (s : Segment) (after : Db) (response : SegmentResponse)
      → find_by (is_segment s.recording_id s.segment_index) db.segments ≡ some s
      → retry_segment env body s db ≡ ok (after, response)
      → Within after
  unfolding retry_segment is_same
  retry_segment-Within body s after response here e =
      let (same, e1) = guard-eq-ok (is_same s body) metadata_reused _ e in
      elim (if-eq-ok (is_failed s.status) _ _ e1) [
        | inl (again, e2) ↦
            (let (u, room, e3) =
                >>=-eq-ok (require_capacity env (kind_of body.receipt) body.expected_size_bytes db)
                  _ e2 in
              let left =
                require_capacity-≤ env (kind_of body.receipt) body.expected_size_bytes db room in
              let size : s.upload.expected_size_bytes ≡ body.expected_size_bytes =
                ground (arith, same) in
              let restarted = restarted_segment env s in
              let stored : put_segment restarted db ≡ after = cc in
              subst Within stored (
                omega (
                  arith,
                  used-put_segment restarted s db here,
                  left,
                  size,
                  reserved_failed s again,
                )))
        | inr (kept, e2) ↦ (let stored : db ≡ after = cc in subst Within stored fits)
      ]

  add_segment-Within :
      (body : SegmentRequest) (r : Recording) (after : Db) (response : SegmentResponse)
      → add_segment env body r db ≡ ok (after, response)
      → Within after
  unfolding add_segment fresh_upload recording_used_bytes
  add_segment-Within body r after response e =
      let (c1, e1) = guard-eq-ok (not (is_finished r.status)) already_complete _ e in
      let (c2, e2) = guard-eq-ok (accepts_segments r.status) not_accepting_segments _ e1 in
      let (call, c3, e3) =
        >>=-eq-ok (found call_not_terminal (find_by (is_call r.call_id) db.calls)) _ e2 in
      let (c4, e4) = guard-eq-ok (not call.in_progress) call_not_terminal _ e3 in
      let (c5, e5) =
        guard-eq-ok
          (not (
            ltb (body.captured_at + tolerance) (max call.started_at r.captured_at)
            || ltb (call_ended_at call + tolerance) body.captured_at))
          timestamp_outside _ e4 in
      let (c6, e6) = guard-eq-ok (is_contiguous body.receipt r body) timing_not_contiguous _ e5 in
      let (c7, e7) =
        guard-eq-ok
          (not (
            ltb env.settings.recording_upload_limit_bytes body.expected_size_bytes
            || ltb (44 + body.duration_ms * 192 + 4096) body.expected_size_bytes))
          exceeds_duration_bound _ e6 in
      let (u, room, e8) =
        >>=-eq-ok (require_capacity env (kind_of body.receipt) body.expected_size_bytes db) _ e7 in
      let left = require_capacity-≤ env (kind_of body.receipt) body.expected_size_bytes db room in
      let s = new_segment env body r in
      let stored : (record db { segments = s ∷ db.segments }) ≡ after = cc in
      subst Within stored (omega (arith, left))

  -- The creation of a segment.
  pub create_segment-Within :
      (device_id recording_id : String) (segment_index : ℕ) (body : SegmentRequest) (after : Db)
      (response : SegmentResponse)
      → create_segment env device_id recording_id segment_index body db ≡ ok (after, response)
      → Within after
  unfolding create_segment
  create_segment-Within device_id recording_id segment_index body after response e =
      let (r, owned, e1) =
        >>=-eq-ok (owned_recording (kind_of body.receipt) device_id recording_id db) _ e in
      let (c1, e2) = guard-eq-ok (segment_index == body.segment_index) index_mismatch _ e1 in
      let (c2, e3) =
        guard-eq-ok
          (str_eq body.recording_id r.id
            && (str_eq body.call_id r.call_id && receipt_matches body.receipt r))
          receipt_mismatch _ e2 in
      let choice : Option Segment → Type 0 =
        λ o. choose_segment env body r db o ≡ ok (after, response) in
      elim (Option-cases (find_by (is_segment r.id body.segment_index) db.segments)) [
        | inl none_there ↦ add_segment-Within body r after response (subst choice none_there e3)
        | inr (s, there) ↦
            retry_segment-Within body s after response
              (find_by-is_segment r.id body.segment_index db.segments s there)
              (subst choice there e3)
      ]
