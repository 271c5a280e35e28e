-- ===== src/Api/Retry.antt =====
-- A device that repeats the creation of a segment.
pub mod Completed
mod Tests
use ivrdroid.Api.Sums.{find_by-replace_by, is_segment_same, test-find_by}
use ivrdroid.Api.Content.{
  finish_segment, complete_owned, after_verification, complete_segment, verify_segment,
  verified_segment,
}
use ivrdroid.Api.Quota.{require_capacity}
use ivrdroid.Recordings.Audio.{WavDetails}
use ivrdroid.Api.{
  owned_segment, RecordingError, exceeds_duration_bound, timing_not_contiguous, timestamp_outside,
  is_call, call_not_terminal, replace_by, found, not_accepting_segments, already_complete, Kind,
  is_finished, metadata_reused, is_segment, find_by, receipt_mismatch, index_mismatch, Segment,
  owned_recording, Recording, Db, uploading_segment, Env, put_segment,
}
use ivrdroid.Api.Segments.{
  new_segment, is_contiguous, call_ended_at, tolerance, accepts_segments, restarted_segment,
  choose_segment, segment_response, is_failed, receipt_matches, kind_of, SegmentResponse,
  SegmentRequest, create_segment, retry_segment, add_segment, is_same, fresh_upload,
}
use ivrdroid.Base.{
  ok-same, ℕ, ◌≡◌, String, List, [], ◌∷◌, Option, none, some, Bool, true, false, if◌then◌else◌,
  ◌&&◌, ◌||◌, not, ltb, ◌==◌, ◌+◌, ◌*◌, max, arith, refl, sym, ◌∙◌, ap, subst, ok, err, Result,
  str_eq, eq_refl, guard-eq-ok, >>=-eq-ok, if-eq-ok, ok-first, ok-second, Option-cases, inl, inr,
}

eq_self : (n : ℕ) → (n == n) ≡ true
eq_self n = ground arith

-- The row that is made from a request agrees with it.
is_same_self :
    (id : String) (now : ℕ) (body : SegmentRequest)
    → is_same
        (record {
          recording_id = id;
          segment_index = body.segment_index;
          captured_at = body.captured_at;
          duration_ms = body.duration_ms;
          stop_reason = body.stop_reason;
          partial = body.partial;
          status = uploading_segment;
          upload = fresh_upload now body;
        })
        body
      ≡ true
unfolding is_same fresh_upload
is_same_self id now body = ground (arith, eq_refl body.stop_reason, eq_refl body.source_sha256)

-- What a creation answers when it finds a segment that agrees with it and has not failed.
create_segment-found :
    (env : Env) (device_id recording_id : String) (segment_index : ℕ) (body : SegmentRequest)
    (db : Db) (r : Recording) (s : Segment)
    → owned_recording (kind_of body.receipt) device_id recording_id db ≡ ok r
    → (segment_index == body.segment_index) ≡ true
    → (str_eq body.recording_id r.id
        && (str_eq body.call_id r.call_id && receipt_matches body.receipt r))
      ≡ true
    → find_by (is_segment r.id body.segment_index) db.segments ≡ some s
    → is_same s body ≡ true
    → is_failed s.status ≡ false
    → create_segment env device_id recording_id segment_index body db ≡ ok (db, segment_response s)
unfolding create_segment retry_segment
create_segment-found env device_id recording_id segment_index body db r s owned c1 c2 there same
      alive =
    rw (owned, c1, c2, there, same, alive) refl

pub owned_recording_same :
    (kind : Kind) (device_id recording_id : String) (db after : Db)
    → after.recordings ≡ db.recordings
    → owned_recording kind device_id recording_id after
      ≡ owned_recording kind device_id recording_id db
unfolding owned_recording
owned_recording_same kind device_id recording_id db after e = rw e refl

-- What a creation leaves: a segment that agrees with the receipt and that the reply shows.
record Created (id : String) (body : SegmentRequest) (db after : Db) (response : SegmentResponse)
    : Type 0 where
  segment : Segment
  kept : after.recordings ≡ db.recordings
  there : find_by (is_segment id body.segment_index) after.segments ≡ some segment
  agrees : is_same segment body ≡ true
  alive : is_failed segment.status ≡ false
  replied : segment_response segment ≡ response

retry_segment-Created :
    (env : Env) (body : SegmentRequest) (id : String) (s : Segment) (db after : Db)
    (response : SegmentResponse)
    → find_by (is_segment id body.segment_index) db.segments ≡ some s
    → retry_segment env body s db ≡ ok (after, response)
    → Created id body db after response
unfolding retry_segment is_same put_segment
retry_segment-Created env body id s db after response there e =
    let (same, e1) = guard-eq-ok (is_same s body) metadata_reused _ e in
    elim (if-eq-ok (is_failed s.status) _ _ e1) [
      | inl (again, e2) ↦
          (let (u, room, e3) =
              >>=-eq-ok (require_capacity env (kind_of body.receipt) body.expected_size_bytes db) _
                e2 in
            let t = restarted_segment env s in
            let stays : is_segment id body.segment_index t ≡ true =
              test-find_by (is_segment id body.segment_index) db.segments s there in
            let own : is_segment s.recording_id s.segment_index ≡ is_segment id body.segment_index =
              is_segment_same id body.segment_index s stays in
            let place : find_by (is_segment id body.segment_index)
                  (replace_by (is_segment s.recording_id s.segment_index) t db.segments)
                ≡ some t =
              rw own (
                find_by-replace_by (is_segment id body.segment_index) t db.segments s there
                  stays) in
            subst (λ d. Created id body db d response) (ok-first e3)
              (record {
                segment = t;
                kept = refl;
                there = place;
                agrees = same;
                alive = refl;
                replied = ok-second e3;
              }))
      | inr (alive, e2) ↦
          subst (λ d. Created id body db d response) (ok-first e2)
            (record {
              segment = s;
              kept = refl;
              there = there;
              agrees = same;
              alive = alive;
              replied = ok-second e2;
            })
    ]

add_segment-Created :
    (env : Env) (body : SegmentRequest) (r : Recording) (db after : Db) (response : SegmentResponse)
    → add_segment env body r db ≡ ok (after, response)
    → Created r.id body db after response
unfolding add_segment
add_segment-Created env body r db after response e =
    let (c1, e1) = guard-eq-ok (not (is_finished r.status)) already_complete _ e in
    let (c2, e2) = guard-eq-ok (accepts_segments r.status) not_accepting_segments _ e1 in
    let (call, c3, e3) =
      >>=-eq-ok (found call_not_terminal (find_by (is_call r.call_id) db.calls)) _ e2 in
    let (c4, e4) = guard-eq-ok (not call.in_progress) call_not_terminal _ e3 in
    let (c5, e5) =
      guard-eq-ok
        (not (
          ltb (body.captured_at + tolerance) (max call.started_at r.captured_at)
          || ltb (call_ended_at call + tolerance) body.captured_at))
        timestamp_outside _ e4 in
    let (c6, e6) = guard-eq-ok (is_contiguous body.receipt r body) timing_not_contiguous _ e5 in
    let (c7, e7) =
      guard-eq-ok
        (not (
          ltb env.settings.recording_upload_limit_bytes body.expected_size_bytes
          || ltb (44 + body.duration_ms * 192 + 4096) body.expected_size_bytes))
        exceeds_duration_bound _ e6 in
    let (u, room, e8) =
      >>=-eq-ok (require_capacity env (kind_of body.receipt) body.expected_size_bytes db) _ e7 in
    let s = new_segment env body r in
    let own : is_segment r.id body.segment_index s ≡ true = ground (arith, eq_refl r.id) in
    let place : find_by (is_segment r.id body.segment_index) (s ∷ db.segments) ≡ some s =
      rw own refl in
    subst (λ d. Created r.id body db d response) (ok-first e8)
      (record {
        segment = s;
        kept = refl;
        there = place;
        agrees = is_same_self r.id env.now body;
        alive = refl;
        replied = ok-second e8;
      })

-- A creation that is sent again at once, with the same receipt, is answered alike and changes nothing
-- more.
pub create_segment-create_segment :
    (env env' : Env) (device_id recording_id : String) (segment_index : ℕ) (body : SegmentRequest)
    (db after : Db) (response : SegmentResponse)
    → create_segment env device_id recording_id segment_index body db ≡ ok (after, response)
    → create_segment env' device_id recording_id segment_index body after ≡ ok (after, response)
unfolding create_segment
create_segment-create_segment env env' device_id recording_id segment_index body db after response
      e =
    let (r, owned, e1) =
      >>=-eq-ok (owned_recording (kind_of body.receipt) device_id recording_id db) _ e in
    let (c1, e2) = guard-eq-ok (segment_index == body.segment_index) index_mismatch _ e1 in
    let (c2, e3) =
      guard-eq-ok
        (str_eq body.recording_id r.id
          && (str_eq body.call_id r.call_id && receipt_matches body.receipt r))
        receipt_mismatch _ e2 in
    let choice : Option Segment → Type 0 =
      λ o. choose_segment env body r db o ≡ ok (after, response) in
    let c : Created r.id body db after response =
      elim (Option-cases (find_by (is_segment r.id body.segment_index) db.segments)) [
        | inl none_there ↦
            add_segment-Created env body r db after response (subst choice none_there e3)
        | inr (s, there) ↦
            retry_segment-Created env body r.id s db after response there (subst choice there e3)
      ] in
    subst (λ q. create_segment env' device_id recording_id segment_index body after ≡ ok (after, q))
      c.replied
      (create_segment-found env' device_id recording_id segment_index body after r c.segment
        (owned_recording_same (kind_of body.receipt) device_id recording_id db after c.kept ∙ owned)
        c1 c2 c.there c.agrees c.alive)
