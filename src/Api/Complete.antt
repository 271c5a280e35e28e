-- ===== src/Api/Complete.antt =====
-- `complete_conversation_recording` of server/app/conversation_recording_api.py and
-- `complete_session_recording` of server/app/session_audit_api.py.
use ivrdroid.Api.Segments.{accepts_segments, Handled}
use ivrdroid.Api.Quota.{require_capacity}
use ivrdroid.Api.Assembly.{total_size, assemble_conversation_recording, last_of}
use ivrdroid.Api.{
  reserve_reached, is_recording, raised, audit_termination_disagrees, count_mismatch, find_by,
  audit_segment_too_short, cannot_complete, recording_not_found, audit_duration_disagrees, found,
  session_audit, Checked, deleted, Db, Kind, is_finished, owned_recording, ready, Env, Recording,
  Report, Segment, Status,
}
use ivrdroid.Api.Content.{remove_upload_files}
use ivrdroid.Base.{
  ℕ, ◌+◌, ◌-◌, ◌*◌, String, List, [], ◌∷◌, Option, none, some, Bool, true, false, ◌&&◌, not,
  if◌then◌else◌, ◌==◌, length, ltb, leb, map, ok, guard, ◌>>=◌, ◌>>◌, str_eq,
}

pub record RecordingResponse : Type 0 where
  pub id : String
  pub status : Status
  pub segment_count : ℕ
  pub duration_ms : ℕ
  pub acknowledged : Bool

abbrev pub shown : Status → Status
shown deleted = ready
shown status = status

-- `_recording_response`.
unfoldable pub recording_response : Recording → RecordingResponse
recording_response r = record {
  id = r.id;
  status = shown r.status;
  segment_count = r.segment_count;
  duration_ms = r.duration_ms;
  acknowledged = is_finished r.status;
}

-- The segments of a recording in the order of their indexes.
unfoldable pub insert_segment : Segment → List Segment → List Segment
insert_segment s [] = s ∷ []
insert_segment s (t ∷ segments) =
    if leb s.segment_index t.segment_index then s ∷ t ∷ segments else t ∷ insert_segment s segments

unfoldable pub segments_of : String → List Segment → List Segment
unfolding insert_segment
segments_of recording_id [] = []
segments_of recording_id (s ∷ segments) =
    let rest = segments_of recording_id segments in
    if str_eq s.recording_id recording_id then insert_segment s rest else rest

abbrev pub total_duration : List Segment → ℕ
total_duration [] = 0
total_duration (s ∷ segments) = s.duration_ms + total_duration segments

-- All but the last take 15 seconds.
unfoldable pub cover_fifteen_seconds : List Segment → Bool
cover_fifteen_seconds [] = true
cover_fifteen_seconds (s ∷ []) = true
cover_fifteen_seconds (s ∷ segments) = (s.duration_ms == 15000) && cover_fifteen_seconds segments

abbrev reported_duration : Option Report → ℕ
reported_duration none = 0
reported_duration (some report) = report.duration_ms

abbrev agrees : Option Report → Segment → Bool
agrees none s = false
agrees (some report) s =
    str_eq s.stop_reason report.stop_reason
    && (if s.partial then report.partial else not report.partial)

unfoldable pub termination_agrees : Option Report → List Segment → Bool
unfolding last_of
termination_agrees report [] = true
termination_agrees report (s ∷ segments) = agrees report (last_of s segments)

abbrev distance : ℕ → ℕ → ℕ
distance a b = (a - b) + (b - a)

-- The files of the uploads are removed after the commit.
abbrev pub remove_files_of : String → Segment → Segment
remove_files_of recording_id s =
    if str_eq s.recording_id recording_id
    then record s { upload = remove_upload_files s.upload }
    else s

unfoldable pub remove_segment_files : String → Db → Db
unfolding remove_upload_files
remove_segment_files recording_id db = record db {
  segments = map (remove_files_of recording_id) db.segments;
}

module _ (env : Env) where
  -- The tests that session audits have in addition.
  unfoldable pub check_audit : Recording → List Segment → Db → Checked (Unit {0})
  unfolding cover_fifteen_seconds termination_agrees require_capacity
  check_audit r segments db = do
    guard (not (ltb 30 (distance (total_duration segments) (reported_duration r.audit_metadata))))
        audit_duration_disagrees
    guard (cover_fifteen_seconds segments) audit_segment_too_short
    guard (termination_agrees r.audit_metadata segments) audit_termination_disagrees
    require_capacity env session_audit 0 db
    guard
        (not (
          ltb env.free_bytes (
            total_size segments
            + total_duration segments * 12
            + 4194304
            + env.settings.audit_recording_reserve_bytes)))
        reserve_reached

  abbrev pub check_kind : Kind → Recording → List Segment → Db → Checked (Unit {0})
  check_kind session_audit r segments db = check_audit r segments db
  check_kind _ r segments db = ok tt

  -- The branch of a recording that is not finished.
  unfoldable pub assemble_recording : Kind → Recording → ℕ → Db → Checked Db
  unfolding segments_of check_audit assemble_conversation_recording remove_segment_files
  assemble_recording kind r segment_count db = do
    guard (accepts_segments r.status) cannot_complete
    let segments = segments_of r.id db.segments
    guard (length segments == segment_count) count_mismatch
    check_kind kind r segments db
    stored ← raised (assemble_conversation_recording env false r segments db)
    ok (remove_segment_files r.id stored)

  -- The reply shows the row that was stored.
  abbrev pub reply_from : String → Db → Handled RecordingResponse
  reply_from recording_id db = do
    r ← found recording_not_found (find_by (is_recording recording_id) db.recordings)
    ok (db, recording_response r)

  -- `complete_conversation_recording` and `complete_session_recording`.
  unfoldable pub complete_recording : Kind → String → String → ℕ → Db → Handled RecordingResponse
  unfolding owned_recording assemble_recording recording_response
  complete_recording kind device_id recording_id segment_count db = do
    r ← owned_recording kind device_id recording_id db
    if is_finished r.status then ok (db, recording_response r) else (do
      stored ← assemble_recording kind r segment_count db
      reply_from recording_id stored)
