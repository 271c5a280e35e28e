-- ===== src/Api/Retention.antt =====
-- What takes recordings and uploads away: `tombstone_recording`, `purge_expired_recordings` and
-- `cleanup_abandoned_uploads` of server/app/recording_service.py and `delete_recording` of
-- server/app/recording_api.py. The media files have their names, and are there and
-- safe, so that their quarantine succeeds.
use ivrdroid.Api.Content.{accepts_content}
use ivrdroid.Api.Segments.{Handled, accepts_segments}
use ivrdroid.Api.{
  pending_recording, is_recording, find_by, recording_not_found, failed, failed_segment, found, Db,
  Pending, Segment, deleted, put_recording, ready, Env, Recording, Status,
}
use ivrdroid.Base.{
  ℕ, ◌+◌, ◌*◌, String, List, [], ◌∷◌, Option, none, some, Bool, true, false, ◌&&◌, ◌||◌, not,
  if◌then◌else◌, ltb, map, ok, guard, ◌>>=◌, ◌>>◌, str_eq,
}
use ivrdroid.Base.Counts.{contains}

-- `tombstone_recording`.
unfoldable pub tombstone_recording : ℕ → Recording → Recording
tombstone_recording now r = record r { status = deleted; media = none; updated_at = now }

abbrev pub is_ready : Status → Bool
is_ready ready = true
is_ready _ = false

abbrev pub is_deleted : Status → Bool
is_deleted deleted = true
is_deleted _ = false

module _ (env : Env) where
  -- `delete_recording`.
  unfoldable pub delete_recording : String → Db → Handled (Unit {0})
  unfolding tombstone_recording put_recording
  delete_recording recording_id db = do
    r ← found recording_not_found (find_by (is_recording recording_id) db.recordings)
    if is_deleted r.status then ok (db, tt) else (do
      guard (is_ready r.status) pending_recording
      ok (put_recording (tombstone_recording env.now r) db, tt))

  -- A row that was captured before the cutoff; `days` is the limit of the policy.
  abbrev pub expire : ℕ → Recording → Recording
  expire days r =
      if is_ready r.status && ltb (r.captured_at + days * 86400000000) env.now
      then tombstone_recording env.now r
      else r

  -- `purge_expired_recordings` of the automatic mode with its days; another mode has none.
  unfoldable pub purge_expired_recordings : Option ℕ → Db → Db
  unfolding tombstone_recording
  purge_expired_recordings none db = db
  purge_expired_recordings (some days) db = record db {
    recordings = map (expire days) db.recordings;
  }

  -- Whether a time lies before the cutoff of abandoned uploads.
  abbrev pub is_abandoned : ℕ → Bool
  is_abandoned updated_at =
      ltb (updated_at + env.settings.recording_abandoned_upload_hours * 3600000000) env.now

  abbrev pub is_dropped : List String → Pending → Bool
  is_dropped continuous p =
      is_abandoned p.upload.updated_at && not (contains continuous p.recording_id)

  -- The uploads that stay.
  unfoldable pub kept_uploads : List String → List Pending → List Pending
  unfolding contains
  kept_uploads continuous [] = []
  kept_uploads continuous (p ∷ uploads) =
      let rest = kept_uploads continuous uploads in
      if is_dropped continuous p then rest else p ∷ rest

  -- Whether the upload of a recording is dropped.
  unfoldable pub has_dropped : List String → String → List Pending → Bool
  unfolding contains
  has_dropped continuous recording_id [] = false
  has_dropped continuous recording_id (p ∷ uploads) =
      (str_eq p.recording_id recording_id && is_dropped continuous p)
      || has_dropped continuous recording_id uploads

  abbrev pub fail_recording : List String → List Pending → Recording → Recording
  fail_recording continuous uploads r =
      if has_dropped continuous r.id uploads && accepts_segments r.status
      then record r { status = failed; updated_at = env.now }
      else r

  abbrev pub fail_segment : Segment → Segment
  fail_segment s =
      if accepts_content s.status && is_abandoned s.upload.updated_at
      then record s {
        status = failed_segment;
        upload = record s.upload { updated_at = env.now; recording_updated_at = env.now };
      }
      else s

  -- `cleanup_abandoned_uploads`.
  unfoldable pub cleanup_abandoned_uploads : Db → Db
  unfolding kept_uploads has_dropped
  cleanup_abandoned_uploads db = record db {
    recordings = map (fail_recording db.continuous db.uploads) db.recordings;
    uploads = kept_uploads db.continuous db.uploads;
    segments = map fail_segment db.segments;
  }
