-- ===== src/Api/Capacity/Retention.antt =====
-- What takes recordings and uploads away against the quota of the recordings.
use ivrdroid.Api.Sums.{find_by-is_recording, sum_by-map-≤}
use ivrdroid.Api.Capacity.Segments.{Within}
use ivrdroid.Api.Capacity.{found-eq-ok, used}
use ivrdroid.Api.{
  pending_recording, is_recording, find_by, recording_not_found, found, Db, Pending, Recording,
  Segment, Env,
}
use ivrdroid.Api.Capacity.Voicemail.{used-put_recording}
use ivrdroid.Api.Retention.{
  is_ready, is_deleted, cleanup_abandoned_uploads, delete_recording, expire, fail_recording,
  fail_segment, purge_expired_recordings, tombstone_recording, kept_uploads,
}
use ivrdroid.Api.Quota.{pending_bytes, ready_bytes, segment_bytes, sum_by, recording_used_bytes}
use ivrdroid.Base.{
  ℕ, ◌≡◌, ◌≤◌, String, List, [], ◌∷◌, Option, none, some, arith, subst, ok, guard-eq-ok, >>=-eq-ok,
  if-eq-ok, ok-first, inl, inr,
}

module _ (env : Env) where
  expire-weight : (days : ℕ) (r : Recording) → ready_bytes (expire env days r) ≤ ready_bytes r
  unfolding tombstone_recording
  expire-weight days r = ground arith

  fail_recording-weight :
      (continuous : List String) (uploads : List Pending) (r : Recording)
      → ready_bytes (fail_recording env continuous uploads r) ≤ ready_bytes r
  fail_recording-weight continuous uploads r = ground arith

  fail_segment-weight :
      (s : Segment) → segment_bytes none (fail_segment env s) ≤ segment_bytes none s
  fail_segment-weight s = ground arith

  kept_uploads-weight :
      (continuous : List String) (uploads : List Pending)
      → sum_by (pending_bytes none) (kept_uploads env continuous uploads)
        ≤ sum_by (pending_bytes none) uploads
  unfolding kept_uploads
  kept_uploads-weight continuous [] = omega arith
  kept_uploads-weight continuous (p ∷ uploads) =
      ground (arith, kept_uploads-weight continuous uploads)

module _ (env : Env) (db : Db) (fits : used db ≤ env.settings.recording_quota_bytes) where
  pub delete_recording-Within :
      (recording_id : String) (after : Db) (u : Unit {0})
      → delete_recording env recording_id db ≡ ok (after, u)
      → Within env db fits after
  unfolding delete_recording tombstone_recording
  delete_recording-Within recording_id after u e =
      let (r, c1, e1) =
        >>=-eq-ok (found recording_not_found (find_by (is_recording recording_id) db.recordings)) _
          e in
      elim (if-eq-ok (is_deleted r.status) _ _ e1) [
        | inl (gone, e2) ↦ subst (Within env db fits) (ok-first e2) fits
        | inr (there, e2) ↦
            (let (c3, e3) = guard-eq-ok (is_ready r.status) pending_recording _ e2 in
              let place = find_by-is_recording recording_id db.recordings r (
                found-eq-ok recording_not_found (find_by (is_recording recording_id) db.recordings)
                  c1) in
              subst (Within env db fits) (ok-first e3) (
                omega (arith, fits, used-put_recording (tombstone_recording env.now r) r db place)))
      ]

  pub purge_expired_recordings-Within :
      (days : Option ℕ) → Within env db fits (purge_expired_recordings env days db)
  unfolding purge_expired_recordings recording_used_bytes
  purge_expired_recordings-Within none = fits
  purge_expired_recordings-Within (some days) = omega (
    arith,
    fits,
    sum_by-map-≤ ready_bytes ready_bytes (expire env days) (expire-weight env days) db.recordings,
  )

  pub cleanup_abandoned_uploads-Within : Within env db fits (cleanup_abandoned_uploads env db)
  unfolding cleanup_abandoned_uploads recording_used_bytes
  cleanup_abandoned_uploads-Within = omega (
    arith,
    fits,
    sum_by-map-≤ ready_bytes ready_bytes (fail_recording env db.continuous db.uploads)
        (fail_recording-weight env db.continuous db.uploads) db.recordings,
    kept_uploads-weight env db.continuous db.uploads,
    sum_by-map-≤ (segment_bytes none) (segment_bytes none) (fail_segment env)
        (fail_segment-weight env) db.segments,
  )
