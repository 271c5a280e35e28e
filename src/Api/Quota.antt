-- ===== src/Api/Quota.antt =====
-- `recording_used_bytes` of server/app/recording_service.py and `_require_capacity` of the interfaces.
use ivrdroid.Api.{
  SegmentStatus, Recording, Media, Pending, Segment, Db, Env, Checked, storage_full, ready,
  uploading_segment, verified, same_kind, session_audit, find_by, is_recording, Kind,
}
use ivrdroid.Base.{
  ℕ, ◌+◌, String, List, [], ◌∷◌, Option, none, some, Bool, false, ◌||◌, not, if◌then◌else◌, ltb,
  guard, str_eq,
}

module _ {ℓ} {A : Type ℓ} (weight : A → ℕ) where
  abbrev pub sum_by : List A → ℕ
  sum_by [] = 0
  sum_by (x ∷ xs) = weight x + sum_by xs

abbrev pub size_of : Option Media → ℕ
size_of none = 0
size_of (some m) = m.size_bytes

-- The media of a row that is ready.
abbrev pub ready_bytes : Recording → ℕ
ready_bytes r = elim r.status [ ready ↦ size_of r.media | _ ↦ 0 ]

-- A row with an id that is left out has no weight.
abbrev pub is_excluded : Option String → String → Bool
is_excluded none id = false
is_excluded (some excluded) id = str_eq id excluded

abbrev pub pending_bytes : Option String → Pending → ℕ
pending_bytes excluded p =
    if is_excluded excluded p.recording_id then 0 else p.upload.expected_size_bytes

abbrev pub reservation : SegmentStatus → ℕ → ℕ
reservation uploading_segment size = size
reservation verified size = size
reservation _ size = 0

abbrev pub reserved_bytes : Segment → ℕ
reserved_bytes s = reservation s.status s.upload.expected_size_bytes

abbrev pub segment_bytes : Option String → Segment → ℕ
segment_bytes excluded s = if is_excluded excluded s.recording_id then 0 else reserved_bytes s

-- The recordings that are left out are those whose upload or segments are replaced.
unfoldable pub recording_used_bytes : Option String → Option String → Db → ℕ
recording_used_bytes excluded_upload excluded_conversation db =
    sum_by ready_bytes db.recordings
    + sum_by (pending_bytes excluded_upload) db.uploads
    + sum_by (segment_bytes excluded_conversation) db.segments

-- The sums over session audits: their segments are found by the kind of their recording.
abbrev pub audit_ready_bytes : Recording → ℕ
audit_ready_bytes r = if same_kind r.kind session_audit then ready_bytes r else 0

abbrev pub audit_reserved_bytes : Db → Segment → ℕ
audit_reserved_bytes db s = elim (find_by (is_recording s.recording_id) db.recordings) [
  | none ↦ 0
  | some r ↦ if same_kind r.kind session_audit then reserved_bytes s else 0
]

module _ (env : Env) where
  -- `_require_capacity` of conversations, and `_require_recording_capacity`.
  unfoldable pub require_recording_capacity : ℕ → Db → Checked (Unit {0})
  unfolding recording_used_bytes
  require_recording_capacity required_bytes db =
      guard
        (not (
          ltb env.settings.recording_quota_bytes
            (recording_used_bytes none none db + required_bytes)))
        storage_full

  -- `_require_capacity` of session audits.
  unfoldable pub require_audit_capacity : ℕ → Db → Checked (Unit {0})
  unfolding recording_used_bytes
  require_audit_capacity required_bytes db =
      guard
        (not (
          ltb env.settings.audit_recording_quota_bytes (
            sum_by audit_ready_bytes db.recordings
            + sum_by (audit_reserved_bytes db) db.segments
            + required_bytes)
          || (ltb env.settings.recording_quota_bytes (
                recording_used_bytes none none db
                + required_bytes
                + env.settings.audit_recording_reserve_bytes)
              || ltb env.free_bytes (required_bytes + env.settings.audit_recording_reserve_bytes))))
        storage_full

  unfoldable pub require_capacity : Kind → ℕ → Db → Checked (Unit {0})
  unfolding require_recording_capacity require_audit_capacity
  require_capacity session_audit required_bytes db = require_audit_capacity required_bytes db
  require_capacity _ required_bytes db = require_recording_capacity required_bytes db
