-- ===== src/Api/Capacity.antt =====
-- The rooms that the capacities leave, and the bytes that are used when a row is replaced.
pub mod Segments
pub mod Content
pub mod Assembly
pub mod Voicemail
pub mod Retention
pub mod Create
pub mod Requests
use ivrdroid.Api.Sums.{sum_by-replace_by}
use ivrdroid.Api.Quota.{
  segment_bytes, reserved_bytes, require_audit_capacity, recording_used_bytes,
  require_recording_capacity, require_capacity,
}
use ivrdroid.Recordings.{RecordingError}
use ivrdroid.Api.{
  session_audit, conversation, voicemail, storage_full, Kind, is_segment, Env, find_by, Segment,
  found, raised, ApiError, Db, put_segment,
}
use ivrdroid.Recordings.Upload.Steps.{store_chunk-size}
use ivrdroid.Base.{
  ℕ, zero, suc, ◌+◌, ◌≡◌, ◌≤◌, String, List, [], ◌∷◌, Option, none, some, Bool, true, false, map,
  arith, refl, sym, ◌∙◌, ap, subst, str_eq, eq_iff, if◌then◌else◌, ltb, not, ◌||◌, ok, err, Result,
  guard, guard-eq-ok, >>=-eq-ok, ◌>>=◌, ◌>>◌, Bool-cases, inl, inr,
}

-- The bytes that the quota counts.
abbrev pub used : Db → ℕ
used db = recording_used_bytes none none db

pub raised-eq-ok :
    {A : Type 0} (first : Result RecordingError A) {value : A}
    → raised first ≡ ok value
    → first ≡ ok value
raised-eq-ok (ok x) e = cc
raised-eq-ok (err x) e = cc

pub found-eq-ok :
    {A : Type 0} (error : ApiError) (o : Option A) {value : A}
    → found error o ≡ ok value
    → o ≡ some value
found-eq-ok error none e = cc
found-eq-ok error (some x) e = cc

pub guard-ok : {E : Type 0} (c : Bool) (e : E) {u : Unit {0}} → guard c e ≡ ok u → c ≡ true
guard-ok true e h = refl
guard-ok false e h = cc

-- Each capacity leaves room for the required bytes.
pub require_recording_capacity-≤ :
    (env : Env) (required_bytes : ℕ) (db : Db)
    → require_recording_capacity env required_bytes db ≡ ok tt
    → used db + required_bytes ≤ env.settings.recording_quota_bytes
unfolding require_recording_capacity
require_recording_capacity-≤ env required_bytes db e =
    let fits =
      guard-ok (not (ltb env.settings.recording_quota_bytes (used db + required_bytes)))
        storage_full e in
    ground (arith, fits)

pub require_capacity-≤ :
    (env : Env) (kind : Kind) (required_bytes : ℕ) (db : Db)
    → require_capacity env kind required_bytes db ≡ ok tt
    → used db + required_bytes ≤ env.settings.recording_quota_bytes
unfolding require_capacity require_audit_capacity
require_capacity-≤ env voicemail required_bytes db e =
    require_recording_capacity-≤ env required_bytes db e
require_capacity-≤ env conversation required_bytes db e =
    require_recording_capacity-≤ env required_bytes db e
require_capacity-≤ env session_audit required_bytes db e =
    let fits = guard-ok _ storage_full e in ground (arith, fits)

-- Another segment in the place of one.
pub used-put_segment :
    (s t : Segment) (db : Db)
    → find_by (is_segment s.recording_id s.segment_index) db.segments ≡ some t
    → used (put_segment s db) + reserved_bytes t ≡ used db + reserved_bytes s
unfolding put_segment recording_used_bytes
used-put_segment s t db e = omega (
  arith,
  sum_by-replace_by (is_segment s.recording_id s.segment_index) (segment_bytes none) s db.segments t
      e,
)
