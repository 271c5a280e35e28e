-- ===== src/Recordings.antt =====
-- Bytes, stored files and the errors of server/app/recording_service.py.
pub mod Cipher
pub mod Upload
pub mod Audio
pub mod Tests
use ivrdroid.Base.{
  ℕ, zero, suc, ◌+◌, ◌*◌, String, List, [], ◌∷◌, ◌++◌, Option, none, some, Bool, true, false, ◌&&◌,
  ◌||◌, not, if◌then◌else◌, ◌==◌, length,
}

-- A byte is a number below 256.
abbrev pub Bytes : Type 0
Bytes = List ℕ

-- The messages of `RecordingError`, the `OverflowError` of `int.to_bytes` and the error of
-- `struct.unpack`. The messages on audio name a conversation segment or a caller recording.
pub data RecordingError : Type 0 where
  key_version_unavailable : RecordingError
  chunk_malformed chunk_unauthentic : RecordingError
  media_malformed media_unauthentic : RecordingError
  version_overflow : RecordingError
  storage_name_invalid : RecordingError
  directory_unavailable directory_not_private directory_unsafe : RecordingError
  file_unavailable file_not_regular file_unsafe : RecordingError
  chunk_empty chunk_too_large chunk_beyond_size : RecordingError
  replay_mismatch offset_mismatch different_chunk : RecordingError
  upload_incomplete chunks_inconsistent size_mismatch hash_mismatch : RecordingError
  segment_incomplete segment_chunks_inconsistent segment_size_mismatch segment_hash_mismatch :
      RecordingError
  header_unreadable not_riff length_header_mismatch not_wav not_pcm wrong_format : RecordingError
  audio_truncated duration_outside duration_mismatch : RecordingError
  segment_changed conversion_unavailable conversion_failed media_invalid : RecordingError
  no_segments indexes_not_contiguous unverified_segments early_stop_reason : RecordingError
  missing_stop_reason timestamps_disordered : RecordingError
  policy_unavailable quota_full : RecordingError
  media_name_invalid : RecordingError
  media_unavailable media_size_mismatch media_version_mismatch media_hash_mismatch : RecordingError

abbrev pub status_code : RecordingError → ℕ
status_code key_version_unavailable = 503
status_code chunk_malformed = 503
status_code chunk_unauthentic = 503
status_code media_malformed = 503
status_code media_unauthentic = 503
status_code version_overflow = 500
status_code storage_name_invalid = 503
status_code directory_unavailable = 503
status_code directory_not_private = 503
status_code directory_unsafe = 503
status_code file_unavailable = 503
status_code file_not_regular = 503
status_code file_unsafe = 503
status_code chunk_too_large = 413
status_code chunk_beyond_size = 413
status_code replay_mismatch = 409
status_code offset_mismatch = 409
status_code different_chunk = 409
status_code upload_incomplete = 409
status_code segment_incomplete = 409
status_code header_unreadable = 500
status_code segment_changed = 503
status_code conversion_unavailable = 503
status_code no_segments = 409
status_code indexes_not_contiguous = 409
status_code unverified_segments = 409
status_code early_stop_reason = 409
status_code missing_stop_reason = 409
status_code policy_unavailable = 503
status_code quota_full = 507
status_code media_name_invalid = 503
status_code media_unavailable = 404
status_code media_size_mismatch = 503
status_code media_version_mismatch = 503
status_code media_hash_mismatch = 503
status_code _ = 422

-- `==` of bytes.
unfoldable pub same_bytes : Bytes → Bytes → Bool
same_bytes [] [] = true
same_bytes [] (_ ∷ _) = false
same_bytes (_ ∷ _) [] = false
same_bytes (x ∷ xs) (y ∷ ys) = (x == y) && same_bytes xs ys

-- `data[:n]` and `data[n:]`.
module _ {ℓ} {A : Type ℓ} where
  abbrev pub take : ℕ → List A → List A
  take zero xs = []
  take (suc n) [] = []
  take (suc n) (x ∷ xs) = x ∷ take n xs

  abbrev pub drop : ℕ → List A → List A
  drop zero xs = xs
  drop (suc n) [] = []
  drop (suc n) (x ∷ xs) = drop n xs

abbrev pub is_nonempty : Bytes → Bool
is_nonempty [] = false
is_nonempty (_ ∷ _) = true
