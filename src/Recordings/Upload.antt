-- ===== src/Recordings/Upload.antt =====
-- `store_chunk`, `read_uploaded_wav` and `write_uploaded_wav_to_path` of
-- server/app/recording_service.py: a recording that arrives in encrypted chunks, each a file that is
-- named for its offset.
pub mod Content
pub mod Steps
pub mod Store
pub mod Read
use ivrdroid.Recordings.{
  chunk_beyond_size, hash_mismatch, segment_hash_mismatch, chunk_too_large, segment_size_mismatch,
  size_mismatch, chunk_empty, chunks_inconsistent, different_chunk, directory_unsafe, file_unsafe,
  offset_mismatch, replay_mismatch, segment_chunks_inconsistent, directory_not_private,
  file_not_regular, is_nonempty, same_bytes, segment_incomplete, upload_incomplete,
  directory_unavailable, file_unavailable, storage_name_invalid, Bytes, RecordingError,
}
use ivrdroid.Recordings.Cipher.{decrypt_chunk, encrypt_chunk, RecordingCipher, Aead, Out}
use ivrdroid.Base.{
  ℕ, zero, suc, ◌+◌, String, List, [], ◌∷◌, ◌++◌, Option, none, some, Bool, true, false, ◌&&◌, ◌||◌,
  not, if◌then◌else◌, ◌==◌, length, ltb, ok, err, Result, ◌>>=◌, ◌>>◌, guard, str_eq,
}

-- What `lstat` reports of a path, as far as it is looked at.
pub record Stat : Type 0 where
  pub right_kind : Bool
  pub is_link : Bool
  pub is_owner : Bool
  pub is_private : Bool

-- `_require_safe_directory` and `_require_safe_file`, by their errors.
unfoldable pub require_safe :
    RecordingError → RecordingError → RecordingError → Option Stat → Out (Unit {0})
require_safe unavailable wrong_kind unsafe none = err unavailable
require_safe unavailable wrong_kind unsafe (some s) = do
  guard (s.right_kind && not s.is_link) wrong_kind
  guard (s.is_owner && s.is_private) unsafe
  ok tt

unfoldable pub require_safe_directory : Option Stat → Out (Unit {0})
unfolding require_safe
require_safe_directory = require_safe directory_unavailable directory_not_private directory_unsafe

unfoldable pub require_safe_file : Option Stat → Out (Unit {0})
unfolding require_safe
require_safe_file = require_safe file_unavailable file_not_regular file_unsafe

-- A stored chunk. A written one is a regular private file of the server.
pub record File : Type 0 where
  pub stat : Stat
  pub payload : Bytes

-- `.rec`, the end of the name of a medium.
abbrev pub rec_suffix : Bytes
rec_suffix = 46 ∷ 114 ∷ 101 ∷ 99 ∷ []

abbrev pub written_stat : Stat
written_stat = record { right_kind = true; is_link = false; is_owner = true; is_private = true }

-- The row of an upload with its directory. `is_name` says that the name has 32 hexadecimal digits.
pub record Upload : Type 0 where
  pub upload_offset : ℕ
  pub expected_size_bytes : ℕ
  pub source_sha256 : String
  pub updated_at : ℕ
  pub recording_updated_at : ℕ
  pub is_name : Bool
  pub directory : Option Stat
  pub files : List (ℕ × File)

-- The file under the name of an offset.
unfoldable pub find_file : ℕ → List (ℕ × File) → Option File
find_file offset [] = none
find_file offset ((o, f) ∷ files) = if offset == o then some f else find_file offset files

abbrev pub stat_of : Option File → Option Stat
stat_of none = none
stat_of (some f) = some f.stat

-- The file that is there.
abbrev pub existing_file : Option File → Out File
existing_file none = err file_unavailable
existing_file (some f) = ok f

-- `_upload_directory`.
unfoldable pub upload_directory : Upload → Out (Unit {0})
unfolding require_safe_directory
upload_directory up = do guard up.is_name storage_name_invalid; require_safe_directory up.directory

module _ (A : Aead) (cipher : RecordingCipher) (identity : String) where
  -- `_require_safe_file(path)` and the decryption of `path.read_bytes()`.
  unfoldable pub read_chunk : ℕ → File → Out Bytes
  unfolding require_safe_file decrypt_chunk
  read_chunk offset f = do
    require_safe_file (some f.stat)
    decrypt_chunk A cipher identity offset f.payload

  -- The branch of an offset that was passed.
  unfoldable pub replay : Upload → ℕ → Bytes → Option File → Out Upload
  unfolding read_chunk same_bytes
  replay up offset plaintext none = err replay_mismatch
  replay up offset plaintext (some f) = do
    existing ← read_chunk offset f
    guard
        (not
          (not (same_bytes existing plaintext) || ltb up.upload_offset (offset + length plaintext)))
        replay_mismatch
    ok up

  -- The write of the file, unless one is there.
  unfoldable pub write_chunk : Upload → ℕ → Bytes → Bytes → Option File → Out (List (ℕ × File))
  unfolding read_chunk same_bytes
  write_chunk up offset plaintext encrypted none =
      ok ((offset, (record { stat = written_stat; payload = encrypted })) ∷ up.files)
  write_chunk up offset plaintext encrypted (some f) = do
    existing ← read_chunk offset f
    guard (same_bytes existing plaintext) different_chunk
    ok up.files

  -- The branch of the offset that is expected.
  unfoldable pub append_chunk : Bytes → ℕ → Upload → ℕ → Bytes → Out Upload
  unfolding encrypt_chunk write_chunk find_file
  append_chunk nonce now up offset plaintext = do
    guard (offset == up.upload_offset) offset_mismatch
    encrypted ← encrypt_chunk A cipher nonce identity offset plaintext
    files ← write_chunk up offset plaintext encrypted (find_file offset up.files)
    ok (record up {
      upload_offset = offset + length plaintext;
      updated_at = now;
      recording_updated_at = now;
      files = files;
    })

  -- `limit` is `recording_chunk_limit_bytes`.
  unfoldable pub store_chunk : ℕ → Bytes → ℕ → Upload → ℕ → Bytes → Out Upload
  unfolding upload_directory replay append_chunk find_file
  store_chunk limit nonce now up offset plaintext = do
    guard (is_nonempty plaintext) chunk_empty
    guard (not (ltb limit (length plaintext))) chunk_too_large
    guard (not (ltb up.expected_size_bytes (offset + length plaintext))) chunk_beyond_size
    upload_directory up
    if ltb offset up.upload_offset
        then replay up offset plaintext (find_file offset up.files)
        else append_chunk nonce now up offset plaintext

  -- The loop of the two readers, with the error of a chunk that does not fit. Each round takes fuel.
  unfoldable pub read_from : RecordingError → ℕ → Upload → ℕ → Out Bytes
  unfolding read_chunk find_file
  read_from inconsistent zero up offset = ok []
  read_from inconsistent (suc fuel) up offset =
      if ltb offset up.expected_size_bytes
      then (do
        f ← existing_file (find_file offset up.files)
        plaintext ← read_chunk offset f
        guard
            (is_nonempty plaintext && not (ltb up.expected_size_bytes (offset + length plaintext)))
            inconsistent
        rest ← read_from inconsistent fuel up (offset + length plaintext)
        ok (plaintext ++ rest))
      else ok []

  -- The two readers differ in their errors alone; `sha256` is the library's digest.
  unfoldable pub read_all :
      RecordingError
      → RecordingError
      → RecordingError
      → RecordingError
      → (Bytes → String)
      → Upload
      → Out Bytes
  unfolding read_from upload_directory
  read_all incomplete inconsistent wrong_size wrong_hash sha256 up = do
    guard (up.upload_offset == up.expected_size_bytes) incomplete
    upload_directory up
    source ← read_from inconsistent up.expected_size_bytes up 0
    guard (length source == up.expected_size_bytes) wrong_size
    guard (str_eq (sha256 source) up.source_sha256) wrong_hash
    ok source

  unfoldable pub read_uploaded_wav : (Bytes → String) → Upload → Out Bytes
  unfolding read_all
  read_uploaded_wav = read_all upload_incomplete chunks_inconsistent size_mismatch hash_mismatch

  -- The bytes that are written to the path; after an error there is no file.
  unfoldable pub write_uploaded_wav_to_path : (Bytes → String) → Upload → Out Bytes
  unfolding read_all
  write_uploaded_wav_to_path =
      read_all segment_incomplete segment_chunks_inconsistent segment_size_mismatch
        segment_hash_mismatch
