-- ===== src/Api/Playback.antt =====
-- `load_media`, `materialize_media` and `_media_path` of server/app/recording_service.py.
pub mod Stored
pub mod Ranges
pub mod Tests
use ivrdroid.Recordings.{
  media_hash_mismatch, media_version_mismatch, media_size_mismatch, media_unavailable,
  media_name_invalid, drop, take, is_nonempty, same_bytes,
}
use ivrdroid.Recordings.Upload.{existing_file, rec_suffix, require_safe_file, stat_of, File}
use ivrdroid.Api.{ready, Recording, Bytes, Media, RecordingCipher, Status}
use ivrdroid.Recordings.Cipher.{Out, Aead, decrypt_media, media_version}
use ivrdroid.Recordings.Cipher.Files.{decrypt_media_file, DecryptedFile}
use ivrdroid.Base.{
  String, Option, none, some, Bool, true, false, ◌&&◌, ◌||◌, not, ◌==◌, length, str_eq, Result, ok,
  err, guard, ◌>>=◌, ◌>>◌, ltb, ℕ, [], ◌∷◌,
}

-- The digits from 0 to 9 and the letters from a to f.
abbrev pub is_hex : ℕ → Bool
is_hex c = (ltb 47 c && ltb c 58) || (ltb 96 c && ltb c 103)

unfoldable pub are_hex : Bytes → Bool
are_hex [] = true
are_hex (c ∷ cs) = is_hex c && are_hex cs

-- The test of a name: 36 characters, of which the last four are `.rec`.
unfoldable pub is_media_name : Bytes → Bool
unfolding are_hex same_bytes
is_media_name name =
    (length name == 36) && (same_bytes (drop 32 name) rec_suffix && are_hex (take 32 name))

-- `_media_path`, with the file that stands there.
unfoldable pub media_path : Media → Out File
unfolding is_media_name require_safe_file
media_path m = do
  guard (is_media_name m.storage_name) media_name_invalid
  require_safe_file (stat_of m.file)
  existing_file m.file

-- The media columns of a row that is ready.
abbrev pub ready_media : Status → Option Media → Out Media
ready_media ready (some m) = do guard (is_nonempty m.storage_name) media_unavailable; ok m
ready_media _ _ = err media_unavailable

-- The two readers compare a digest unless the column is empty.
abbrev pub differs_from : String → String → Bool
differs_from digest sha256 = not (str_eq sha256 "") && not (str_eq digest sha256)

unfoldable pub load_media : Aead → RecordingCipher → (Bytes → String) → Recording → Out Bytes
unfolding decrypt_media media_version media_path
load_media A cipher sha256 r = do
  m ← ready_media r.status r.media
  file ← media_path m
  guard (length file.payload == m.size_bytes) media_size_mismatch
  version ← media_version file.payload
  guard (version == m.key_version) media_version_mismatch
  plaintext ← decrypt_media A cipher r.id file.payload
  guard (not (differs_from (sha256 plaintext) m.sha256)) media_hash_mismatch
  ok plaintext

-- The file that is written to the destination; the code returns its size.
unfoldable pub materialize_media :
    Aead → RecordingCipher → (Bytes → String) → Recording → Out DecryptedFile
unfolding decrypt_media_file media_path
materialize_media A cipher sha256 r = do
  m ← ready_media r.status r.media
  file ← media_path m
  guard (length file.payload == m.size_bytes) media_size_mismatch
  written ← decrypt_media_file A cipher sha256 r.id file.payload
  guard (written.version == m.key_version) media_version_mismatch
  guard (not (differs_from written.sha256 m.sha256)) media_hash_mismatch
  ok written
