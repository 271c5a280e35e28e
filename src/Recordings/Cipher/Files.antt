-- ===== src/Recordings/Cipher/Files.antt =====
-- `encrypt_media_file` and `decrypt_media_file` of server/app/recording_service.py: the format of media,
-- written and read in pieces.
pub mod Laws
use ivrdroid.Recordings.{drop, take, Bytes, media_malformed, media_unauthentic}
use ivrdroid.Recordings.Cipher.{
  Aead, Out, RecordingCipher, authentic, key_of, media_context, media_magic, starts_with, to_bytes,
  version_of, from_bytes, Context,
}
use ivrdroid.Base.{
  ℕ, zero, suc, ◌+◌, ◌-◌, String, List, [], ◌∷◌, ◌++◌, Option, none, some, Bool, true, false, not,
  length, ltb, ok, err, guard, ◌>>=◌, ◌>>◌, ◌≡◌, Result,
}

-- 1 MiB.
abbrev pub piece_size : ℕ
piece_size = 1048576

-- `while chunk := incoming.read(1024 * 1024)`, with fuel for the pieces.
unfoldable pub read_pieces : ℕ → Bytes → List Bytes
read_pieces zero source = []
read_pieces (suc left) [] = []
read_pieces (suc left) (b ∷ bs) =
    take piece_size (b ∷ bs) ∷ read_pieces left (drop piece_size (b ∷ bs))

-- As much fuel as there are bytes is enough.
unfoldable pub pieces_of : Bytes → List Bytes
unfolding read_pieces
pieces_of source = read_pieces (length source) source

unfoldable pub join : List Bytes → Bytes
join [] = []
join (piece ∷ pieces) = piece ++ join pieces

module _ (A : Aead) where
  -- The loop over the pieces: the stream and what was written.
  unfoldable pub update_all : A.Stream → List Bytes → A.Stream × Bytes
  update_all stream [] = (stream, [])
  update_all stream (piece ∷ pieces) =
      let (next, written) = A.update stream piece in
      let (last, rest) = update_all next pieces in (last, written ++ rest)

  -- What is written from the first update to the tag.
  unfoldable pub seal_pieces : A.Key → Bytes → Context → List Bytes → Bytes
  unfolding update_all
  seal_pieces key nonce context pieces =
      let (last, written) = update_all (A.encryptor key nonce context) pieces in
      let (tail, tag) = A.finalize_encryptor last in written ++ (tail ++ tag)

  abbrev pub with_tail : Bytes → Option Bytes → Option Bytes
  with_tail written none = none
  with_tail written (some tail) = some (written ++ tail)

  -- The plaintext that is written, unless the tag is wrong.
  unfoldable pub open_pieces : A.Key → Bytes → Bytes → Context → List Bytes → Option Bytes
  unfolding update_all
  open_pieces key nonce tag context pieces =
      let (last, written) = update_all (A.decryptor key nonce tag context) pieces in
      with_tail written (A.finalize_decryptor last)

-- A file that was written, with its size and the digest of the plaintext.
pub record EncryptedFile : Type 0 where
  pub content : Bytes
  pub size : ℕ
  pub sha256 : String

pub record DecryptedFile : Type 0 where
  pub version : ℕ
  pub content : Bytes
  pub size : ℕ
  pub sha256 : String

module _ (A : Aead) (cipher : RecordingCipher) (sha256 : Bytes → String) where
  abbrev pub encrypted_file : Bytes → Bytes → EncryptedFile
  encrypted_file source content = record {
    content = content;
    size = length content;
    sha256 = sha256 source;
  }

  abbrev pub decrypted_file : ℕ → Bytes → DecryptedFile
  decrypted_file version content = record {
    version = version;
    content = content;
    size = length content;
    sha256 = sha256 content;
  }

  -- The digest is updated with the pieces that are read. The nonce is random.
  unfoldable pub encrypt_media_file : Bytes → String → Bytes → Out EncryptedFile
  unfolding key_of to_bytes pieces_of seal_pieces join
  encrypt_media_file nonce recording_id source = do
    key ← key_of A cipher recording_id cipher.version
    version ← to_bytes cipher.version
    let pieces = pieces_of source
    let sealed = seal_pieces A key nonce (media_context cipher.version recording_id) pieces
    ok (encrypted_file (join pieces) (media_magic ++ (version ++ (nonce ++ sealed))))

  -- The header has 23 bytes and the tag 16. The file does not shrink while it is read.
  unfoldable pub decrypt_media_file : String → Bytes → Out DecryptedFile
  unfolding key_of from_bytes pieces_of open_pieces
  decrypt_media_file recording_id payload = do
    guard (not (ltb (length payload) (23 + 16))) media_malformed
    guard (starts_with payload media_magic) media_malformed
    let version = version_of A cipher payload
    let tag = drop (length payload - 16) payload
    let sealed = take (length payload - 23 - 16) (drop 23 payload)
    key ← key_of A cipher recording_id version
    plaintext ← authentic A cipher media_unauthentic (
        open_pieces A key (take 12 (drop 11 payload)) tag (media_context version recording_id)
          (pieces_of sealed))
    ok (decrypted_file version plaintext)
