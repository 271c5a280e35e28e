-- ===== src/Recordings/Tests.antt =====
-- Runs of the recordings on a small cipher: two master keys, and an upload of two chunks.
use ivrdroid.Recordings.Cipher.Files.Laws.{decrypt_media_file-decrypt_media, IsStreamed}
use ivrdroid.Recordings.Cipher.Files.{
  decrypt_media_file, join, open_pieces, seal_pieces, update_all,
}
use ivrdroid.Recordings.Upload.Read.{read-Stores}
use ivrdroid.Recordings.Upload.Store.{store_chunk-Stores, Appended}
use ivrdroid.Recordings.Upload.Content.{some_same, Stores, Places, IsAt, chunk, done}
use ivrdroid.Recordings.Upload.{
  find_file, read_chunk, upload_directory, Upload, File, written_stat, store_chunk,
  read_uploaded_wav, write_uploaded_wav_to_path,
}
use ivrdroid.Recordings.Cipher.Keys.{
  previous_version_duplicated, new_cipher-AreKeys, new_cipher, AreKeys, keys, has_version,
}
use ivrdroid.Recordings.Cipher.Laws.{
  take-length, decrypt_chunk-encrypt_chunk, decrypt_media-encrypt_media,
}
use ivrdroid.Recordings.Cipher.{
  version_of, Aead, IsLawful, RecordingCipher, encrypt_chunk, decrypt_chunk, encrypt_media,
  decrypt_media, find_key,
}
use ivrdroid.Recordings.{take, chunk_malformed, replay_mismatch, Bytes}
use ivrdroid.Recordings.Cipher.Files.{decrypted_file}
use ivrdroid.Base.{
  ◌>>=◌, List, length-append, ◌-◌, ap, length, subst, append-nil, zero, suc, ◌∙◌, sym, ok-same, ℕ,
  ◌<◌, ◌≡◌, ◌⊎◌, [], ◌∷◌, ◌++◌, some, true, ok, err, arith, refl,
}

abbrev tag : Bytes
tag = 0 ∷ 0 ∷ 0 ∷ 0 ∷ 0 ∷ 0 ∷ 0 ∷ 0 ∷ 0 ∷ 0 ∷ 0 ∷ 0 ∷ 0 ∷ 0 ∷ 0 ∷ 0 ∷ []

-- It keeps the plaintext before sixteen zeros.
abbrev pub toy : Aead
toy = record {
  Key = Bytes;
  derive = λ key recording_id. key;
  seal = λ key nonce plaintext c. plaintext ++ tag;
  open_sealed = λ key nonce sealed c. some (take (length sealed - 16) sealed);
  Stream = Unit {0};
  encryptor = λ key nonce c. tt;
  decryptor = λ key nonce given c. tt;
  update = λ stream piece. (stream, piece);
  finalize_encryptor = λ stream. ([], tag);
  finalize_decryptor = λ stream. some [];
}

without_tag :
    (plaintext given : Bytes)
    → length given ≡ 16
    → take (length (plaintext ++ given) - 16) (plaintext ++ given) ≡ plaintext
without_tag plaintext given size =
    take-length (length (plaintext ++ given) - 16) plaintext given
      (omega (arith, length-append plaintext given, size))

pub toy-IsLawful : IsLawful toy
toy-IsLawful = record {
  opens = λ k nonce plaintext c. ap (λ l. some l) (without_tag plaintext tag refl);
  tagged = λ k nonce plaintext c. omega (arith, length-append plaintext tag);
}

toy-update_all : (pieces : List Bytes) → (update_all toy tt pieces).1 ≡ join pieces
unfolding update_all join
toy-update_all [] = refl
toy-update_all (piece ∷ pieces) = ap (λ l. piece ++ l) (toy-update_all pieces)

pub toy-IsStreamed : IsStreamed toy
unfolding seal_pieces open_pieces
toy-IsStreamed = record {
  seals = λ key nonce context pieces. ap (λ l. l ++ tag) (toy-update_all pieces);
  opens = λ key nonce given context pieces size.
      ap (λ l. some l)
        (append-nil _ ∙ (toy-update_all pieces ∙ sym (without_tag (join pieces) given size)));
}

abbrev key_of_ones : Bytes
key_of_ones =
    1 ∷ 1 ∷ 1 ∷ 1 ∷ 1 ∷ 1 ∷ 1 ∷ 1 ∷ 1 ∷ 1 ∷ 1 ∷ 1 ∷ 1 ∷ 1 ∷ 1 ∷ 1 ∷ 1 ∷ 1 ∷ 1 ∷ 1 ∷ 1 ∷ 1 ∷ 1 ∷ 1
    ∷ 1 ∷ 1 ∷ 1 ∷ 1 ∷ 1 ∷ 1 ∷ 1 ∷ 1 ∷ []

abbrev pub old_cipher : RecordingCipher
old_cipher = record { master_keys = (1, key_of_ones) ∷ []; version = 1 }

-- The cipher after a key rotation.
abbrev pub rotated : RecordingCipher
rotated = record { master_keys = (300, key_of_ones) ∷ (1, key_of_ones) ∷ []; version = 300 }

abbrev pub nonce : Bytes
nonce = 0 ∷ 1 ∷ 2 ∷ 3 ∷ 4 ∷ 5 ∷ 6 ∷ 7 ∷ 8 ∷ 9 ∷ 10 ∷ 11 ∷ []

abbrev first_half : Bytes
first_half = 82 ∷ 73 ∷ []

abbrev second_half : Bytes
second_half = 70 ∷ 70 ∷ 33 ∷ []

abbrev sealed_of : Bytes → Bytes
sealed_of plaintext = nonce ++ (plaintext ++ tag)

abbrev pub chunk_payload : Bytes → Bytes
chunk_payload plaintext = 73 ∷ 86 ∷ 82 ∷ 85 ∷ 80 ∷ 49 ∷ 0 ∷ 0 ∷ 0 ∷ 0 ∷ 1 ∷ sealed_of plaintext

abbrev pub media_payload : Bytes → Bytes
media_payload plaintext = 73 ∷ 86 ∷ 82 ∷ 69 ∷ 67 ∷ 49 ∷ 0 ∷ 0 ∷ 0 ∷ 0 ∷ 1 ∷ sealed_of plaintext

decrypt_chunk-encrypt_chunk_example :
    decrypt_chunk toy rotated "r" 4 (chunk_payload first_half) ≡ ok first_half
unfolding encrypt_chunk find_key
decrypt_chunk-encrypt_chunk_example =
    decrypt_chunk-encrypt_chunk toy toy-IsLawful old_cipher rotated refl nonce "r" 4 first_half
      (chunk_payload first_half) refl refl

decrypt_media-encrypt_media_example :
    decrypt_media toy rotated "r" (media_payload second_half) ≡ ok second_half
unfolding encrypt_media find_key
decrypt_media-encrypt_media_example =
    decrypt_media-encrypt_media toy toy-IsLawful old_cipher rotated refl nonce "r" second_half
      (media_payload second_half) refl refl

-- The file that was written before the rotation is decrypted in pieces.
decrypt_media_file-decrypt_media_example :
    decrypt_media_file toy rotated (λ bytes. "digest") "r" (media_payload second_half) ≡ (do
      plaintext ← decrypt_media toy rotated "r" (media_payload second_half)
      ok (
          decrypted_file toy rotated
            (λ bytes. "digest")
            (version_of toy rotated (media_payload second_half))
            plaintext))
decrypt_media_file-decrypt_media_example =
    decrypt_media_file-decrypt_media toy toy-IsStreamed rotated (λ bytes. "digest") "r"
      (media_payload second_half)

-- Another offset is another context: the toy does not look at it, but a wrong prefix is refused.
decrypt_chunk_of_media :
    decrypt_chunk toy rotated "r" 4 (media_payload first_half) ≡ err chunk_malformed
unfolding decrypt_chunk
decrypt_chunk_of_media = refl

new_cipher-AreKeys_example :
    AreKeys rotated.master_keys
    × (rotated.version ≡ 300)
    × (find_key 300 rotated.master_keys ≡ some key_of_ones)
    × (has_version 300 rotated.master_keys ≡ true)
unfolding new_cipher
new_cipher-AreKeys_example =
    new_cipher-AreKeys (some key_of_ones) 300 (keys ((some 1, some key_of_ones) ∷ [])) rotated refl

new_cipher_of_duplicate :
    new_cipher
      (some key_of_ones)
      300
      (keys ((some 1, some key_of_ones) ∷ (some 1, some key_of_ones) ∷ []))
    ≡ err previous_version_duplicated
unfolding new_cipher
new_cipher_of_duplicate = refl

-- An upload of five bytes after its first chunk, and after its second.
abbrev file_of : Bytes → File
file_of plaintext = record { stat = written_stat; payload = chunk_payload plaintext }

abbrev half_way : Upload
half_way = record {
  upload_offset = 2;
  expected_size_bytes = 5;
  source_sha256 = "digest";
  updated_at = 10;
  recording_updated_at = 10;
  is_name = true;
  directory = some written_stat;
  files = (0, file_of first_half) ∷ [];
}

abbrev complete : Upload
complete = record half_way {
  upload_offset = 5;
  updated_at = 11;
  recording_updated_at = 11;
  files = (2, file_of second_half) ∷ (0, file_of first_half) ∷ [];
}

half_way-Stores : Stores toy old_cipher "r" half_way first_half
unfolding read_chunk find_file
half_way-Stores = record {
  held = chunk (file_of first_half) first_half [] refl refl refl (done refl refl) refl;
  bounded = omega arith;
}

-- Only the first chunk has a file, and it is at the start.
half_way-at_start : (k : ℕ) (f : File) → find_file k half_way.files ≡ some f → k ≡ 0
unfolding find_file
half_way-at_start zero f e = refl
half_way-at_start (suc k) f e = ground (arith, e)

half_way-file : (k : ℕ) (f : File) → find_file k half_way.files ≡ some f → file_of first_half ≡ f
unfolding find_file
half_way-file zero f e = some_same e
half_way-file (suc k) f e = ground (arith, e)

half_way-Places : Places toy old_cipher "r" half_way first_half
unfolding read_chunk
half_way-Places = record {
  placed = λ k f p there before reading.
      (let start = half_way-at_start k f there in
        let read_here : read_chunk toy old_cipher "r" k f ≡ ok first_half =
          subst (λ i. read_chunk toy old_cipher "r" i f ≡ ok first_half) (sym start)
            (subst (λ g. read_chunk toy old_cipher "r" 0 g ≡ ok first_half)
              (half_way-file k f there) refl) in
        let bytes : p ≡ first_half = ok-same (sym reading ∙ read_here) in
        record { before = []; behind = []; split = append-nil p ∙ bytes; starts = sym start });
  last = λ k f there. omega (arith, half_way-at_start k f there);
}

complete-Stores : Stores toy old_cipher "r" complete (first_half ++ second_half)
unfolding read_chunk find_file
complete-Stores = record {
  held =
      chunk (file_of first_half) first_half second_half refl refl refl
        (chunk (file_of second_half) second_half [] refl refl refl (done refl refl) refl) refl;
  bounded = omega arith;
}

store_chunk-Stores_example :
    ((2 < half_way.upload_offset) × IsAt 2 second_half first_half × (complete ≡ half_way))
    ⊎ Appended toy toy-IsLawful old_cipher "r" half_way 2 second_half first_half complete
unfolding store_chunk
store_chunk-Stores_example =
    store_chunk-Stores toy toy-IsLawful old_cipher "r" 1048576 nonce 11 half_way 2 second_half
      first_half complete refl half_way-Stores half_way-Places refl

read-Stores_example :
    (read_uploaded_wav toy old_cipher "r" (λ source. "digest") complete
      ≡ ok (first_half ++ second_half))
    × (write_uploaded_wav_to_path toy old_cipher "r" (λ source. "digest") complete
        ≡ ok (first_half ++ second_half))
unfolding upload_directory
read-Stores_example =
    read-Stores toy old_cipher "r" (λ source. "digest") complete (first_half ++ second_half)
      complete-Stores refl refl refl

-- The first chunk again changes nothing, other bytes at its offset are refused.
store_chunk_of_replay :
    store_chunk toy old_cipher "r" 1048576 nonce 12 half_way 0 first_half ≡ ok half_way
unfolding store_chunk
store_chunk_of_replay = refl

store_chunk_of_other :
    store_chunk toy old_cipher "r" 1048576 nonce 12 half_way 0 second_half ≡ err replay_mismatch
unfolding store_chunk
store_chunk_of_other = refl
