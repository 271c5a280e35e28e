-- ===== src/Recordings/Upload/Read.antt =====
-- The readers of an upload, and an upload from its first chunk to its last.
use ivrdroid.Recordings.Upload.Content.{Holds-length, Stores, nonempty-lt, chunk, done, Holds}
use ivrdroid.Recordings.Upload.{
  upload_directory, write_uploaded_wav_to_path, read_all, read_uploaded_wav, Bytes, Upload,
  RecordingError, read_from,
}
use ivrdroid.Recordings.Cipher.{RecordingCipher, Aead}
use ivrdroid.Base.{
  length-append, ℕ, zero, suc, ◌+◌, ◌≡◌, ◌≤◌, String, true, false, length, ok, arith, refl, ap, ltb,
  ◌==◌, str_eq, eq_refl,
}

module _ (A : Aead) (cipher : RecordingCipher) (identity : String) where
  -- The loop reads what the files hold, if the fuel is not less than the bytes that are left.
  read_from-Holds :
      (inconsistent : RecordingError) (fuel : ℕ) (up : Upload) {a b : ℕ} {content : Bytes}
      → Holds A cipher identity up.files a b content
      → b ≡ up.expected_size_bytes
      → length content ≤ fuel
      → read_from A cipher identity inconsistent fuel up a ≡ ok content
  unfolding read_from
  read_from-Holds inconsistent zero up (done e none_left) whole h = rw none_left refl
  read_from-Holds inconsistent (suc fuel) up {a} {b} (done e none_left) whole h =
      let at_end : ltb a up.expected_size_bytes ≡ false = ground (arith, e, whole) in
      rw (at_end, none_left) refl
  read_from-Holds inconsistent zero up (chunk f p rest found reads nonempty more e) whole h =
      absurd (
        omega
          (arith, nonempty-lt p nonempty, length-append p rest, ap (λ (l : Bytes). length l) e, h))
  read_from-Holds inconsistent (suc fuel) up {a} {b} {content}
        (chunk f p rest found reads nonempty more e) whole h =
      let size : a + length p + length rest ≡ b = Holds-length A cipher identity up.files more in
      let positive = nonempty-lt p nonempty in
      let below : ltb a up.expected_size_bytes ≡ true = ground (arith, size, whole, positive) in
      let fits : ltb up.expected_size_bytes (a + length p) ≡ false = ground (arith, size, whole) in
      let few : length rest ≤ fuel =
        omega (arith, h, positive, length-append p rest, ap (λ (l : Bytes). length l) e) in
      let later = read_from-Holds inconsistent fuel up more whole few in
      rw (below, found, reads, nonempty, fits, later, e) refl

  read_all-Stores :
      (incomplete inconsistent wrong_size wrong_hash : RecordingError) (sha256 : Bytes → String)
      (up : Upload) (content : Bytes)
      → Stores A cipher identity up content
      → up.upload_offset ≡ up.expected_size_bytes
      → upload_directory up ≡ ok tt
      → sha256 content ≡ up.source_sha256
      → read_all A cipher identity incomplete inconsistent wrong_size wrong_hash sha256 up
        ≡ ok content
  unfolding read_all
  read_all-Stores incomplete inconsistent wrong_size wrong_hash sha256 up content s whole safe
        hashed =
      let size : length content ≡ up.upload_offset =
        omega (arith, Holds-length A cipher identity up.files s.held) in
      let complete : (up.upload_offset == up.expected_size_bytes) ≡ true = ground (arith, whole) in
      let loop =
        read_from-Holds inconsistent up.expected_size_bytes up s.held whole
          (omega (arith, size, whole)) in
      let right_size : (length content == up.expected_size_bytes) ≡ true =
        ground (arith, size, whole) in
      let right_hash : str_eq (sha256 content) up.source_sha256 ≡ true =
        rw hashed (eq_refl up.source_sha256) in
      rw (complete, safe, loop, right_size, right_hash) refl

  -- A complete upload that holds `content` in a safe directory is read as the content by both readers,
  -- if the digest of the content is the declared one.
  pub read-Stores :
      (sha256 : Bytes → String) (up : Upload) (content : Bytes)
      → Stores A cipher identity up content
      → up.upload_offset ≡ up.expected_size_bytes
      → upload_directory up ≡ ok tt
      → sha256 content ≡ up.source_sha256
      → (read_uploaded_wav A cipher identity sha256 up ≡ ok content)
        × (write_uploaded_wav_to_path A cipher identity sha256 up ≡ ok content)
  unfolding read_uploaded_wav write_uploaded_wav_to_path
  read-Stores sha256 up content s whole safe hashed = (
    read_all-Stores _ _ _ _ sha256 up content s whole safe hashed,
    read_all-Stores _ _ _ _ sha256 up content s whole safe hashed,
  )
