-- ===== src/Recordings/Upload/Steps.antt =====
-- The steps of `store_chunk`: the tests that it starts with, and the replay of a chunk.
use ivrdroid.Recordings.Upload.{
  chunk_beyond_size, replay_mismatch, chunk_too_large, same_bytes, write_chunk, chunk_empty,
  encrypt_chunk, find_file, read_chunk, upload_directory, File, Out, is_nonempty, offset_mismatch,
  Bytes, Upload, store_chunk, RecordingCipher, Aead, replay, append_chunk,
}
use ivrdroid.Base.{
  [], ◌∷◌, ok-same, sym, ◌≤◌, ap, ℕ, ◌+◌, ◌≡◌, String, Option, none, some, Bool, true, false, not,
  ◌||◌, length, ok, arith, refl, ltb, ◌==◌, guard-eq-ok, >>=-eq-ok, if◌then◌else◌, subst,
  Bool-cases, inl, inr,
}

pub same_bytes-eq : (xs ys : Bytes) → same_bytes xs ys ≡ true → xs ≡ ys
unfolding same_bytes
same_bytes-eq [] [] h = refl
same_bytes-eq [] (y ∷ ys) h = cc
same_bytes-eq (x ∷ xs) [] h = cc
same_bytes-eq (x ∷ xs) (y ∷ ys) h = ground (arith, same_bytes-eq xs ys)

module _ (A : Aead) (cipher : RecordingCipher) (identity : String) where
  -- The three tests of the size and the test of the directory.
  unfoldable pub Accepted : ℕ → Upload → ℕ → Bytes → Type 0
  Accepted limit up offset plaintext =
      (is_nonempty plaintext ≡ true)
      × (ltb limit (length plaintext) ≡ false)
      × (ltb up.expected_size_bytes (offset + length plaintext) ≡ false)
      × (upload_directory up ≡ ok tt)

  abbrev pub choose_step : Bool → Bytes → ℕ → Upload → ℕ → Bytes → Out Upload
  choose_step passed nonce now up offset plaintext =
      if passed
      then replay A cipher identity up offset plaintext (find_file offset up.files)
      else append_chunk A cipher identity nonce now up offset plaintext

  abbrev pub step_of : Bytes → ℕ → Upload → ℕ → Bytes → Out Upload
  step_of nonce now up offset plaintext =
      choose_step (ltb offset up.upload_offset) nonce now up offset plaintext

  pub store_chunk-Accepted :
      (limit : ℕ) (nonce : Bytes) (now : ℕ) (up : Upload) (offset : ℕ) (plaintext : Bytes)
      (up' : Upload)
      → store_chunk A cipher identity limit nonce now up offset plaintext ≡ ok up'
      → Accepted limit up offset plaintext × (step_of nonce now up offset plaintext ≡ ok up')
  unfolding store_chunk Accepted
  store_chunk-Accepted limit nonce now up offset plaintext up' e =
      let (a, e1) = guard-eq-ok (is_nonempty plaintext) chunk_empty _ e in
      let (b, e2) = guard-eq-ok (not (ltb limit (length plaintext))) chunk_too_large _ e1 in
      let (c, e3) =
        guard-eq-ok (not (ltb up.expected_size_bytes (offset + length plaintext))) chunk_beyond_size
          _ e2 in
      let (u, d, e4) =
        >>=-eq-ok (upload_directory up) (λ u. step_of nonce now up offset plaintext) e3 in
      ((a, ground (arith, b), ground (arith, c), d), e4)

  -- An accepted replay is of the bytes that the file at its offset holds, and changes nothing.
  pub record Replayed (up : Upload) (offset : ℕ) (plaintext : Bytes) (up' : Upload) : Type 0 where
    pub file : File
    pub found : find_file offset up.files ≡ some file
    pub reads : read_chunk A cipher identity offset file ≡ ok plaintext
    pub fits : offset + length plaintext ≤ up.upload_offset
    pub unchanged : up' ≡ up

  pub replay-Replayed :
      (up : Upload) (offset : ℕ) (plaintext : Bytes) (o : Option File) (up' : Upload)
      → find_file offset up.files ≡ o
      → replay A cipher identity up offset plaintext o ≡ ok up'
      → Replayed up offset plaintext up'
  unfolding replay
  replay-Replayed up offset plaintext none up' there e = cc
  replay-Replayed up offset plaintext (some f) up' there e =
      let (existing, reads, e1) = >>=-eq-ok (read_chunk A cipher identity offset f) _ e in
      let test =
        not (
          not (same_bytes existing plaintext)
          || ltb up.upload_offset (offset + length plaintext)) in
      let (fits, e2) = guard-eq-ok test replay_mismatch (ok up) e1 in
      record {
        file = f;
        found = there;
        reads = rw (← same_bytes-eq existing plaintext (ground (arith, fits))) reads;
        fits = ground (arith, fits);
        unchanged = sym (ok-same e2);
      }

  append_chunk-size :
      (nonce : Bytes) (now : ℕ) (up : Upload) (offset : ℕ) (plaintext : Bytes) (up' : Upload)
      → append_chunk A cipher identity nonce now up offset plaintext ≡ ok up'
      → up'.expected_size_bytes ≡ up.expected_size_bytes
  unfolding append_chunk
  append_chunk-size nonce now up offset plaintext up' e =
      let (here, e1) = guard-eq-ok (offset == up.upload_offset) offset_mismatch _ e in
      let (encrypted, made, e2) =
        >>=-eq-ok (encrypt_chunk A cipher nonce identity offset plaintext) _ e1 in
      let (files, wrote, e3) =
        >>=-eq-ok
          (write_chunk A cipher identity up offset plaintext encrypted (find_file offset up.files))
          _ e2 in
      let after : Upload = record up {
        upload_offset = offset + length plaintext;
        updated_at = now;
        recording_updated_at = now;
        files = files;
      } in
      let same : after ≡ up' = cc in
      subst (λ u. u.expected_size_bytes ≡ up.expected_size_bytes) same refl

  -- The declared size stays.
  pub store_chunk-size :
      (limit : ℕ) (nonce : Bytes) (now : ℕ) (up : Upload) (offset : ℕ) (plaintext : Bytes)
      (up' : Upload)
      → store_chunk A cipher identity limit nonce now up offset plaintext ≡ ok up'
      → up'.expected_size_bytes ≡ up.expected_size_bytes
  store_chunk-size limit nonce now up offset plaintext up' e =
      let (accepted, stepped) = store_chunk-Accepted limit nonce now up offset plaintext up' e in
      let chosen : Bool → Type 0 = λ b. choose_step b nonce now up offset plaintext ≡ ok up' in
      elim (Bool-cases (ltb offset up.upload_offset)) [
        | inl before ↦
            (let again =
                replay-Replayed up offset plaintext (find_file offset up.files) up' refl
                  (subst chosen before stepped) in
              ap (λ u. u.expected_size_bytes) again.unchanged)
        | inr at_end ↦
            append_chunk-size nonce now up offset plaintext up' (subst chosen at_end stepped)
      ]
