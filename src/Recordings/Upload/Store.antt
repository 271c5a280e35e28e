-- ===== src/Recordings/Upload/Store.antt =====
-- `store_chunk` against the bytes that an upload holds.
use ivrdroid.Recordings.Upload.Steps.{
  replay-Replayed, same_bytes-eq, choose_step, Accepted, store_chunk-Accepted,
}
use ivrdroid.Recordings.Upload.Content.{
  Holds-length, IsAt, Places-snoc, Places, Holds-snoc, Holds, Holds-files, Stores,
}
use ivrdroid.Recordings.Cipher.Laws.{decrypt_chunk-encrypt_chunk}
use ivrdroid.Recordings.Upload.{
  append_chunk, written_stat, find_file, require_safe_file, File, read_chunk, Upload, store_chunk,
  write_chunk,
}
use ivrdroid.Recordings.{offset_mismatch, different_chunk, Bytes, same_bytes}
use ivrdroid.Recordings.Cipher.{encrypt_chunk, RecordingCipher, IsLawful, Aead}
use ivrdroid.Base.{
  false, ℕ, ◌+◌, ◌≡◌, ◌<◌, String, List, ◌∷◌, ◌++◌, Option, none, some, Bool, length, ok, arith,
  refl, sym, subst, ◌⊎◌, inl, inr, guard-eq-ok, >>=-eq-ok, Bool-cases, ltb, ◌==◌,
}

module _ (A : Aead) (lawful : IsLawful A) (cipher : RecordingCipher) (identity : String) where
  -- A chunk that `write_chunk` leaves in the directory is read back as its plaintext, and no other
  -- file has changed.
  record Written (up : Upload) (offset : ℕ) (plaintext : Bytes) (files : List (ℕ × File))
      : Type 0 where
    file : File
    found : find_file offset files ≡ some file
    reads : read_chunk A cipher identity offset file ≡ ok plaintext
    others : (k : ℕ) → (k == offset) ≡ false → find_file k files ≡ find_file k up.files

  write_chunk-Written :
      (up : Upload) (offset : ℕ) (plaintext encrypted nonce : Bytes) (o : Option File)
      (files : List (ℕ × File))
      → length nonce ≡ 12
      → find_file offset up.files ≡ o
      → encrypt_chunk A cipher nonce identity offset plaintext ≡ ok encrypted
      → write_chunk A cipher identity up offset plaintext encrypted o ≡ ok files
      → Written up offset plaintext files
  unfolding write_chunk read_chunk require_safe_file find_file
  write_chunk-Written up offset plaintext encrypted nonce none files n found made e =
      let file : File = record { stat = written_stat; payload = encrypted } in
      let same : ((offset, file) ∷ up.files) ≡ files = cc in
      subst (Written up offset plaintext) same (record {
        file = file;
        found = ground arith;
        reads =
            decrypt_chunk-encrypt_chunk A lawful cipher cipher refl nonce identity offset plaintext
              encrypted n made;
        others = λ k h. ground (arith, h);
      })
  write_chunk-Written up offset plaintext encrypted nonce (some f) files n found made e =
      let (existing, reads, e') = >>=-eq-ok (read_chunk A cipher identity offset f) _ e in
      let (equal, e'') =
        guard-eq-ok (same_bytes existing plaintext) different_chunk (ok up.files) e' in
      let same : up.files ≡ files = cc in
      subst (Written up offset plaintext) same (record {
        file = f;
        found = found;
        reads = rw (← same_bytes-eq existing plaintext equal) reads;
        others = λ k h. refl;
      })

  -- What a chunk that continues the content leaves behind.
  pub record Appended (up : Upload) (offset : ℕ) (plaintext content : Bytes) (up' : Upload)
      : Type 0 where
    pub at_end : offset ≡ up.upload_offset
    pub stores : Stores A cipher identity up' (content ++ plaintext)
    pub places : Places A cipher identity up' (content ++ plaintext)
    pub same_size : up'.expected_size_bytes ≡ up.expected_size_bytes

  append_chunk-Appended :
      (limit : ℕ) (nonce : Bytes) (now : ℕ) (up : Upload) (offset : ℕ) (plaintext content : Bytes)
      (up' : Upload)
      → length nonce ≡ 12
      → Accepted A cipher identity limit up offset plaintext
      → Stores A cipher identity up content
      → Places A cipher identity up content
      → append_chunk A cipher identity nonce now up offset plaintext ≡ ok up'
      → Appended up offset plaintext content up'
  unfolding append_chunk Accepted
  append_chunk-Appended limit nonce now up offset plaintext content up' n (a, b, c, d) s p e =
      let (here, e1) = guard-eq-ok (offset == up.upload_offset) offset_mismatch _ e in
      let at_end : offset ≡ up.upload_offset = ground (arith, here) in
      let (encrypted, made, e2) =
        >>=-eq-ok (encrypt_chunk A cipher nonce identity offset plaintext) _ e1 in
      let (files, wrote, e3) =
        >>=-eq-ok
          (write_chunk A cipher identity up offset plaintext encrypted (find_file offset up.files))
          _ e2 in
      let w = write_chunk-Written up offset plaintext encrypted nonce _ files n refl made wrote in
      let kept =
        Holds-files A cipher identity up.files files (λ k h. w.others k (ground (arith, h)))
          (subst (λ o. Holds A cipher identity up.files 0 o content) (sym at_end) s.held) in
      let after : Upload = record up {
        upload_offset = offset + length plaintext;
        updated_at = now;
        recording_updated_at = now;
        files = files;
      } in
      let same : after ≡ up' = cc in
      subst (Appended up offset plaintext content) same (record {
        at_end = at_end;
        stores = record {
          held = Holds-snoc A cipher identity files w.file plaintext kept w.found w.reads a;
          bounded = ground (arith, c);
        };
        places =
            Places-snoc A cipher identity up after content plaintext w.file at_end refl
              (omega (arith, Holds-length A cipher identity up.files s.held)) w.found w.reads
              w.others p;
        same_size = refl;
      })

  -- A chunk that is accepted by an upload that holds `content`, and whose files are parts of the content
  -- but for one that may be left at its end, either repeats the bytes that the content has at that
  -- offset, and changes nothing, or starts where the content ends, and the upload then holds the
  -- content and the chunk, and its files are parts of that in the same way. The nonce has 12 bytes.
  pub store_chunk-Stores :
      (limit : ℕ) (nonce : Bytes) (now : ℕ) (up : Upload) (offset : ℕ) (plaintext content : Bytes)
      (up' : Upload)
      → length nonce ≡ 12
      → Stores A cipher identity up content
      → Places A cipher identity up content
      → store_chunk A cipher identity limit nonce now up offset plaintext ≡ ok up'
      → ((offset < up.upload_offset) × IsAt offset plaintext content × (up' ≡ up))
        ⊎ Appended up offset plaintext content up'
  store_chunk-Stores limit nonce now up offset plaintext content up' n s p e =
      let (accepted, stepped) =
        store_chunk-Accepted A cipher identity limit nonce now up offset plaintext up' e in
      let chosen : Bool → Type 0 =
        λ b. choose_step A cipher identity b nonce now up offset plaintext ≡ ok up' in
      elim (Bool-cases (ltb offset up.upload_offset)) [
        | inl before ↦
            (let again =
                replay-Replayed A cipher identity up offset plaintext (find_file offset up.files)
                  up' refl (subst chosen before stepped) in
              inl (
                ground (arith, before),
                p.placed offset again.file plaintext again.found (ground (arith, before))
                    again.reads,
                again.unchanged,
              ))
        | inr at_end ↦ inr (
            append_chunk-Appended limit nonce now up offset plaintext content up' n accepted s p
              (subst chosen at_end stepped))
      ]
