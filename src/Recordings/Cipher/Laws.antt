-- ===== src/Recordings/Cipher/Laws.antt =====
-- What is encrypted can be decrypted, also after the key has been rotated.
use ivrdroid.Recordings.{
  chunk_unauthentic, media_unauthentic, chunk_malformed, media_malformed, RecordingError,
  version_overflow, drop, take, Bytes, same_bytes,
}
use ivrdroid.Recordings.Cipher.{
  version_of, media_version, media_context, upload_context, media_magic, upload_magic,
  decrypt_chunk, decrypt_media, encrypt_chunk, encrypt_media, Context, key_of, decrypt_with,
  encrypt_with, find_key, RecordingCipher, IsLawful, Aead, starts_with, to_bytes, from_bytes,
}
use ivrdroid.Base.{
  ok-same, not, ◌||◌, if-eq-ok, subst, ◌∙◌, append_assoc, sym, inr, inl, ◌≤◌, ◌⊎◌, ap, ℕ, ◌+◌, ◌*◌,
  ◌≡◌, String, [], ◌∷◌, ◌++◌, true, false, length, ltb, ok, err, arith, refl, length-append,
  >>=-eq-ok,
}
use Prim.Native.Nat.{◌/◌, ◌%◌, ◌^◌, ◌<◌}

-- The value of the four bytes of a number.
bytes_value :
    (v : ℕ)
    → v < 2 ^ 32
    → (((0 * 256 + v / 2 ^ 24) * 256 + v / 2 ^ 16 % 256) * 256 + v / 2 ^ 8 % 256) * 256 + v % 256
      ≡ v
bytes_value v h = omega arith

to_bytes-cases :
    (v : ℕ)
    → ((v < 2 ^ 32)
        × (to_bytes v ≡ ok (v / 2 ^ 24 ∷ v / 2 ^ 16 % 256 ∷ v / 2 ^ 8 % 256 ∷ v % 256 ∷ [])))
      ⊎ (to_bytes v ≡ err version_overflow)
unfolding to_bytes
to_bytes-cases v = ground arith

from_bytes-to_bytes :
    (v : ℕ) (bs : Bytes) → to_bytes v ≡ ok bs → (from_bytes 0 bs ≡ v) × (length bs ≡ 4)
unfolding from_bytes
from_bytes-to_bytes v bs e = elim (to_bytes-cases v) [
  | inl (small, made) ↦
      let same : (v / 2 ^ 24 ∷ v / 2 ^ 16 % 256 ∷ v / 2 ^ 8 % 256 ∷ v % 256 ∷ []) ≡ bs = cc in
      rw (← same) (bytes_value v small, refl)
  | inr over ↦ cc
]

same_bytes_self : (xs : Bytes) → same_bytes xs xs ≡ true
unfolding same_bytes
same_bytes_self [] = refl
same_bytes_self (x ∷ xs) = ground (arith, same_bytes_self xs)

take-append : (xs ys : Bytes) → take (length xs) (xs ++ ys) ≡ xs
take-append [] ys = refl
take-append (x ∷ xs) ys = ap (λ l. x ∷ l) (take-append xs ys)

drop-append : (xs ys : Bytes) → drop (length xs) (xs ++ ys) ≡ ys
drop-append [] ys = refl
drop-append (x ∷ xs) ys = drop-append xs ys

pub take-length : (n : ℕ) (xs ys : Bytes) → length xs ≡ n → take n (xs ++ ys) ≡ xs
take-length n xs ys h = rw (← h) (take-append xs ys)

pub drop-length : (n : ℕ) (xs ys : Bytes) → length xs ≡ n → drop n (xs ++ ys) ≡ ys
drop-length n xs ys h = rw (← h) (drop-append xs ys)

-- A payload: its parts, and what is read back from it.
record Layout (payload magic version nonce sealed : Bytes) : Type 0 where
  long : ltb (length payload) 39 ≡ false
  starts : starts_with payload magic ≡ true
  reads_version : take 4 (drop 7 payload) ≡ version
  reads_nonce : take 12 (drop 11 payload) ≡ nonce
  reads_sealed : drop 23 payload ≡ sealed

layout :
    (magic version nonce sealed : Bytes)
    → length magic ≡ 7
    → length version ≡ 4
    → length nonce ≡ 12
    → 16 ≤ length sealed
    → Layout (magic ++ (version ++ (nonce ++ sealed))) magic version nonce sealed
layout magic version nonce sealed m v n s =
    let head : length (magic ++ version) ≡ 11 = omega (arith, m, v, length-append magic version) in
    let front : length ((magic ++ version) ++ nonce) ≡ 23 =
      omega (arith, head, n, length-append (magic ++ version) nonce) in
    let at_nonce : magic ++ (version ++ (nonce ++ sealed))
        ≡ (magic ++ version) ++ (nonce ++ sealed) =
      sym (append_assoc magic version (nonce ++ sealed)) in
    let at_sealed : magic ++ (version ++ (nonce ++ sealed))
        ≡ ((magic ++ version) ++ nonce) ++ sealed =
      at_nonce ∙ sym (append_assoc (magic ++ version) nonce sealed) in
    record {
      long = ground (
        arith,
        ap (λ (l : Bytes). length l) at_sealed,
        length-append ((magic ++ version) ++ nonce) sealed,
        front,
        s,
      );
      starts = rw (take-append magic (version ++ (nonce ++ sealed))) (same_bytes_self magic);
      reads_version =
          rw (drop-length 7 magic (version ++ (nonce ++ sealed)) m)
            (take-length 4 version (nonce ++ sealed) v);
      reads_nonce =
          ap (λ (l : Bytes). take 12 (drop 11 l)) at_nonce
          ∙ ap (λ (l : Bytes). take 12 l) (drop-length 11 (magic ++ version) (nonce ++ sealed) head)
          ∙ take-length 12 nonce sealed n;
      reads_sealed =
          ap (λ (l : Bytes). drop 23 l) at_sealed
          ∙ drop-length 23 ((magic ++ version) ++ nonce) sealed front;
    }

module _ (A : Aead) (lawful : IsLawful A) (cipher cipher' : RecordingCipher)
    (kept : find_key cipher.version cipher'.master_keys
      ≡ find_key cipher.version cipher.master_keys) where
  decrypt_with-encrypt_with :
      (magic nonce : Bytes) (malformed unauthentic : RecordingError) (recording_id : String)
      (plaintext payload : Bytes) (context : ℕ → Context)
      → length magic ≡ 7
      → length nonce ≡ 12
      → encrypt_with A cipher magic nonce recording_id plaintext (context cipher.version)
        ≡ ok payload
      → decrypt_with A cipher' magic malformed unauthentic context recording_id payload
        ≡ ok plaintext
  unfolding encrypt_with decrypt_with key_of
  decrypt_with-encrypt_with magic nonce malformed unauthentic recording_id plaintext payload context
        m n e =
      let (key, found, e') = >>=-eq-ok (key_of A cipher recording_id cipher.version) _ e in
      let (version, made, e'') = >>=-eq-ok (to_bytes cipher.version) _ e' in
      let sealed = A.seal key nonce plaintext (context cipher.version) in
      let (value, four) = from_bytes-to_bytes cipher.version version made in
      let l =
        layout magic version nonce sealed m four n
          (omega (arith, lawful.tagged key nonce plaintext (context cipher.version))) in
      let same : magic ++ (version ++ (nonce ++ sealed)) ≡ payload = cc in
      let p = subst (λ q. Layout q magic version nonce sealed) same l in
      let same_key : key_of A cipher' recording_id cipher.version ≡ ok key =
        rw (kept, key_of) found in
      rw
        (
          p.long,
          p.starts,
          p.reads_version,
          value,
          same_key,
          p.reads_nonce,
          p.reads_sealed,
          lawful.opens key nonce plaintext (context cipher.version),
        )
        refl

  -- A chunk that was encrypted with a nonce of 12 bytes is decrypted to its plaintext under the same
  -- identity and offset, by every cipher object that holds the master key of the version in which it
  -- was encrypted.
  pub decrypt_chunk-encrypt_chunk :
      (nonce : Bytes) (recording_id : String) (offset : ℕ) (plaintext payload : Bytes)
      → length nonce ≡ 12
      → encrypt_chunk A cipher nonce recording_id offset plaintext ≡ ok payload
      → decrypt_chunk A cipher' recording_id offset payload ≡ ok plaintext
  unfolding encrypt_chunk decrypt_chunk
  decrypt_chunk-encrypt_chunk nonce recording_id offset plaintext payload n e =
      decrypt_with-encrypt_with upload_magic nonce chunk_malformed chunk_unauthentic recording_id
        plaintext payload (λ version. upload_context version recording_id offset) refl n e

  -- A medium that was encrypted with a nonce of 12 bytes is decrypted to its plaintext under the same
  -- identity, by every cipher object that holds the master key of the version in which it was
  -- encrypted.
  pub decrypt_media-encrypt_media :
      (nonce : Bytes) (recording_id : String) (plaintext payload : Bytes)
      → length nonce ≡ 12
      → encrypt_media A cipher nonce recording_id plaintext ≡ ok payload
      → decrypt_media A cipher' recording_id payload ≡ ok plaintext
  unfolding encrypt_media decrypt_media
  decrypt_media-encrypt_media nonce recording_id plaintext payload n e =
      decrypt_with-encrypt_with media_magic nonce media_malformed media_unauthentic recording_id
        plaintext payload (λ version. media_context version recording_id) refl n e

-- An encrypted medium is 39 bytes longer than its plaintext, if the nonce has 12 bytes.
pub length-encrypt_media :
    (A : Aead) (lawful : IsLawful A) (cipher : RecordingCipher) (nonce : Bytes)
    (recording_id : String) (plaintext payload : Bytes)
    → length nonce ≡ 12
    → encrypt_media A cipher nonce recording_id plaintext ≡ ok payload
    → length payload ≡ length plaintext + 39
unfolding encrypt_media encrypt_with
length-encrypt_media A lawful cipher nonce recording_id plaintext payload n e =
    let (key, found, e') = >>=-eq-ok (key_of A cipher recording_id cipher.version) _ e in
    let (version, made, e'') = >>=-eq-ok (to_bytes cipher.version) _ e' in
    let context = media_context cipher.version recording_id in
    let sealed = A.seal key nonce plaintext context in
    let (value, four) = from_bytes-to_bytes cipher.version version made in
    let same : media_magic ++ (version ++ (nonce ++ sealed)) ≡ payload = cc in
    omega (
      arith,
      ap (λ (l : Bytes). length l) same,
      length-append version (nonce ++ sealed),
      length-append nonce sealed,
      four,
      n,
      lawful.tagged key nonce plaintext context,
    )

at_least_eleven : (n : ℕ) → ltb n 39 ≡ false → ltb n 11 ≡ false
at_least_eleven n h = ground (arith, h)

-- The version that a payload shows is the one under which it was encrypted.
pub media_version-encrypt_media :
    (A : Aead) (lawful : IsLawful A) (cipher : RecordingCipher) (nonce : Bytes)
    (recording_id : String) (plaintext payload : Bytes)
    → length nonce ≡ 12
    → encrypt_media A cipher nonce recording_id plaintext ≡ ok payload
    → media_version payload ≡ ok cipher.version
unfolding encrypt_media encrypt_with media_version
media_version-encrypt_media A lawful cipher nonce recording_id plaintext payload n e =
    let (key, found, e') = >>=-eq-ok (key_of A cipher recording_id cipher.version) _ e in
    let (version, made, e'') = >>=-eq-ok (to_bytes cipher.version) _ e' in
    let context = media_context cipher.version recording_id in
    let sealed = A.seal key nonce plaintext context in
    let (value, four) = from_bytes-to_bytes cipher.version version made in
    let l =
      layout media_magic version nonce sealed refl four n
        (omega (arith, lawful.tagged key nonce plaintext context)) in
    let same : media_magic ++ (version ++ (nonce ++ sealed)) ≡ payload = cc in
    let p = subst (λ q. Layout q media_magic version nonce sealed) same l in
    let long : ltb (length payload) 11 ≡ false = at_least_eleven (length payload) p.long in
    rw (long, p.starts, p.reads_version, value) refl

-- The readers of files look at the version without the tests of `media_version`.
pub version_of-encrypt_media :
    (A : Aead) (lawful : IsLawful A) (cipher cipher' : RecordingCipher) (nonce : Bytes)
    (recording_id : String) (plaintext payload : Bytes)
    → length nonce ≡ 12
    → encrypt_media A cipher nonce recording_id plaintext ≡ ok payload
    → version_of A cipher' payload ≡ cipher.version
unfolding media_version
version_of-encrypt_media A lawful cipher cipher' nonce recording_id plaintext payload n e =
    let m = media_version-encrypt_media A lawful cipher nonce recording_id plaintext payload n e in
    elim (if-eq-ok (ltb (length payload) 11 || not (starts_with payload media_magic)) _ _ m) [
      | inl (short, bad) ↦ cc
      | inr (long, same) ↦ ok-same same
    ]
