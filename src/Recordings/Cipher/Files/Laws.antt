-- ===== src/Recordings/Cipher/Files/Laws.antt =====
-- The media that are written and read in pieces are those that are encrypted and decrypted at once.
use ivrdroid.Recordings.{drop, take, Bytes}
use ivrdroid.Recordings.Cipher.{
  Aead, Context, RecordingCipher, decrypt_media, decrypt_with, encrypt_media, encrypt_with, key_of,
  media_context, media_magic, starts_with, to_bytes, version_of,
}
use ivrdroid.Recordings.Cipher.Files.{
  decrypt_media_file, decrypted_file, encrypt_media_file, encrypted_file, join, open_pieces,
  piece_size, pieces_of, read_pieces, seal_pieces, EncryptedFile,
}
use ivrdroid.Base.{
  ok-same, >>=-eq-ok, ℕ, zero, suc, ◌+◌, ◌-◌, ◌≡◌, ◌≤◌, String, List, [], ◌∷◌, ◌++◌, false, length,
  ltb, ok, err, ◌>>=◌, arith, refl, sym, ◌∙◌, ap, subst, Result, Bool-cases, inl, inr,
}

-- The incremental interface does to the pieces what the other does to the whole.
pub record IsStreamed (A : Aead) : Type 0 where
  pub seals :
      (key : A.Key) (nonce : Bytes) (context : Context) (pieces : List Bytes)
      → seal_pieces A key nonce context pieces ≡ A.seal key nonce (join pieces) context
  pub opens :
      (key : A.Key) (nonce tag : Bytes) (context : Context) (pieces : List Bytes)
      → length tag ≡ 16
      → open_pieces A key nonce tag context pieces
        ≡ A.open_sealed key nonce (join pieces ++ tag) context

take-drop : (n : ℕ) (xs : Bytes) → take n xs ++ drop n xs ≡ xs
take-drop zero xs = refl
take-drop (suc n) [] = refl
take-drop (suc n) (x ∷ xs) = ap (λ l. x ∷ l) (take-drop n xs)

length-drop-≤ : (n : ℕ) (xs : Bytes) → length (drop n xs) ≤ length xs
length-drop-≤ zero xs = omega arith
length-drop-≤ (suc n) [] = omega arith
length-drop-≤ (suc n) (x ∷ xs) = omega (arith, length-drop-≤ n xs)

length-drop : (n : ℕ) (xs : Bytes) → n ≤ length xs → length (drop n xs) + n ≡ length xs
length-drop zero xs h = omega arith
length-drop (suc n) [] h = omega (arith, h)
length-drop (suc n) (x ∷ xs) h = omega (arith, length-drop n xs (omega (arith, h)))

drop-nil : (n : ℕ) → drop {A = ℕ} n [] ≡ []
drop-nil zero = refl
drop-nil (suc n) = refl

drop-drop : (m n k : ℕ) (xs : Bytes) → k ≡ m + n → drop n (drop m xs) ≡ drop k xs
drop-drop zero n k xs h = ap (λ i. drop i xs) (omega (arith, h))
drop-drop (suc m) n k [] h = drop-nil n ∙ sym (drop-nil k)
drop-drop (suc m) n zero (x ∷ xs) h = ground (arith, h)
drop-drop (suc m) n (suc k) (x ∷ xs) h = drop-drop m n k xs (omega (arith, h))

join-read_pieces :
    (left : ℕ) (source : Bytes) → length source ≤ left → join (read_pieces left source) ≡ source
unfolding read_pieces join
join-read_pieces zero [] h = refl
join-read_pieces zero (b ∷ bs) h = ground (arith, h)
join-read_pieces (suc left) [] h = refl
join-read_pieces (suc left) (b ∷ bs) h =
    ap (λ l. take piece_size (b ∷ bs) ++ l)
      (join-read_pieces left (drop piece_size (b ∷ bs))
        (omega (arith, h, length-drop-≤ 1048575 bs)))
    ∙ take-drop piece_size (b ∷ bs)

-- Two chains of steps that start alike.
bind_then :
    {E X Y Z : Type 0} (first : Result E X) (next : X → Result E Y) (last : Y → Result E Z)
    (steps : X → Result E Z)
    → ((x : X) → steps x ≡ (next x >>= last))
    → (first >>= steps) ≡ ((first >>= next) >>= last)
bind_then (err e) next last steps h = refl
bind_then (ok x) next last steps h = h x

-- The pieces are the whole file.
join-pieces_of : (source : Bytes) → join (pieces_of source) ≡ source
unfolding pieces_of
join-pieces_of source = join-read_pieces (length source) source (omega arith)

module _ (A : Aead) (streamed : IsStreamed A) (cipher : RecordingCipher)
    (sha256 : Bytes → String) where
  -- `encrypt_media_file` writes what `encrypt_media` returns, with its size and the digest of the
  -- plaintext, or has the same error.
  pub encrypt_media_file-encrypt_media :
      (nonce : Bytes) (recording_id : String) (source : Bytes)
      → encrypt_media_file A cipher sha256 nonce recording_id source ≡ (do
        payload ← encrypt_media A cipher nonce recording_id source
        ok (encrypted_file A cipher sha256 source payload))
  unfolding encrypt_media_file encrypt_media encrypt_with
  encrypt_media_file-encrypt_media nonce recording_id source =
      bind_then (key_of A cipher recording_id cipher.version) _ _ _ (λ key.
        bind_then (to_bytes cipher.version) _ _ _ (λ version.
          rw
            (
              streamed.seals key nonce (media_context cipher.version recording_id)
                  (pieces_of source),
              join-pieces_of source,
            )
            refl))

  pub encrypt_media_file-eq-ok :
      (nonce : Bytes) (recording_id : String) (source : Bytes) (written : EncryptedFile)
      → encrypt_media_file A cipher sha256 nonce recording_id source ≡ ok written
      → (encrypt_media A cipher nonce recording_id source ≡ ok written.content)
        × (written.size ≡ length written.content)
        × (written.sha256 ≡ sha256 source)
  encrypt_media_file-eq-ok nonce recording_id source written e =
      let (payload, made, same) =
        >>=-eq-ok (encrypt_media A cipher nonce recording_id source) _
          (sym (encrypt_media_file-encrypt_media nonce recording_id source) ∙ e) in
      let written_as : encrypted_file A cipher sha256 source payload ≡ written = ok-same same in
      subst
        (λ w.
          (encrypt_media A cipher nonce recording_id source ≡ ok w.content)
          × (w.size ≡ length w.content)
          × (w.sha256 ≡ sha256 source))
        written_as (made, refl, refl)

  open_pieces-open_sealed :
      (key : A.Key) (nonce payload : Bytes) (context : Context)
      → ltb (length payload) 39 ≡ false
      → open_pieces A key nonce
          (drop (length payload - 16) payload)
          context
          (pieces_of (take (length payload - 23 - 16) (drop 23 payload)))
        ≡ A.open_sealed key nonce (drop 23 payload) context
  open_pieces-open_sealed key nonce payload context long =
      let n = length payload - 23 - 16 in
      let tag = drop (length payload - 16) payload in
      let size : length tag ≡ 16 =
        ground (arith, long, length-drop (length payload - 16) payload (ground (arith, long))) in
      let at_tag : drop n (drop 23 payload) ≡ tag =
        drop-drop 23 n (length payload - 16) payload (ground (arith, long)) in
      let whole : take n (drop 23 payload) ++ tag ≡ drop 23 payload =
        ap (λ l. take n (drop 23 payload) ++ l) (sym at_tag) ∙ take-drop n (drop 23 payload) in
      streamed.opens key nonce tag context (pieces_of (take n (drop 23 payload))) size
      ∙ ap (λ l. A.open_sealed key nonce l context)
          (ap (λ l. l ++ tag) (join-pieces_of (take n (drop 23 payload))) ∙ whole)

  -- `decrypt_media_file` writes what `decrypt_media` returns, with the version that the payload names,
  -- the size and the digest, or has the same error.
  pub decrypt_media_file-decrypt_media :
      (recording_id : String) (payload : Bytes)
      → decrypt_media_file A cipher sha256 recording_id payload ≡ (do
        plaintext ← decrypt_media A cipher recording_id payload
        ok (decrypted_file A cipher sha256 (version_of A cipher payload) plaintext))
  unfolding decrypt_media_file decrypt_media decrypt_with
  decrypt_media_file-decrypt_media recording_id payload =
      elim (Bool-cases (ltb (length payload) 39)) [
        | inl short ↦ rw short refl
        | inr long ↦ elim (Bool-cases (starts_with payload media_magic)) [
          | inr other ↦ rw (long, other) refl
          | inl starts ↦
              rw (long, starts)
                (bind_then (key_of A cipher recording_id (version_of A cipher payload)) _ _ _
                  (λ key.
                    rw
                      (open_pieces-open_sealed key (take 12 (drop 11 payload)) payload
                        (media_context (version_of A cipher payload) recording_id) long)
                      refl))
        ]
      ]
