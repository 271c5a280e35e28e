-- ===== src/Api/Playback/Stored.antt =====
-- What is stored when a recording is completed is what is played.
use ivrdroid.Recordings.{same_bytes}
use ivrdroid.Recordings.Upload.{require_safe_file}
use ivrdroid.Api.Quota.{recording_used_bytes}
use ivrdroid.Recordings.Upload.{written_stat, read_uploaded_wav}
use ivrdroid.Api.Voicemail.{final_recording, finalize_recording}
use ivrdroid.Recordings.Cipher.{encrypt_media, find_key}
use ivrdroid.Recordings.Audio.{failure, inspect_caller_wav, failure, transcode_voicemail}
use ivrdroid.Api.Capacity.Assembly.{IsSound}
use ivrdroid.Api.{◌∷◌, File, Media, Db, ready, Upload, Recording, Bytes, RecordingCipher, Env}
use ivrdroid.Recordings.{quota_full, policy_unavailable}
use ivrdroid.Recordings.Cipher.Laws.{
  drop-length, take-length, decrypt_media-encrypt_media, media_version-encrypt_media,
}
use ivrdroid.Api.Playback.{
  are_hex, is_media_name, is_nonempty, media_path, ready_media, rec_suffix, load_media,
}
use ivrdroid.Base.{
  length-append, [], ◌++◌, ◌≡◌, ℕ, String, none, some, true, not, length, ok, arith, refl, subst,
  ltb, ◌==◌, ◌&&◌, ◌+◌, str_eq, eq_refl, guard-eq-ok, >>=-eq-ok, ok-same,
}

eq_self : (n : ℕ) → (n == n) ≡ true
eq_self n = ground arith

same_digest : (s t : String) → s ≡ t → not (not (str_eq t "") && not (str_eq s t)) ≡ true
same_digest s t e = let equal : str_eq s t ≡ true = rw e (eq_refl t) in ground (arith, equal)

-- The text of `uuid4().hex` has 32 hexadecimal digits.
pub record IsNamed (env : Env) : Type 0 where
  pub size : length env.uuid_hex ≡ 32
  pub hex : are_hex env.uuid_hex ≡ true

is_nonempty-append : (xs ys : Bytes) → is_nonempty ys ≡ true → is_nonempty (xs ++ ys) ≡ true
is_nonempty-append [] ys h = h
is_nonempty-append (x ∷ xs) ys h = refl

is_media_name-append :
    (hex : Bytes) → length hex ≡ 32 → are_hex hex ≡ true → is_media_name (hex ++ rec_suffix) ≡ true
unfolding is_media_name same_bytes
is_media_name-append hex size digits =
    let long : (length (hex ++ rec_suffix) == 36) ≡ true =
      ground (arith, length-append hex rec_suffix, size) in
    rw (long, take-length 32 hex rec_suffix size, drop-length 32 hex rec_suffix size, digits) refl

module _ (env : Env) (sound : IsSound env) (named : IsNamed env) (cipher' : RecordingCipher)
    (kept : find_key env.cipher.version cipher'.master_keys
      ≡ find_key env.cipher.version env.cipher.master_keys) where
  abbrev file_of : Bytes → File
  file_of payload = record { stat = written_stat; payload = payload }

  -- The media columns and the file of a medium that was stored.
  abbrev stored_media : Bytes → Bytes → Media
  stored_media encoded payload = record {
    key_version = env.cipher.version;
    size_bytes = length payload;
    sha256 = env.sha256 encoded;
    storage_name = env.uuid_hex ++ rec_suffix;
    file = some (file_of payload);
  }

  ready_media-stored :
      (encoded payload : Bytes)
      → ready_media ready (some (stored_media encoded payload)) ≡ ok (stored_media encoded payload)
  ready_media-stored encoded payload = rw (is_nonempty-append env.uuid_hex rec_suffix refl) refl

  media_path-stored :
      (encoded payload : Bytes) → media_path (stored_media encoded payload) ≡ ok (file_of payload)
  unfolding media_path require_safe_file
  media_path-stored encoded payload =
      rw (is_media_name-append env.uuid_hex named.size named.hex) refl

  load_media-encrypt_media :
      (r : Recording) (encoded payload : Bytes)
      → encrypt_media env.aead env.cipher env.nonce r.id encoded ≡ ok payload
      → r.status ≡ ready
      → r.media ≡ some (stored_media encoded payload)
      → load_media env.aead cipher' env.sha256 r ≡ ok encoded
  unfolding load_media
  load_media-encrypt_media r encoded payload made is_ready media =
      let version =
        media_version-encrypt_media env.aead sound.lawful env.cipher env.nonce r.id encoded payload
          sound.nonce_size made in
      let plain =
        decrypt_media-encrypt_media env.aead sound.lawful env.cipher cipher' kept env.nonce r.id
          encoded payload sound.nonce_size made in
      rw
        (
          is_ready,
          media,
          is_nonempty-append env.uuid_hex rec_suffix refl,
          media_path-stored encoded payload,
          eq_self (length payload),
          version,
          eq_self env.cipher.version,
          plain,
          same_digest (env.sha256 encoded) (env.sha256 encoded) refl,
        )
        refl

  -- The row of a finalized voicemail is loaded as the encoder's output on the uploaded audio, also by a
  -- cipher object of a later version that has kept the master key. The name of the stored file is made of
  -- 32 hexadecimal digits.
  pub load_media-finalize_recording :
      (r : Recording) (upload : Upload) (db : Db) (final : Recording)
      → finalize_recording env r upload db ≡ ok final
      → (source : Bytes) × (encoded : Bytes) × (read_uploaded_wav env.aead env.cipher r.id
            env.sha256 upload
          ≡ ok source)
        × (transcode_voicemail env.tools source ≡ ok encoded)
        × (load_media env.aead cipher' env.sha256 final ≡ ok encoded)
  unfolding finalize_recording
  load_media-finalize_recording r upload db final e =
      let (source, f1, g1) =
        >>=-eq-ok (read_uploaded_wav env.aead env.cipher r.id env.sha256 upload) _ e in
      let (details, f2, g2) = >>=-eq-ok (inspect_caller_wav env.tools source r.duration_ms) _ g1 in
      let (encoded, f3, g3) = >>=-eq-ok (transcode_voicemail env.tools source) _ g2 in
      let (encrypted, f4, g4) =
        >>=-eq-ok (encrypt_media env.aead env.cipher env.nonce r.id encoded) _ g3 in
      let (f5, g5) = guard-eq-ok env.has_policy policy_unavailable _ g4 in
      let (f6, g6) =
        guard-eq-ok
          (not (
            ltb env.settings.recording_quota_bytes
              (recording_used_bytes (some r.id) none db + length encrypted)))
          quota_full _ g5 in
      let row = final_recording env r details encoded encrypted in
      (
        source,
        encoded,
        f1,
        f3,
        subst (λ q. load_media env.aead cipher' env.sha256 q ≡ ok encoded) (ok-same g6)
            (load_media-encrypt_media row encoded encrypted f4 refl refl),
      )
