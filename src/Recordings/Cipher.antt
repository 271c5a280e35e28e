-- ===== src/Recordings/Cipher.antt =====
-- `RecordingCipher` of server/app/recording_service.py: the layout of encrypted chunks and media, over
-- any authenticated cipher.
pub mod Laws
pub mod Keys
pub mod Files
use ivrdroid.Recordings.{
  chunk_unauthentic, drop, media_unauthentic, chunk_malformed, media_malformed, take,
  version_overflow, Bytes, RecordingError, key_version_unavailable, same_bytes,
}
use ivrdroid.Base.{
  ◌≡◌, ℕ, zero, suc, ◌+◌, ◌*◌, String, List, [], ◌∷◌, ◌++◌, Option, none, some, Bool, true, false,
  ◌&&◌, ◌||◌, not, if◌then◌else◌, ◌==◌, length, ltb, ok, err, Result, ◌>>=◌, ◌>>◌, guard,
}
use Prim.Native.Nat.{◌/◌, ◌%◌, ◌^◌}

-- The texts that are authenticated with a chunk or a medium.
pub data Context : Type 0 where
  upload_context : ℕ → String → ℕ → Context
  media_context : ℕ → String → Context

-- AES-GCM, and the key that HKDF derives for a recording. A ciphertext ends with its tag. The fields from
-- `Stream` on are the incremental interface to the same cipher: an encryptor ends with the last bytes
-- and the tag, a decryptor is given the tag and ends with the last bytes unless the tag is wrong.
pub record Aead : Type 1 where
  pub Key : Type 0
  pub derive : Bytes → String → Key
  pub seal : Key → Bytes → Bytes → Context → Bytes
  pub open_sealed : Key → Bytes → Bytes → Context → Option Bytes
  pub Stream : Type 0
  pub encryptor : Key → Bytes → Context → Stream
  pub decryptor : Key → Bytes → Bytes → Context → Stream
  pub update : Stream → Bytes → Stream × Bytes
  pub finalize_encryptor : Stream → Bytes × Bytes
  pub finalize_decryptor : Stream → Option Bytes

pub record IsLawful (A : Aead) : Type 0 where
  pub opens :
      (k : A.Key) (nonce plaintext : Bytes) (c : Context)
      → A.open_sealed k nonce (A.seal k nonce plaintext c) c ≡ some plaintext
  pub tagged :
      (k : A.Key) (nonce plaintext : Bytes) (c : Context)
      → length (A.seal k nonce plaintext c) ≡ length plaintext + 16

-- `_master_keys` and `version`.
pub record RecordingCipher : Type 0 where
  pub master_keys : List (ℕ × Bytes)
  pub version : ℕ

unfoldable pub find_key : ℕ → List (ℕ × Bytes) → Option Bytes
find_key v [] = none
find_key v ((w, key) ∷ keys) = if v == w then some key else find_key v keys

abbrev pub Out : Type 0 → Type 0
Out A = Result RecordingError A

-- `IVRUP1\0` and `IVREC1\0`.
abbrev pub upload_magic : Bytes
upload_magic = 73 ∷ 86 ∷ 82 ∷ 85 ∷ 80 ∷ 49 ∷ 0 ∷ []

abbrev pub media_magic : Bytes
media_magic = 73 ∷ 86 ∷ 82 ∷ 69 ∷ 67 ∷ 49 ∷ 0 ∷ []

-- `version.to_bytes(4, "big")`.
unfoldable pub to_bytes : ℕ → Out Bytes
to_bytes v =
    if ltb v (2 ^ 32)
    then ok (v / 2 ^ 24 ∷ v / 2 ^ 16 % 256 ∷ v / 2 ^ 8 % 256 ∷ v % 256 ∷ [])
    else err version_overflow

-- `int.from_bytes(data, "big")`.
unfoldable pub from_bytes : ℕ → Bytes → ℕ
from_bytes n [] = n
from_bytes n (b ∷ bs) = from_bytes (n * 256 + b) bs

abbrev pub starts_with : Bytes → Bytes → Bool
starts_with payload magic = same_bytes (take (length magic) payload) magic

module _ (A : Aead) (cipher : RecordingCipher) where
  -- `_key`.
  unfoldable pub key_of : String → ℕ → Out A.Key
  unfolding find_key
  key_of recording_id version = elim (find_key version cipher.master_keys) [
    | none ↦ err key_version_unavailable
    | some master_key ↦ ok (A.derive master_key recording_id)
  ]

  -- What `encrypt_chunk` and `encrypt_media` have in common; the nonce is random.
  unfoldable pub encrypt_with : Bytes → Bytes → String → Bytes → Context → Out Bytes
  unfolding key_of to_bytes
  encrypt_with magic nonce recording_id plaintext context = do
    key ← key_of recording_id cipher.version
    version ← to_bytes cipher.version
    ok (magic ++ (version ++ (nonce ++ A.seal key nonce plaintext context)))

  unfoldable pub encrypt_chunk : Bytes → String → ℕ → Bytes → Out Bytes
  unfolding encrypt_with
  encrypt_chunk nonce recording_id offset plaintext =
      encrypt_with upload_magic nonce recording_id plaintext
        (upload_context cipher.version recording_id offset)

  unfoldable pub encrypt_media : Bytes → String → Bytes → Out Bytes
  unfolding encrypt_with
  encrypt_media nonce recording_id plaintext =
      encrypt_with media_magic nonce recording_id plaintext
        (media_context cipher.version recording_id)

  -- The version, the nonce and the ciphertext of a payload.
  abbrev pub version_of : Bytes → ℕ
  version_of payload = from_bytes 0 (take 4 (drop 7 payload))

  abbrev pub authentic : RecordingError → Option Bytes → Out Bytes
  authentic unauthentic none = err unauthentic
  authentic unauthentic (some plaintext) = ok plaintext

  -- What `decrypt_chunk` and `decrypt_media` have in common. Both prefixes have 7 bytes.
  unfoldable pub decrypt_with :
      Bytes → RecordingError → RecordingError → (ℕ → Context) → String → Bytes → Out Bytes
  unfolding key_of from_bytes same_bytes
  decrypt_with magic malformed unauthentic context recording_id payload = do
    guard (not (ltb (length payload) 39 || not (starts_with payload magic))) malformed
    let version = version_of payload
    key ← key_of recording_id version
    authentic unauthentic
        (A.open_sealed key (take 12 (drop 11 payload)) (drop 23 payload) (context version))

  unfoldable pub decrypt_chunk : String → ℕ → Bytes → Out Bytes
  unfolding decrypt_with
  decrypt_chunk recording_id offset payload =
      decrypt_with upload_magic chunk_malformed chunk_unauthentic
        (λ version. upload_context version recording_id offset) recording_id payload

  unfoldable pub decrypt_media : String → Bytes → Out Bytes
  unfolding decrypt_with
  decrypt_media recording_id payload =
      decrypt_with media_magic media_malformed media_unauthentic
        (λ version. media_context version recording_id) recording_id payload

-- `media_version`.
unfoldable pub media_version : Bytes → Out ℕ
unfolding from_bytes same_bytes
media_version payload =
    if ltb (length payload) 11 || not (starts_with payload media_magic)
    then err media_malformed
    else ok (from_bytes 0 (take 4 (drop 7 payload)))
