-- ===== src/Recordings/Cipher/Keys.antt =====
-- The constructor of `RecordingCipher`: the checks of the master keys.
use ivrdroid.Recordings.Cipher.{find_key, RecordingCipher}
use ivrdroid.Recordings.{Bytes}
use ivrdroid.Base.{
  refl, >>=-eq-ok, guard-eq-ok, subst, ℕ, ◌≡◌, ◌≤◌, List, [], ◌∷◌, Option, none, some, Bool, true,
  false, ◌||◌, not, ◌==◌, length, ltb, ok, err, Result, ◌>>=◌, ◌>>◌, guard, arith,
}

-- The messages of `RuntimeError`.
pub data KeyError : Type 0 where
  key_version_invalid previous_not_json previous_not_object : KeyError
  previous_key_invalid previous_version_invalid previous_version_duplicated : KeyError
  key_not_base64 key_wrong_length : KeyError

-- What `json.loads` makes of the previous keys. Of an entry, the version is `none` if `int` refuses
-- it, and 0 for a number below 1; the key is `none` if it is not base64.
pub data Previous : Type 0 where
  not_json not_object : Previous
  keys : List (Option ℕ × Option Bytes) → Previous

abbrev pub Checks : Type 0 → Type 0
Checks A = Result KeyError A

abbrev pub has_version : ℕ → List (ℕ × Bytes) → Bool
has_version v [] = false
has_version v ((w, _) ∷ rest) = (v == w) || has_version v rest

-- One entry of the previous keys, with the version of the new key and the keys so far.
unfoldable pub add_previous : ℕ → List (ℕ × Bytes) → ℕ → Bytes → Checks (List (ℕ × Bytes))
add_previous version master_keys previous_version previous_key = do
  guard
      (not (
        ltb previous_version 1
        || ((previous_version == version) || not (length previous_key == 32))))
      previous_version_invalid
  guard (not (has_version previous_version master_keys)) previous_version_duplicated
  ok ((previous_version, previous_key) ∷ master_keys)

-- The loop over the entries. The order of the list does not matter, since the versions differ.
unfoldable pub add_all :
    ℕ → List (ℕ × Bytes) → List (Option ℕ × Option Bytes) → Checks (List (ℕ × Bytes))
unfolding add_previous
add_all version master_keys [] = ok master_keys
add_all version master_keys ((some v, some key) ∷ rest) = do
  added ← add_previous version master_keys v key
  add_all version added rest
add_all version master_keys ((some v, none) ∷ rest) = err previous_key_invalid
add_all version master_keys ((none, key) ∷ rest) = err previous_key_invalid

abbrev pub decoded : Option Bytes → Checks Bytes
decoded none = err key_not_base64
decoded (some key) = ok key

abbrev pub entries_of : Previous → Checks (List (Option ℕ × Option Bytes))
entries_of not_json = err previous_not_json
entries_of not_object = err previous_not_object
entries_of (keys entries) = ok entries

-- `RecordingCipher(key_b64, version, previous_keys_json)`.
unfoldable pub new_cipher : Option Bytes → ℕ → Previous → Checks RecordingCipher
unfolding add_all
new_cipher key_b64 version previous = do
  guard (not (ltb version 1)) key_version_invalid
  entries ← entries_of previous
  master_keys ← add_all version [] entries
  key ← decoded key_b64
  guard (length key == 32) key_wrong_length
  ok (record { master_keys = (version, key) ∷ master_keys; version = version })

-- Keys of 32 bytes, each under a version of its own from 1 on.
abbrev pub AreKeys : List (ℕ × Bytes) → Type 0
AreKeys [] = Unit
AreKeys ((v, key) ∷ rest) =
    (1 ≤ v) × (length key ≡ 32) × (has_version v rest ≡ false) × AreKeys rest

add_previous-AreKeys :
    (version : ℕ) (master_keys : List (ℕ × Bytes)) (v : ℕ) (key : Bytes) (added : List (ℕ × Bytes))
    → AreKeys master_keys
    → has_version version master_keys ≡ false
    → add_previous version master_keys v key ≡ ok added
    → AreKeys added × (has_version version added ≡ false)
unfolding add_previous
add_previous-AreKeys version master_keys v key added h f e =
    let valid = not (ltb v 1 || ((v == version) || not (length key == 32))) in
    let is_new = not (has_version v master_keys) in
    let done : Checks (List (ℕ × Bytes)) = ok ((v, key) ∷ master_keys) in
    let (fits, e') =
      guard-eq-ok valid previous_version_invalid (guard is_new previous_version_duplicated >> done)
        e in
    let (fresh, e'') = guard-eq-ok is_new previous_version_duplicated done e' in
    let same : ((v, key) ∷ master_keys) ≡ added = cc in
    subst (λ l. AreKeys l × (has_version version l ≡ false)) same
      (
        (ground (arith, fits), ground (arith, fits), ground (arith, fresh), h),
        ground (arith, fits, f),
      )

add_all-AreKeys :
    (version : ℕ) (master_keys : List (ℕ × Bytes)) (entries : List (Option ℕ × Option Bytes))
    (result : List (ℕ × Bytes))
    → AreKeys master_keys
    → has_version version master_keys ≡ false
    → add_all version master_keys entries ≡ ok result
    → AreKeys result × (has_version version result ≡ false)
unfolding add_all add_previous
add_all-AreKeys version master_keys [] result h f e =
    let same : master_keys ≡ result = cc in
    subst (λ l. AreKeys l × (has_version version l ≡ false)) same (h, f)
add_all-AreKeys version master_keys ((some v, some key) ∷ rest) result h f e =
    let (added, made, e') = >>=-eq-ok (add_previous version master_keys v key) _ e in
    let (h', f') = add_previous-AreKeys version master_keys v key added h f made in
    add_all-AreKeys version added rest result h' f' e'
add_all-AreKeys version master_keys ((some v, none) ∷ rest) result h f e = cc
add_all-AreKeys version master_keys ((none, key) ∷ rest) result h f e = cc

-- A cipher that was constructed holds keys of 32 bytes under different versions from 1 on, and one of
-- them is the new key, under the version in which the cipher encrypts.
pub new_cipher-AreKeys :
    (key_b64 : Option Bytes) (version : ℕ) (previous : Previous) (cipher : RecordingCipher)
    → new_cipher key_b64 version previous ≡ ok cipher
    → AreKeys cipher.master_keys
      × (cipher.version ≡ version)
      × (find_key version cipher.master_keys ≡ key_b64)
      × (has_version version cipher.master_keys ≡ true)
unfolding new_cipher find_key
new_cipher-AreKeys none version previous cipher e =
    let (fits, e1) = guard-eq-ok (not (ltb version 1)) key_version_invalid _ e in
    let (entries, parsed, e2) = >>=-eq-ok (entries_of previous) _ e1 in
    let (master_keys, added, e3) = >>=-eq-ok (add_all version [] entries) _ e2 in cc
new_cipher-AreKeys (some key) version previous cipher e =
    let (fits, e1) = guard-eq-ok (not (ltb version 1)) key_version_invalid _ e in
    let (entries, parsed, e2) = >>=-eq-ok (entries_of previous) _ e1 in
    let (master_keys, added, e3) = >>=-eq-ok (add_all version [] entries) _ e2 in
    let (h, f) = add_all-AreKeys version [] entries master_keys tt refl added in
    let done : Checks RecordingCipher =
      ok (record { master_keys = (version, key) ∷ master_keys; version = version }) in
    let (size, e4) = guard-eq-ok (length key == 32) key_wrong_length done e3 in
    let made : RecordingCipher = record {
      master_keys = (version, key) ∷ master_keys;
      version = version;
    } in
    let same : made ≡ cipher = cc in
    subst
      (λ c.
        AreKeys c.master_keys
        × (c.version ≡ version)
        × (find_key version c.master_keys ≡ some key)
        × (has_version version c.master_keys ≡ true))
      same ((ground (arith, fits), ground (arith, size), f, h), refl, ground arith, ground arith)
