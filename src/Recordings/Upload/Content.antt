-- ===== src/Recordings/Upload/Content.antt =====
-- The abstract view of an upload: the bytes that its chunk files hold, one behind the other.
use ivrdroid.Recordings.Upload.{read_chunk, find_file, File, Upload}
use ivrdroid.Recordings.Cipher.{RecordingCipher, Aead}
use ivrdroid.Recordings.{is_nonempty, Bytes}
use ivrdroid.Base.{
  inr, ok-same, inl, Bool-cases, false, ◌==◌, ℕ, ◌+◌, ◌≡◌, ◌≤◌, ◌<◌, String, List, [], ◌∷◌, ◌++◌,
  some, true, length, length-append, ok, arith, refl, append_assoc, append-nil, sym, ◌∙◌, ap,
}

module _ (A : Aead) (cipher : RecordingCipher) (identity : String) (files : List (ℕ × File)) where
  -- From offset `a` up to `b` the chunks hold `content`.
  pub data Holds : ℕ → ℕ → Bytes → Type 0 where
    done : {a b : ℕ} {content : Bytes} → a ≡ b → content ≡ [] → Holds a b content
    chunk :
        {a b : ℕ} {content : Bytes} (f : File) (p rest : Bytes)
        → find_file a files ≡ some f
        → read_chunk A cipher identity a f ≡ ok p
        → is_nonempty p ≡ true
        → Holds (a + length p) b rest
        → content ≡ p ++ rest
        → Holds a b content

  pub Holds-length : {a b : ℕ} {content : Bytes} → Holds a b content → a + length content ≡ b
  Holds-length (done e none_left) = omega (arith, e, ap (λ (l : Bytes). length l) none_left)
  Holds-length (chunk f p rest found reads nonempty h e) =
      omega (arith, Holds-length h, ap (λ (l : Bytes). length l) e, length-append p rest)

  -- One more chunk at the end.
  pub Holds-snoc :
      {a b : ℕ} {content : Bytes} (f : File) (q : Bytes)
      → Holds a b content
      → find_file b files ≡ some f
      → read_chunk A cipher identity b f ≡ ok q
      → is_nonempty q ≡ true
      → Holds a (b + length q) (content ++ q)
  Holds-snoc {a} {b} {content} f q (done e none_left) found reads nonempty =
      chunk f q [] (rw e found) (rw e reads) nonempty (done (rw e refl) refl)
        (rw none_left (sym (append-nil q)))
  Holds-snoc {a} {b} {content} f q (chunk g p rest found' reads' nonempty' h e) found reads
        nonempty =
      chunk g p (rest ++ q) found' reads' nonempty' (Holds-snoc f q h found reads nonempty)
        (rw e (append_assoc p rest q))

pub nonempty-lt : (p : Bytes) → is_nonempty p ≡ true → 0 < length p
nonempty-lt [] h = cc
nonempty-lt (x ∷ xs) h = omega arith

module _ (A : Aead) (cipher : RecordingCipher) (identity : String)
    (files files' : List (ℕ × File)) where
  -- Files that agree below the end hold the same bytes.
  pub Holds-files :
      {a b : ℕ} {content : Bytes}
      → ((k : ℕ) → k < b → find_file k files' ≡ find_file k files)
      → Holds A cipher identity files a b content
      → Holds A cipher identity files' a b content
  Holds-files same (done e none_left) = done e none_left
  Holds-files {a} same (chunk f p rest found reads nonempty h e) =
      chunk f p rest
        (same a (omega (arith, nonempty-lt p nonempty, Holds-length A cipher identity files h))
          ∙ found)
        reads nonempty (Holds-files same h) e

-- An upload holds `content`: all that was received, and not more than was declared.
pub record Stores (A : Aead) (cipher : RecordingCipher) (identity : String) (up : Upload)
    (content : Bytes) : Type 0 where
  pub held : Holds A cipher identity up.files 0 up.upload_offset content
  pub bounded : up.upload_offset ≤ up.expected_size_bytes

-- `part` stands in `content` at an offset.
pub record IsAt (offset : ℕ) (part content : Bytes) : Type 0 where
  pub before : Bytes
  pub behind : Bytes
  pub split : before ++ (part ++ behind) ≡ content
  pub starts : length before ≡ offset

-- The chunk files of an upload are parts of its content, each at the offset that names it, but for a
-- file at the end that a crash may have left.
pub record Places (A : Aead) (cipher : RecordingCipher) (identity : String) (up : Upload)
    (content : Bytes) : Type 0 where
  pub placed :
      (k : ℕ) (f : File) (p : Bytes)
      → find_file k up.files ≡ some f
      → k < up.upload_offset
      → read_chunk A cipher identity k f ≡ ok p
      → IsAt k p content
  pub last : (k : ℕ) (f : File) → find_file k up.files ≡ some f → k ≤ up.upload_offset

IsAt-append :
    (offset : ℕ) (part content more : Bytes)
    → IsAt offset part content
    → IsAt offset part (content ++ more)
IsAt-append offset part content more h = record {
  before = h.before;
  behind = h.behind ++ more;
  split =
      ap (λ l. h.before ++ l) (sym (append_assoc part h.behind more))
      ∙ (sym (append_assoc h.before (part ++ h.behind) more) ∙ ap (λ l. l ++ more) h.split);
  starts = h.starts;
}

pub some_same : {f g : File} → some f ≡ some g → f ≡ g
some_same e = cc

below : (k n : ℕ) → k ≤ n → (k == n) ≡ false → k < n
below k n h d = ground (arith, h, d)

module _ (A : Aead) (cipher : RecordingCipher) (identity : String) where
  pub Places-snoc :
      (up up' : Upload) (content q : Bytes) (g : File) {offset : ℕ}
      → offset ≡ up.upload_offset
      → up'.upload_offset ≡ offset + length q
      → length content ≡ offset
      → find_file offset up'.files ≡ some g
      → read_chunk A cipher identity offset g ≡ ok q
      → ((k : ℕ) → (k == offset) ≡ false → find_file k up'.files ≡ find_file k up.files)
      → Places A cipher identity up content
      → Places A cipher identity up' (content ++ q)
  Places-snoc up up' content q g {offset} at_end moved size found reads others p = record {
    placed = λ k f r there before reading. elim (Bool-cases (k == offset)) [
      | inl here ↦
          (let same : k ≡ offset = ground (arith, here) in
            let same_file : some f ≡ some g =
              sym there ∙ (ap (λ i. find_file i up'.files) same ∙ found) in
            let equal : f ≡ g = some_same same_file in
            let values : ok r ≡ ok q =
              sym reading
              ∙ (ap (λ i. read_chunk A cipher identity i f) same
                  ∙ (ap (λ h. read_chunk A cipher identity offset h) equal ∙ reads)) in
            let bytes : r ≡ q = ok-same values in
            record {
              before = content;
              behind = [];
              split = ap (λ l. content ++ l) (append-nil r ∙ bytes);
              starts = size ∙ sym same;
            })
      | inr other ↦
          (let old = sym (others k other) ∙ there in
            IsAt-append k r content q (
              p.placed k f r old (below k up.upload_offset (p.last k f old) (rw (← at_end) other))
                reading))
    ];
    last = λ k f there. elim (Bool-cases (k == offset)) [
      | inl here ↦ ground (arith, here, moved)
      | inr other ↦ omega (arith, p.last k f (sym (others k other) ∙ there), at_end, moved)
    ];
  }
