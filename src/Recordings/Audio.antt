-- ===== src/Recordings/Audio.antt =====
-- The checks of WAV audio and of encoded audio in server/app/recording_service.py: `inspect_pcm_wav_path`,
-- `inspect_caller_wav`, `_voicemail_filter` and `transcode_voicemail`, over the library's WAV reader and
-- encoder.
use ivrdroid.Recordings.{
  duration_mismatch, duration_outside, header_unreadable, length_header_mismatch, wrong_format,
  audio_truncated, conversion_failed, conversion_unavailable, not_pcm, not_riff, not_wav, Bytes,
  RecordingError, same_bytes, take, drop,
}
use ivrdroid.Recordings.Cipher.{Out}
use ivrdroid.Base.{
  ℕ, zero, suc, ◌+◌, ◌*◌, ◌-◌, [], ◌∷◌, ◌++◌, Option, none, some, Bool, false, ◌&&◌, ◌||◌, not,
  if◌then◌else◌, ◌==◌, length, ltb, leb, ok, err, ◌>>=◌, ◌>>◌, guard,
}
use Prim.Native.Nat.{◌/◌, ◌%◌}

-- What `wave.open` returns: the header, and the bytes from which `readframes` reads.
pub record Wave : Type 0 where
  pub is_pcm : Bool
  pub channels : ℕ
  pub sample_width : ℕ
  pub frame_rate : ℕ
  pub frames : ℕ
  pub data_bytes : Bytes

-- `wave.open` may refuse a file; ffmpeg may be missing or late, or fail, or return its output.
pub data Encoded : Type 0 where
  unavailable failure : Encoded
  output : Bytes → Encoded

pub record Tools : Type 0 where
  pub open_wave : Bytes → Option Wave
  pub encode_voicemail : Bool → Bytes → Encoded
  pub encode_conversation : Bytes → Encoded

pub record WavDetails : Type 0 where
  pub duration_ms : ℕ
  pub frames : ℕ

abbrev pub riff : Bytes
riff = 82 ∷ 73 ∷ 70 ∷ 70 ∷ []

abbrev pub wave_tag : Bytes
wave_tag = 87 ∷ 65 ∷ 86 ∷ 69 ∷ []

-- `struct.unpack("<I", …)` of the four bytes behind the first four.
unfoldable pub little_endian : Bytes → ℕ
little_endian [] = 0
little_endian (b ∷ bs) = b + 256 * little_endian bs

abbrev pub declared_length : Bytes → ℕ
declared_length source = little_endian (take 4 (drop 4 source))

-- `round(frames * 1000 / 48_000)`: a half is rounded to the even number.
unfoldable pub duration_of : ℕ → ℕ
duration_of frames =
    let whole = frames / 48 in
    let rest = frames % 48 in
    if ltb rest 24 || ((rest == 24) && (whole % 2 == 0)) then whole else whole + 1

-- The loops that read `remaining` frames of four bytes, 48,000 at a time. Each round takes fuel.
unfoldable pub read_frames : RecordingError → ℕ → ℕ → Bytes → Out Bytes
read_frames truncated zero remaining source = ok []
read_frames truncated (suc fuel) zero source = ok []
read_frames truncated (suc fuel) (suc more) source = do
  let count = (if ltb (suc more) 48000 then suc more else 48000)
  let frames = take (count * 4) source
  guard (length frames == count * 4) truncated
  rest ← read_frames truncated fuel (suc more - count) (drop (count * 4) source)
  ok (frames ++ rest)

abbrev distance : ℕ → ℕ → ℕ
distance a b = (a - b) + (b - a)

abbrev pub opened : Option Wave → Out Wave
opened none = err not_wav
opened (some wave) = ok wave

-- What both inspections test of the opened audio; each reads the frames in its own way.
unfoldable pub inspect_wave : (Wave → Out Bytes) → Option Wave → ℕ → Out WavDetails
unfolding duration_of
inspect_wave read file expected_duration_ms = do
  wave ← opened file
  guard wave.is_pcm not_pcm
  guard
      (not (
        not (wave.channels == 2)
        || (not (wave.sample_width == 2) || not (wave.frame_rate == 48000))))
      wrong_format
  let duration_ms = duration_of wave.frames
  frames ← read wave
  guard (not (leb duration_ms 0 || ltb 180000 duration_ms)) duration_outside
  guard (not (ltb 100 (distance duration_ms expected_duration_ms))) duration_mismatch
  ok (record { duration_ms = duration_ms; frames = wave.frames })

unfoldable pub read_all_frames : Wave → Out Bytes
unfolding read_frames
read_all_frames wave = read_frames audio_truncated wave.frames wave.frames wave.data_bytes

unfoldable pub read_once : Wave → Out Bytes
read_once wave = do
  let frames = take (wave.frames * 4) wave.data_bytes
  guard (length frames == wave.frames * 4) audio_truncated
  ok frames

abbrev any_nonzero : Bytes → Bool
any_nonzero [] = false
any_nonzero (b ∷ bs) = not (b == 0) || any_nonzero bs

-- `_voicemail_filter`: whether the filter for audible audio is taken.
unfoldable pub voicemail_filter : Wave → Bool
voicemail_filter wave =
    if ltb wave.frames 24000 then false else any_nonzero (take (wave.frames * 4) wave.data_bytes)

-- `ID3`, or a byte 255.
unfoldable pub is_media : Bytes → Bool
unfolding same_bytes
is_media media =
    same_bytes (take 3 media) (73 ∷ 68 ∷ 51 ∷ []) || same_bytes (take 1 media) (255 ∷ [])

abbrev pub converted : RecordingError → Encoded → Out Bytes
converted invalid unavailable = err conversion_unavailable
converted invalid failure = err conversion_failed
converted invalid (output media) = do guard (is_media media) invalid; ok media

module _ (tools : Tools) where
  -- The file was written a moment before, so that it is a safe file.
  unfoldable pub inspect_pcm_wav_path : Bytes → ℕ → Out WavDetails
  unfolding inspect_wave read_all_frames same_bytes little_endian
  inspect_pcm_wav_path source expected_duration_ms = do
    guard (same_bytes (take 4 source) riff) not_riff
    guard (not (ltb (length source) 8)) header_unreadable
    guard
        (not (
          not (same_bytes (take 4 (drop 8 source)) wave_tag)
          || not (declared_length source + 8 == length source)))
        length_header_mismatch
    inspect_wave read_all_frames (tools.open_wave source) expected_duration_ms

  unfoldable pub inspect_caller_wav : Bytes → ℕ → Out WavDetails
  unfolding inspect_wave read_once same_bytes little_endian
  inspect_caller_wav source expected_duration_ms = do
    guard
        (not (
          ltb (length source) 44
          || (not (same_bytes (take 4 source) riff)
              || not (same_bytes (take 4 (drop 8 source)) wave_tag))))
        not_riff
    guard (declared_length source + 8 == length source) length_header_mismatch
    inspect_wave read_once (tools.open_wave source) expected_duration_ms

  unfoldable pub transcode_voicemail : Bytes → Out Bytes
  unfolding voicemail_filter is_media
  transcode_voicemail source = do
    wave ← opened (tools.open_wave source)
    converted conversion_failed (tools.encode_voicemail (voicemail_filter wave) source)
