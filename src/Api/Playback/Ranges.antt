-- ===== src/Api/Playback/Ranges.antt =====
-- `_parse_range` of server/app/recording_api.py, and the part of `_audio_response` that answers for a
-- voicemail.
mod Laws
mod Tests
use ivrdroid.Recordings.{Bytes, take, drop}
use ivrdroid.Base.{
  ℕ, zero, suc, ◌+◌, ◌-◌, Option, none, some, Bool, true, false, ◌||◌, not, if◌then◌else◌, length,
  ltb, leb, Result, ok, err, guard, ◌>>=◌, ◌>>◌,
}

-- What `int` makes of one side of the first dash.
pub data Bound : Type 0 where
  blank malformed negative : Bound
  number : ℕ → Bound

-- The header `Range`: absent, not of the form `bytes=` or with a comma, one text without a dash, or the
-- two sides of the first dash. The first side has no sign.
pub data RangeHeader : Type 0 where
  absent unsupported : RangeHeader
  without_dash : Bound → RangeHeader
  bounds : Bound → Bound → RangeHeader

-- The first three have the status 416; the last is the `IndexError` of `bounds[1]`, which is not caught.
pub data RangeError : Type 0 where
  not_one_range invalid_range outside_recording index_error : RangeError

abbrev pub range_status : RangeError → ℕ
range_status index_error = 500
range_status _ = 416

abbrev pub Ranged : Type 0 → Type 0
Ranged A = Result RangeError A

-- `end`, which may be negative: then it lies before every start.
abbrev pub end_of : ℕ → Bound → Ranged (Option ℕ)
end_of size blank = ok (some (size - 1))
end_of size (number n) = ok (some n)
end_of size negative = ok none
end_of size malformed = err invalid_range

abbrev is_before : Option ℕ → ℕ → Bool
is_before none start = true
is_before (some end) start = ltb end start

abbrev clipped : Option ℕ → ℕ → ℕ
clipped none size = 0
clipped (some end) size = if ltb end (size - 1) then end else size - 1

-- The last test, and the range within the recording.
unfoldable pub within_recording : ℕ → ℕ → Option ℕ → Ranged (ℕ × ℕ)
within_recording size start end = do
  guard (not (leb size start || is_before end start)) outside_recording
  ok (start, clipped end size)

abbrev pub parsed : ℕ → Bound → Bound → Ranged (ℕ × ℕ)
parsed size blank (number zero) = err invalid_range
parsed size blank (number (suc n)) = within_recording size (size - suc n) (some (size - 1))
parsed size blank _ = err invalid_range
parsed size (number start) last = do end ← end_of size last; within_recording size start end
parsed size _ _ = err invalid_range

-- `_parse_range`.
unfoldable pub parse_range : RangeHeader → ℕ → Ranged (Option (ℕ × ℕ))
unfolding within_recording
parse_range absent size = ok none
parse_range unsupported size = err not_one_range
parse_range (without_dash malformed) size = err invalid_range
parse_range (without_dash _) size = err index_error
parse_range (bounds first last) size = do range ← parsed size first last; ok (some range)

pub record AudioResponse : Type 0 where
  pub status_code : ℕ
  pub content : Bytes
  pub content_range : Option (ℕ × ℕ)

-- `media[start : end + 1]`.
abbrev pub selected : Bytes → Option (ℕ × ℕ) → AudioResponse
selected media none = record { status_code = 200; content = media; content_range = none }
selected media (some (start, end)) = record {
  status_code = 206;
  content = take (end + 1 - start) (drop start media);
  content_range = some (start, end);
}

-- The answer with the media of a voicemail.
unfoldable pub audio_response : RangeHeader → Bytes → Ranged AudioResponse
unfolding parse_range
audio_response header media = do
  range ← parse_range header (length media)
  ok (selected media range)
