-- ===== src/Api/Playback/Ranges/Tests.antt =====
-- Ranges of a medium of four bytes.
use ivrdroid.Api.Playback.Ranges.Laws.{audio_response-IsPart, IsPart}
use ivrdroid.Api.Playback.Ranges.{
  Bytes, audio_response, AudioResponse, blank, number, bounds, without_dash, index_error,
  outside_recording,
}
use ivrdroid.Base.{ℕ, ◌≡◌, ◌⊎◌, ◌∷◌, [], some, err, refl}

abbrev media : Bytes
media = 10 ∷ 11 ∷ 12 ∷ 13 ∷ []

abbrev last_two : AudioResponse
last_two = record { status_code = 206; content = 12 ∷ 13 ∷ []; content_range = some (2, 3) }

audio_response-IsPart_example :
    ((last_two.status_code ≡ 200) × (last_two.content ≡ media))
    ⊎ ((range : ℕ × ℕ) × (last_two.status_code ≡ 206)
        × (last_two.content_range ≡ some range)
        × IsPart media range last_two.content)
unfolding audio_response
audio_response-IsPart_example = audio_response-IsPart (bounds blank (number 2)) media last_two refl

range_behind_the_end : audio_response (bounds (number 4) blank) media ≡ err outside_recording
unfolding audio_response
range_behind_the_end = refl

range_without_dash : audio_response (without_dash (number 5)) media ≡ err index_error
unfolding audio_response
range_without_dash = refl
