-- ===== src/Api/Retry/Tests.antt =====
-- Creations of a segment that are sent twice.
use ivrdroid.Api.{conversation, Db, Segment, metadata_reused}
use ivrdroid.Api.Content.{verify_segment, complete_segment, verified_segment}
use ivrdroid.Api.Tests.{env_at, empty_db, segment_of_call}
use ivrdroid.Api.Playback.Tests.{received, waiting}
use ivrdroid.Api.Segments.{new_segment, create_segment, segment_response}
use ivrdroid.Api.Retry.{WavDetails, create_segment-create_segment}
use ivrdroid.Api.Retry.Completed.{create_segment-complete_segment}
use ivrdroid.Base.{◌≡◌, ◌∷◌, [], ok, err, refl, if◌then◌else◌, ◌==◌}

abbrev ready_for_segments : Db
ready_for_segments = record empty_db { recordings = waiting conversation ∷ [] }

abbrev created : Segment
created = new_segment (env_at 2) segment_of_call (waiting conversation)

abbrev with_segment : Db
with_segment = record ready_for_segments { segments = created ∷ [] }

create_segment-create_segment_example :
    create_segment (env_at 3) "tablet" "r" 0 segment_of_call with_segment
    ≡ ok (with_segment, segment_response created)
unfolding create_segment
create_segment-create_segment_example =
    create_segment-create_segment (env_at 2) (env_at 3) "tablet" "r" 0 segment_of_call
      ready_for_segments with_segment (segment_response created) refl

-- The segment once its file is uploaded. The declared duration is two milliseconds, the measured one is
-- one.
abbrev sent : Segment
sent = record created { upload = received }

abbrev with_content : Db
with_content = record ready_for_segments { segments = sent ∷ [] }

abbrev completed : Segment
completed = verified_segment (env_at 4) sent (record { duration_ms = 1; frames = 48 })

abbrev with_completed : Db
with_completed = record ready_for_segments { segments = completed ∷ [] }

create_segment-complete_segment_example :
    (details : WavDetails) × (verify_segment (env_at 4) (waiting conversation) sent ≡ ok details)
    × (create_segment (env_at 5) "tablet" "r" 0 segment_of_call with_completed ≡ (
        if details.duration_ms == 2
        then ok (with_completed, segment_response completed)
        else err metadata_reused))
unfolding create_segment complete_segment
create_segment-complete_segment_example =
    create_segment-complete_segment (env_at 3) (env_at 4) (env_at 5) "tablet" "r" 0 segment_of_call
      with_content with_content with_completed (waiting conversation) sent (segment_response sent)
      (segment_response completed) refl refl refl refl refl

-- So the same creation is refused after the completion.
create_segment_after_completion :
    create_segment (env_at 5) "tablet" "r" 0 segment_of_call with_completed ≡ err metadata_reused
unfolding create_segment
create_segment_after_completion = refl
