-- ===== src/Api/Lifecycle/Tests.antt =====
-- The acknowledgements along the run of one conversation.
use ivrdroid.Api.Tests.{env_at, empty_db, creations, completions}
use ivrdroid.Api.Lifecycle.{acknowledged_segment, acknowledged_recording}
use ivrdroid.Api.Lifecycle.Requests.{acknowledged_segment-serve, acknowledged_recording-serve}
use ivrdroid.Api.Handlers.{
  serve, Request, delete_request, cleanup_request, purge_request, complete_segment_request,
}
use ivrdroid.Api.{conversation, Env, Db}
use ivrdroid.Base.{◌≡◌, ◌∷◌, [], ◌++◌, List, some, true, false, refl}

-- Deletion, expiry, clean-up and a completion that comes again.
abbrev later : List (Env × Request)
later =
    (env_at 7, delete_request "r")
    ∷ (env_at 90000000000, purge_request (some 1))
    ∷ (env_at 90000000001, cleanup_request)
    ∷ (env_at 90000000002, complete_segment_request conversation "tablet" "r" 0)
    ∷ []

abbrev completed : Db
completed = serve (creations ++ completions) empty_db

not_acknowledged_before : acknowledged_segment "r" 0 (serve creations empty_db) ≡ false
unfolding acknowledged_segment serve
not_acknowledged_before = refl

acknowledged_segment-serve_example : acknowledged_segment "r" 0 (serve later completed) ≡ true
unfolding acknowledged_segment serve
acknowledged_segment-serve_example = acknowledged_segment-serve later completed "r" 0 refl

acknowledged_recording-serve_example : acknowledged_recording "r" (serve later completed) ≡ true
unfolding acknowledged_recording serve
acknowledged_recording-serve_example = acknowledged_recording-serve later completed "r" refl
