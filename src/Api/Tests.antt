-- ===== src/Api/Tests.antt =====
-- Runs of the handlers: one conversation of one segment, from its creation to the assembled recording.
use ivrdroid.Api.Content.{declared}
use ivrdroid.Recordings.{Bytes}
use ivrdroid.Api.Segments.{conversation_receipt, SegmentRequest}
use ivrdroid.Recordings.Audio.{output, Tools}
use ivrdroid.Api.{suc, conversation, Call, Db, Env, Revision}
use ivrdroid.Api.Capacity.Assembly.{IsSound}
use ivrdroid.Recordings.Tests.{toy, toy-IsLawful, toy-IsStreamed, old_cipher, nonce}
use ivrdroid.Api.Capacity.Requests.{recording_used_bytes-serve, IsServed}
use ivrdroid.Api.Handlers.{
  cleanup_request, complete_recording_request, upload_segment_request, create_segment_request,
  complete_segment_request, create_conversation_request, serve, Request,
}
use ivrdroid.Api.Quota.{recording_used_bytes}
use ivrdroid.Base.{zero, ℕ, ◌≤◌, ◌≡◌, ◌∷◌, [], ◌++◌, List, none, some, true, false, refl, arith}

abbrev pub zeros : ℕ → Bytes
zeros zero = []
zeros (suc n) = 0 ∷ zeros n

-- A file of 45 bytes, of which the toy reader makes 48 silent frames, a millisecond.
abbrev pub source : Bytes
source = 82 ∷ 73 ∷ 70 ∷ 70 ∷ 37 ∷ 0 ∷ 0 ∷ 0 ∷ 87 ∷ 65 ∷ 86 ∷ 69 ∷ zeros 33

abbrev pub toy_tools : Tools
toy_tools = record {
  open_wave = λ file. some (record {
    is_pcm = true;
    channels = 2;
    sample_width = 2;
    frame_rate = 48000;
    frames = 48;
    data_bytes = zeros 192;
  });
  encode_voicemail = λ audible file. output (255 ∷ []);
  encode_conversation = λ pcm. output (73 ∷ 68 ∷ 51 ∷ []);
}

-- The digits from 0 to f, twice.
abbrev pub hex_digits : Bytes
hex_digits =
    48 ∷ 49 ∷ 50 ∷ 51 ∷ 52 ∷ 53 ∷ 54 ∷ 55 ∷ 56 ∷ 57 ∷ 97 ∷ 98 ∷ 99 ∷ 100 ∷ 101 ∷ 102 ∷ 48 ∷ 49 ∷ 50
    ∷ 51 ∷ 52 ∷ 53 ∷ 54 ∷ 55 ∷ 56 ∷ 57 ∷ 97 ∷ 98 ∷ 99 ∷ 100 ∷ 101 ∷ 102 ∷ []

abbrev pub env_at : ℕ → Env
env_at now = record {
  settings = record {
    recording_quota_bytes = 100;
    recording_upload_limit_bytes = 1000;
    recording_chunk_limit_bytes = 64;
    audit_recording_quota_bytes = 100;
    audit_recording_reserve_bytes = 10;
    recording_abandoned_upload_hours = 24;
  };
  aead = toy;
  cipher = old_cipher;
  tools = toy_tools;
  sha256 = λ bytes. "digest";
  segment_identity = λ id index. "r:0";
  now = now;
  nonce = nonce;
  uuid_hex = hex_digits;
  free_bytes = 1000;
  has_policy = true;
}

abbrev conversation_call : Call
conversation_call = record {
  id = "call";
  device_id = "tablet";
  in_progress = false;
  is_stock_dialer = false;
  events = (record { block_id = "b"; is_conferenced = true; occurred_at = 1000000 }) ∷ [];
  session_audit = none;
  revision_id = some 7;
  started_at = 1000000;
  duration_seconds = 60;
}

abbrev revision_of_flow : Revision
revision_of_flow = record {
  id = 7;
  schema_version = 4;
  instructions = ("external_call", "b") ∷ ("record_message", "m") ∷ [];
  has_finish_key = true;
  maximum_duration_seconds = 60;
}

abbrev pub empty_db : Db
empty_db = record {
  recordings = [];
  uploads = [];
  segments = [];
  calls = conversation_call ∷ [];
  revisions = revision_of_flow ∷ [];
  continuous = [];
  policies = [];
  acknowledgements = [];
}

abbrev pub segment_of_call : SegmentRequest
segment_of_call = record {
  receipt = conversation_receipt 7 "b";
  recording_id = "r";
  call_id = "call";
  segment_index = 0;
  captured_at = 2000000;
  duration_ms = 2;
  stop_reason = "caller_hangup";
  partial = false;
  expected_size_bytes = 45;
  source_sha256 = "digest";
}

abbrev pub creations : List (Env × Request)
creations =
    (
      env_at 1,
      create_conversation_request "tablet" (record {
        recording_id = "r";
        call_id = "call";
        revision_id = 7;
        block_id = "b";
        captured_at = 2000000;
      }),
    )
    ∷ (env_at 2, create_segment_request "tablet" "r" 0 segment_of_call)
    ∷ (
      env_at 3,
      upload_segment_request conversation "tablet" "r" 0 (record {
        upload_offset = some 0;
        is_offset_stream = true;
        content_length = declared 45;
        parts = source ∷ [];
      }),
    )
    ∷ []

abbrev pub completions : List (Env × Request)
completions =
    (env_at 4, complete_segment_request conversation "tablet" "r" 0)
    ∷ (env_at 5, complete_recording_request conversation "tablet" "r" 1)
    ∷ (env_at 6, cleanup_request)
    ∷ []

abbrev pub env_at-IsSound : (now : ℕ) → IsSound (env_at now)
env_at-IsSound now = record { lawful = toy-IsLawful; streamed = toy-IsStreamed; nonce_size = refl }

IsServed-env_at : (now : ℕ) (request : Request) → IsServed 100 (env_at now, request)
IsServed-env_at now request = record { sound = env_at-IsSound now; same_quota = refl }

recording_used_bytes-serve_example :
    recording_used_bytes none none (serve (creations ++ completions) empty_db) ≤ 100
unfolding recording_used_bytes
recording_used_bytes-serve_example =
    recording_used_bytes-serve 100 (creations ++ completions) empty_db
      (
        IsServed-env_at 1 _,
        (
          IsServed-env_at 2 _,
          (
            IsServed-env_at 3 _,
            (IsServed-env_at 4 _, (IsServed-env_at 5 _, (IsServed-env_at 6 _, tt))),
          ),
        ),
      )
      (omega arith)

-- Before the completion the 45 bytes that were declared are reserved; then the medium takes 42.
used_before : recording_used_bytes none none (serve creations empty_db) ≡ 45
unfolding serve recording_used_bytes
used_before = refl

used_after : recording_used_bytes none none (serve (creations ++ completions) empty_db) ≡ 42
unfolding serve recording_used_bytes
used_after = refl
