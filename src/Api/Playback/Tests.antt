-- ===== src/Api/Playback/Tests.antt =====
-- Runs of the playback: a voicemail and a conversation of one segment, loaded after a key rotation.
use ivrdroid.Api.Playback.{are_hex, load_media}
use ivrdroid.Recordings.Audio.{transcode_voicemail}
use ivrdroid.Recordings.Upload.{read_uploaded_wav, written_stat}
use ivrdroid.Recordings.Cipher.{find_key}
use ivrdroid.Api.Assembly.{assembled_recording, store_assembled}
use ivrdroid.Api.Voicemail.{final_recording, finalize_recording}
use ivrdroid.Recordings.Tests.{rotated, chunk_payload, media_payload}
use ivrdroid.Api.Tests.{zeros, env_at, env_at-IsSound, empty_db, source}
use ivrdroid.Api.Playback.Stored.{IsNamed, load_media-finalize_recording}
use ivrdroid.Api.{
  Bytes, Db, Kind, Upload, Recording, Segment, conversation, voicemail, uploading, verified,
}
use ivrdroid.Base.{◌≡◌, ◌∷◌, [], none, some, true, false, ok, refl}

abbrev pub waiting : Kind → Recording
waiting kind = record {
  id = "r";
  device_id = "tablet";
  call_id = "call";
  revision_id = some 7;
  block_id = some "b";
  sequence = some 0;
  kind = kind;
  audit_metadata = none;
  segment_count = 0;
  captured_at = 1000000;
  duration_ms = 2;
  stop_reason = "caller_hangup";
  source_size_bytes = 45;
  source_sha256 = "digest";
  status = uploading;
  is_legacy = true;
  partial = false;
  media = none;
  updated_at = 1;
}

abbrev pub received : Upload
received = record {
  upload_offset = 45;
  expected_size_bytes = 45;
  source_sha256 = "digest";
  updated_at = 3;
  recording_updated_at = 3;
  is_name = true;
  directory = some written_stat;
  files = (0, (record { stat = written_stat; payload = chunk_payload source })) ∷ [];
}

env_at-IsNamed : IsNamed (env_at 5)
unfolding are_hex
env_at-IsNamed = record { size = refl; hex = refl }

abbrev voicemail_media : Bytes
voicemail_media = 255 ∷ []

abbrev finalized : Recording
finalized =
    final_recording (env_at 5) (waiting voicemail) (record { duration_ms = 1; frames = 48 })
      voicemail_media (media_payload voicemail_media)

load_media-finalize_recording_example :
    (file : Bytes) × (encoded : Bytes) × (read_uploaded_wav
        (env_at 5).aead
        (env_at 5).cipher
        "r"
        (env_at 5).sha256
        received
      ≡ ok file)
    × (transcode_voicemail (env_at 5).tools file ≡ ok encoded)
    × (load_media (env_at 5).aead rotated (env_at 5).sha256 finalized ≡ ok encoded)
unfolding finalize_recording find_key
load_media-finalize_recording_example =
    load_media-finalize_recording (env_at 5) (env_at-IsSound 5) env_at-IsNamed rotated refl
      (waiting voicemail) received empty_db finalized refl

abbrev pub segment_of_r : Segment
segment_of_r = record {
  recording_id = "r";
  segment_index = 0;
  captured_at = 2000000;
  duration_ms = 1;
  stop_reason = "caller_hangup";
  partial = false;
  status = verified;
  upload = received;
}

abbrev pub waiting_db : Db
waiting_db = record empty_db {
  recordings = waiting conversation ∷ [];
  segments = segment_of_r ∷ [];
}

abbrev conversation_media : Bytes
conversation_media = 73 ∷ 68 ∷ 51 ∷ []

abbrev assembled_db : Db
assembled_db =
    store_assembled (env_at 5)
      (assembled_recording (env_at 5) false (waiting conversation) (segment_of_r ∷ []) segment_of_r
        (record { duration_ms = 1; pcm = zeros 192 })
        (record { content = media_payload conversation_media; size = 42; sha256 = "digest" }))
      waiting_db
