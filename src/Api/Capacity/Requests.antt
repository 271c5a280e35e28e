-- ===== src/Api/Capacity/Requests.antt =====
-- Sequences of requests against the quota of the recordings.
use ivrdroid.Api.Capacity.Retention.{
  cleanup_abandoned_uploads-Within, purge_expired_recordings-Within, delete_recording-Within,
}
use ivrdroid.Api.Retention.{delete_recording}
use ivrdroid.Api.Complete.{complete_recording}
use ivrdroid.Api.Capacity.Content.{complete_segment-Within, upload_segment_content-Within}
use ivrdroid.Api.Content.{upload_segment_content}
use ivrdroid.Api.Capacity.Create.{
  create_session_recording-Within, create_conversation_recording-Within,
}
use ivrdroid.Api.Create.{create_session_recording, create_conversation_recording}
use ivrdroid.Api.Capacity.Voicemail.{
  complete_voicemail-Within, upload_recording_content-Within, create_recording-Within,
}
use ivrdroid.Api.Voicemail.{complete_voicemail, upload_recording_content, create_recording}
use ivrdroid.Api.Capacity.Segments.{create_segment-Within, Within}
use ivrdroid.Api.Segments.{create_segment, Handled}
use ivrdroid.Api.Capacity.{used}
use ivrdroid.Api.Quota.{recording_used_bytes}
use ivrdroid.Api.Capacity.Assembly.{complete_recording-Within, IsSound}
use ivrdroid.Api.{Db, Env}
use ivrdroid.Api.Handlers.{
  cleanup_request, purge_request, delete_request, complete_recording_request,
  complete_segment_request, upload_segment_request, create_segment_request, create_session_request,
  create_conversation_request, complete_voicemail_request, upload_recording_request, committed,
  create_recording_request, Request, handle, serve,
}
use ivrdroid.Base.{ℕ, ◌≡◌, ◌≤◌, List, [], ◌∷◌, none, refl, sym, subst, ok, err, All}

committed-Within :
    {A : Type 0} (env : Env) (db : Db) (fits : used db ≤ env.settings.recording_quota_bytes)
    (answer : Handled A)
    → ((after : Db) (reply : A) → answer ≡ ok (after, reply) → Within env db fits after)
    → Within env db fits (committed db answer)
committed-Within env db fits (ok (after, reply)) h = h after reply refl
committed-Within env db fits (err error) h = fits

handle-Within :
    (env : Env) (sound : IsSound env) (request : Request) (db : Db)
    (fits : used db ≤ env.settings.recording_quota_bytes)
    → Within env db fits (handle env request db)
unfolding handle
handle-Within env sound (create_recording_request device body) db fits =
    committed-Within env db fits (create_recording env device body db)
      (create_recording-Within env db fits device body)
handle-Within env sound (upload_recording_request device id request) db fits =
    committed-Within env db fits (upload_recording_content env device id request db)
      (upload_recording_content-Within env db fits device id request)
handle-Within env sound (complete_voicemail_request device id) db fits =
    committed-Within env db fits (complete_voicemail env device id db)
      (complete_voicemail-Within env db fits device id)
handle-Within env sound (create_conversation_request device body) db fits =
    committed-Within env db fits (create_conversation_recording env device body db)
      (create_conversation_recording-Within env db fits device body)
handle-Within env sound (create_session_request device body) db fits =
    committed-Within env db fits (create_session_recording env device body db)
      (create_session_recording-Within env db fits device body)
handle-Within env sound (create_segment_request device id index body) db fits =
    committed-Within env db fits (create_segment env device id index body db)
      (create_segment-Within env db fits device id index body)
handle-Within env sound (upload_segment_request kind device id index request) db fits =
    committed-Within env db fits (upload_segment_content env kind device id index request db)
      (upload_segment_content-Within env db fits kind device id index request)
handle-Within env sound (complete_segment_request kind device id index) db fits =
    complete_segment-Within env db fits kind device id index
handle-Within env sound (complete_recording_request kind device id count) db fits =
    committed-Within env db fits (complete_recording env kind device id count db)
      (complete_recording-Within env sound db fits kind device id count)
handle-Within env sound (delete_request id) db fits =
    committed-Within env db fits (delete_recording env id db)
      (delete_recording-Within env db fits id)
handle-Within env sound (purge_request days) db fits =
    purge_expired_recordings-Within env db fits days
handle-Within env sound cleanup_request db fits = cleanup_abandoned_uploads-Within env db fits

-- A request under a quota with the libraries and the nonce that it relies on.
pub record IsServed (quota : ℕ) (request : Env × Request) : Type 0 where
  pub sound : IsSound request.0
  pub same_quota : request.0.settings.recording_quota_bytes ≡ quota

-- Whatever is requested, in whatever order, the media of the recordings that are ready, the declared
-- sizes of the uploads and the sizes of the segments that wait take no more bytes than the quota, if
-- they did so before and each request is served under that quota.
pub recording_used_bytes-serve :
    (quota : ℕ) (requests : List (Env × Request)) (db : Db)
    → All (IsServed quota) requests
    → recording_used_bytes none none db ≤ quota
    → recording_used_bytes none none (serve requests db) ≤ quota
unfolding serve
recording_used_bytes-serve quota [] db h fits = fits
recording_used_bytes-serve quota ((env, request) ∷ requests) db (served, h) fits =
    let before : used db ≤ env.settings.recording_quota_bytes =
      subst (λ q. used db ≤ q) (sym served.same_quota) fits in
    let after = handle-Within env served.sound request db before in
    recording_used_bytes-serve quota requests (handle env request db) h
      (subst (λ q. used (handle env request db) ≤ q) served.same_quota after)
