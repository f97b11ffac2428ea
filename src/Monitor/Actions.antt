-- ===== src/Monitor/Actions.antt =====
-- src/monitor/handlers.rs: the Operator's actions on a Recording.
use telegraph_center.Base.{◌+◌, String, ◌≡◌, true, Option, some, ◌==◌, if◌then◌else◌}
use telegraph_center.Base.Table.{exists_row}
use telegraph_center.Retry.{Time, delivery_window}
use telegraph_center.Domain.Entities.{Delivery}
use telegraph_center.Config.{sink_name}
use telegraph_center.Storage.Rows as Rows
use telegraph_center.Storage.Rows.{
  Db, Result, recording_not_found, recording_not_backlogged, recording_not_retryable,
}
use telegraph_center.Storage.Operators.{revoke_session}
use telegraph_center.Storage.Manual as Manual
use telegraph_center.Storage.Manual.{ManualRoute, ManualRetryTranscription, ManualRetryDelivery}
use telegraph_center.Monitor.{authenticate}
use telegraph_center.Monitor.Cookies.{read_session_cookie}
use telegraph_center.Monitor.Handlers.{
  Environment, Response, respond, plain, not_found, conflict, forbidden, internal_error,
  redirect_to_detail, Session, require_session, with_session, is_valid_form, logout_post,
}

-- The response to a routing and to a retry.
abbrev pub routed : String → Result Delivery → Response
routed id (Rows.ok delivery) = redirect_to_detail id
routed id (Rows.err (recording_not_backlogged rid status)) = conflict
routed id (Rows.err (recording_not_found rid)) = not_found
routed id (Rows.err e) = internal_error

abbrev pub retried : {A : Type 0} → String → Result A → Response
retried id (Rows.ok a) = redirect_to_detail id
retried id (Rows.err (recording_not_retryable rid status kind)) = conflict
retried id (Rows.err (recording_not_found rid)) = not_found
retried id (Rows.err e) = internal_error

unfoldable pub route_input : String → String → String → String → Time → String → ManualRoute
route_input id sink delivery_id audit_event_id now actor = record {
  recording_id = id;
  sink_name = sink;
  delivery_id = delivery_id;
  audit_event_id = audit_event_id;
  selected_at = now;
  retry_deadline_at = now + delivery_window;
  actor_id = some actor;
}

unfoldable pub retry_transcription_input :
    String → String → Time → String → ManualRetryTranscription
retry_transcription_input id audit_event_id now actor = record {
  recording_id = id;
  audit_event_id = audit_event_id;
  at = now;
  actor_id = some actor;
}

unfoldable pub retry_delivery_input : String → String → Time → String → ManualRetryDelivery
retry_delivery_input id audit_event_id now actor = record {
  recording_id = id;
  audit_event_id = audit_event_id;
  at = now;
  retry_deadline_at = now + delivery_window;
  actor_id = some actor;
}

-- `meanwhile` is what the rest of the service does while the session is checked, and again before
-- the action; `now` and `later` are the two readings of the clock.
module _ (env : Environment) (meanwhile : Db → Db) where
  unfoldable pub manual_route :
      Option String → String → String → String → String → String → Time → Time → Db → Response × Db
  unfolding require_session is_valid_form route_input
  manual_route header csrf_token sink id delivery_id audit_event_id now later db =
      with_session env meanwhile (require_session env meanwhile header now db) λ auth db'.
        if is_valid_form env meanwhile auth csrf_token
        then (if exists_row (λ s. sink_name s == sink) env.sinks
            then (let (r, db'') =
                  Manual.manual_route env.sink_details
                    (route_input id sink delivery_id audit_event_id later
                      auth.session.operator_username)
                    (meanwhile db') in
                (routed id r, db''))
            else (respond 400 (plain "Unknown sink."), db'))
        else (forbidden, db')

  unfoldable pub retry_transcription :
      Option String → String → String → String → Time → Time → Db → Response × Db
  unfolding require_session is_valid_form retry_transcription_input
  retry_transcription header csrf_token id audit_event_id now later db =
      with_session env meanwhile (require_session env meanwhile header now db) λ auth db'.
        if is_valid_form env meanwhile auth csrf_token
        then (let (r, db'') =
              Manual.manual_retry_transcription
                (retry_transcription_input id audit_event_id later auth.session.operator_username)
                (meanwhile db') in
            (retried id r, db''))
        else (forbidden, db')

  unfoldable pub retry_delivery :
      Option String → String → String → String → Time → Time → Db → Response × Db
  unfolding require_session is_valid_form retry_delivery_input
  retry_delivery header csrf_token id audit_event_id now later db =
      with_session env meanwhile (require_session env meanwhile header now db) λ auth db'.
        if is_valid_form env meanwhile auth csrf_token
        then (let (r, db'') =
              Manual.manual_retry_delivery
                (retry_delivery_input id audit_event_id later auth.session.operator_username)
                (meanwhile db') in
            (retried id r, db''))
        else (forbidden, db')

-- The POST routes of src/monitor/mod.rs that change something for a session.
pub data Action : Type 0 where
  -- the Sink, the Recording, and the generated ids
  route : String → String → String → String → Action
  -- the Recording and the generated id
  transcribe_again deliver_again : String → String → Action
  logout : Action

module _ (env : Environment) (meanwhile : Db → Db) where
  unfoldable pub post : Action → Option String → String → Time → Time → Db → Response × Db
  unfolding manual_route retry_transcription retry_delivery
  post (route sink id delivery_id audit_event_id) header csrf_token now later db =
      manual_route env meanwhile header csrf_token sink id delivery_id audit_event_id now later db
  post (transcribe_again id audit_event_id) header csrf_token now later db =
      retry_transcription env meanwhile header csrf_token id audit_event_id now later db
  post (deliver_again id audit_event_id) header csrf_token now later db =
      retry_delivery env meanwhile header csrf_token id audit_event_id now later db
  post logout header csrf_token now later db =
      logout_post env meanwhile header csrf_token now later db

  -- What an action does to the database once it is permitted.
  abbrev pub performed : Action → Session env meanwhile → Time → Db → Db
  performed (route sink id delivery_id audit_event_id) auth later db =
      (Manual.manual_route env.sink_details
        (route_input id sink delivery_id audit_event_id later auth.session.operator_username) db).1
  performed (transcribe_again id audit_event_id) auth later db =
      (Manual.manual_retry_transcription
        (retry_transcription_input id audit_event_id later auth.session.operator_username) db).1
  performed (deliver_again id audit_event_id) auth later db =
      (Manual.manual_retry_delivery
        (retry_delivery_input id audit_event_id later auth.session.operator_username) db).1
  performed logout auth later db = (revoke_session auth.session.session_hash later db).1

  -- The Sink of a routing is configured.
  abbrev pub IsConfigured : Action → Type 0
  IsConfigured (route sink id delivery_id audit_event_id) =
      exists_row (λ s. sink_name s == sink) env.sinks ≡ true
  IsConfigured other = Unit {0}

  -- The session that permits an action: of the cookie's token, and with the CSRF token of the form.
  pub record Permits (header : Option String) (csrf_token : String) (now : Time) (db : Db)
      (auth : Session env meanwhile) : Type 0 where
    pub token : String
    pub sent : read_session_cookie header ≡ some token
    pub authenticated :
        (authenticate env.hash_token env.derive_csrf meanwhile token now db).0 ≡ some auth
    pub valid : is_valid_form env meanwhile auth csrf_token ≡ true
