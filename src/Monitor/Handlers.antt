-- ===== src/Monitor/Handlers.antt =====
-- src/monitor/handlers.rs: the request handlers of the monitor. What the crates compute (hashes,
-- HTML, RFC3339 and JSON texts, header values) and the service's own settings are an `Environment`.
use telegraph_center.Base.{ℕ, String, Bool, Option, none, some, List, ◌==◌, map, if◌then◌else◌}
use Prim.Native.String.{◌++◌}
use telegraph_center.Base.Fallible.{Fallible, ok, err}
use telegraph_center.Base.Int.{ℤ, pos}
use telegraph_center.Retry.{Time, Duration, minutes}
use telegraph_center.Config.{Sink, sink_name}
use telegraph_center.Storage.Rows as Rows
use telegraph_center.Storage.Rows.{
  Db, Result, StorageError, LoginFailure, recording_not_found, recording_not_backlogged,
  recording_not_retryable,
}
use telegraph_center.Storage.Operators.{revoke_session}
use telegraph_center.Storage.ReadModels as ReadModels
use telegraph_center.Storage.ReadModels.{
  MonitorStatusFilter, RecordingSummary, RecordingDetail, list_recording_summaries,
  get_recording_detail,
}
use telegraph_center.Monitor.{AuthenticatedSession, authenticate, Verified}
use telegraph_center.Monitor.Csrf as Csrf
use telegraph_center.Monitor.Cookies.{read_session_cookie, clear_session_cookie}
use telegraph_center.Monitor.Templates.{
  RecordingListTemplate, RecordingDetailTemplate, from_summary, from_detail,
}

abbrev pub throttle_window : Duration
throttle_window = minutes 15

abbrev pub remote_ip : String
remote_ip = "unknown"

abbrev pub list_limit : ℤ
list_limit = pos 100

pub record Environment : Type 0 where
  pub hash_token : String → String
  pub derive_csrf : String → String
  pub as_bytes : String → List ℕ
  pub text_before : Time → Time → Bool
  pub sink_details : String → String
  pub format : Time → String
  -- the pages, where the template renders
  pub login_html : String → Option String
  pub list_html : RecordingListTemplate → Option String
  pub detail_html : RecordingDetailTemplate → Option String
  -- `HeaderValue::from_str`
  pub header_value : String → Option String
  pub sinks : List Sink
  pub own_username : String
  pub load : Option String
  pub verify_password : String → String → Verified

pub data Content : Type 0 where
  html plain : String → Content
  -- the location
  redirect : String → Content

pub record Response : Type 0 where
  pub status_code : ℕ
  pub content : Content
  pub cookie : Option String

abbrev pub respond : ℕ → Content → Response
respond status content = record { status_code = status; content = content; cookie = none }

abbrev pub redirect_to : String → Response
redirect_to location = respond 303 (redirect location)

unfoldable pub redirect_to_login : Response
redirect_to_login = redirect_to "/monitor/login"

unfoldable pub redirect_to_detail : String → Response
redirect_to_detail id = redirect_to ("/monitor/recordings/" ++ id)

unfoldable pub not_found : Response
not_found = respond 404 (plain "Recording not found.")

unfoldable pub conflict : Response
conflict = respond 409 (plain "Action is not valid for the current recording state.")

unfoldable pub forbidden : Response
forbidden = respond 403 (plain "Invalid CSRF token.")

unfoldable pub internal_error : Response
internal_error = respond 500 (plain "An unexpected error occurred.")

unfoldable pub render : Option String → ℕ → Response
unfolding internal_error
render none status = internal_error
render (some page) status = respond status (html page)

unfoldable pub render_login : Environment → String → ℕ → Response
unfolding render
render_login env error status = render (env.login_html error) status

unfoldable pub set_cookie : Environment → Response → String → Response
set_cookie env response cookie = elim (env.header_value cookie) [
  | none ↦ response
  | some value ↦ record response { cookie = some value }
]

unfoldable pub parse_filter : Option String → MonitorStatusFilter × String
parse_filter none = (ReadModels.all, "all")
parse_filter (some status) =
    if status == "backlogged"
    then (ReadModels.only_backlogged, "backlogged")
    else if status == "failed"
    then (ReadModels.failed, "failed")
    else if status == "delivering"
    then (ReadModels.in_flight, "delivering")
    else if status == "delivered"
    then (ReadModels.only_delivered, "delivered")
    else (ReadModels.all, "all")

-- `meanwhile` is what other requests and the workers do while a session is checked.
module _ (env : Environment) (meanwhile : Db → Db) where
  abbrev pub Session : Type 0
  Session = AuthenticatedSession env.hash_token env.derive_csrf

  abbrev pub or_login : Option Session × Db → Fallible Response Session × Db
  or_login (none, db) = (err redirect_to_login, db)
  or_login (some auth, db) = (ok auth, db)

  -- `header` is the text of the Cookie header.
  unfoldable pub require_session : Option String → Time → Db → Fallible Response Session × Db
  require_session header now db = elim (read_session_cookie header) [
    | none ↦ (err redirect_to_login, db)
    | some token ↦ or_login (authenticate env.hash_token env.derive_csrf meanwhile token now db)
  ]

  -- the early return where there is no session
  abbrev pub with_session :
      Fallible Response Session × Db → (Session → Db → Response × Db) → Response × Db
  with_session (err response, db) rest = (response, db)
  with_session (ok auth, db) rest = rest auth db

  unfoldable pub is_valid_form : Session → String → Bool
  is_valid_form auth csrf_token = Csrf.validate env.hash_token env.as_bytes auth.session csrf_token

  unfoldable pub login_get : Option String → Time → Db → Response × Db
  unfolding require_session
  login_get header now db = elim (read_session_cookie header) [
    | none ↦ (render_login env "" 200, db)
    | some token ↦
        let (auth, db') = authenticate env.hash_token env.derive_csrf meanwhile token now db in
        elim auth [
          | none ↦ (render_login env "" 200, db')
          | some session ↦ (redirect_to "/monitor", db')
        ]
  ]

  unfoldable pub logout_post : Option String → String → Time → Time → Db → Response × Db
  unfolding require_session is_valid_form
  logout_post header csrf_token now later db =
      with_session (require_session header now db) λ auth db'.
        if is_valid_form auth csrf_token
        then (
          set_cookie env redirect_to_login clear_session_cookie,
          (revoke_session auth.session.session_hash later (meanwhile db')).1,
        )
        else (forbidden, db')

  abbrev pub list_page : Session → String → Result (List RecordingSummary) → Response
  list_page auth active_filter (Rows.err e) = internal_error
  list_page auth active_filter (Rows.ok summaries) =
      render
        (env.list_html (record {
          csrf_token = auth.csrf_token;
          active_filter = active_filter;
          rows = map (from_summary env.format) summaries;
        }))
        200

  unfoldable pub recording_list : Option String → Option String → Time → Db → Response × Db
  unfolding require_session parse_filter
  recording_list header status now db = with_session (require_session header now db) λ auth db'.
      let (filter, active_filter) = parse_filter status in
      (
        list_page auth active_filter
            (list_recording_summaries env.text_before filter list_limit db'),
        db',
      )

  abbrev pub detail_page : Session → Result (Option RecordingDetail) → Response
  detail_page auth (Rows.err e) = internal_error
  detail_page auth (Rows.ok none) = not_found
  detail_page auth (Rows.ok (some detail)) =
      render
        (env.detail_html (from_detail env.format detail auth.csrf_token (map sink_name env.sinks)))
        200

  unfoldable pub recording_detail : Option String → String → Time → Db → Response × Db
  unfolding require_session
  recording_detail header id now db =
      with_session (require_session header now db)
        λ auth db'. (detail_page auth (get_recording_detail env.text_before id db'), db')
