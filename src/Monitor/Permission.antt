-- ===== src/Monitor/Permission.antt =====
-- src/monitor/handlers.rs: what an action of the Operator requires.
use telegraph_center.Base.{
  String, ◌≡◌, refl, ap, true, false, Option, none, some, ◌==◌, ◌⊎◌, inl, inr, Bool-cases,
}
use telegraph_center.Base.Table.{exists_row}
use telegraph_center.Base.Fallible.{Fallible, ok, err}
use telegraph_center.Retry.{Time}
use telegraph_center.Config.{sink_name}
use telegraph_center.Storage.Rows.{Db}
use telegraph_center.Monitor.{authenticate}
use telegraph_center.Monitor.Cookies.{read_session_cookie}
use telegraph_center.Monitor.Handlers.{
  Environment, Response, Session, require_session, with_session, or_login, is_valid_form,
  logout_post, redirect_to_login,
}
use telegraph_center.Monitor.Actions.{
  Action, route, transcribe_again, deliver_again, logout, post, performed, IsConfigured, Permits,
  manual_route, retry_transcription, retry_delivery,
}

module _ (env : Environment) (meanwhile : Db → Db) where
  or_login_ok :
      (q : Option (Session env meanwhile) × Db) (auth : Session env meanwhile)
      → (or_login env meanwhile q).0 ≡ ok auth
      → q.0 ≡ some auth
  or_login_ok (none, db) auth e = cc
  or_login_ok (some a, db) auth e = cc

  module _ (header : Option String) (now : Time) (db : Db) where
    require_session_ok :
        (auth : Session env meanwhile)
        → (require_session env meanwhile header now db).0 ≡ ok auth
        → (token : String) × (read_session_cookie header ≡ some token)
          × ((authenticate env.hash_token env.derive_csrf meanwhile token now db).0 ≡ some auth)
    unfolding require_session
    require_session_ok auth e = go (read_session_cookie header) refl e
      where
        go :
            (o : Option String)
            → read_session_cookie header ≡ o
            → (let r : Fallible Response (Session env meanwhile) × Db = elim o [
              | none ↦ (err redirect_to_login, db)
              | some token ↦
                  or_login env meanwhile
                    (authenticate env.hash_token env.derive_csrf meanwhile token now db)
            ] in
                r.0)
              ≡ ok auth
            → (token : String) × (read_session_cookie header ≡ some token)
              × ((authenticate env.hash_token env.derive_csrf meanwhile token now db).0 ≡ some auth)
        go none q h = cc
        go (some token) q h = (token, q, or_login_ok _ auth h)

    module _ (action : Action) (csrf_token : String) (later : Time) where
      -- After the check of the session, nothing more is done, or the permitted action is.
      abbrev pub Outcome : Db → Db → Type 0
      Outcome checked after =
          (after ≡ checked)
          ⊎ ((auth : Session env meanwhile) × Permits env meanwhile header csrf_token now db auth
              × IsConfigured env meanwhile action
              × (after ≡ performed env meanwhile action auth later (meanwhile checked)))

      guarded :
          (s : Fallible Response (Session env meanwhile) × Db)
          (rest : Session env meanwhile → Db → Response × Db)
          → require_session env meanwhile header now db ≡ s
          → ((auth : Session env meanwhile) (checked : Db)
              → is_valid_form env meanwhile auth csrf_token ≡ false
              → (rest auth checked).1 ≡ checked)
          → ((auth : Session env meanwhile) (checked : Db)
              → is_valid_form env meanwhile auth csrf_token ≡ true
              → ((rest auth checked).1 ≡ checked)
                ⊎ (IsConfigured env meanwhile action
                    × ((rest auth checked).1
                        ≡ performed env meanwhile action auth later (meanwhile checked))))
          → Outcome s.1 (with_session env meanwhile s rest).1
      guarded (err response, checked) rest e refused allowed = inl refl
      guarded (ok auth, checked) rest e refused allowed =
          elim (Bool-cases (is_valid_form env meanwhile auth csrf_token)) [
            | inr invalid ↦ inl (refused auth checked invalid)
            | inl valid ↦ elim (allowed auth checked valid) [
              | inl kept ↦ inl kept
              | inr (configured, done) ↦
                  let (token, sent, found) = require_session_ok auth (ap (λ q. q.0) e) in
                  inr (
                    auth,
                    record { token = token; sent = sent; authenticated = found; valid = valid },
                    configured,
                    done,
                  )
            ]
          ]

  -- A POST that is no login either leaves the database as the check of its session left it, or has
  -- a cookie whose token is authenticated, the CSRF token of that session, and, for a routing, a
  -- configured Sink; then it does the action in the name of that session's Operator, and nothing
  -- else.
  pub post_permitted :
      (action : Action) (header : Option String) (csrf_token : String) (now later : Time) (db : Db)
      → Outcome header now db action csrf_token later
          (require_session env meanwhile header now db).1
          (post env meanwhile action header csrf_token now later db).1
  unfolding post manual_route retry_transcription retry_delivery logout_post
  post_permitted (route sink id d a) header csrf_token now later db =
      guarded header now db (route sink id d a) csrf_token later _ _ refl (λ auth c h. rw h refl)
        λ auth c h. elim (Bool-cases (exists_row (λ s. sink_name s == sink) env.sinks)) [
          | inl there ↦ inr (there, rw (h, there) refl)
          | inr missing ↦ inl (rw (h, missing) refl)
        ]
  post_permitted (transcribe_again id a) header csrf_token now later db =
      guarded header now db (transcribe_again id a) csrf_token later _ _ refl
        (λ auth c h. rw h refl) λ auth c h. inr (tt, rw h refl)
  post_permitted (deliver_again id a) header csrf_token now later db =
      guarded header now db (deliver_again id a) csrf_token later _ _ refl (λ auth c h. rw h refl)
        λ auth c h. inr (tt, rw h refl)
  post_permitted logout header csrf_token now later db =
      guarded header now db logout csrf_token later _ _ refl (λ auth c h. rw h refl)
        λ auth c h. inr (tt, rw h refl)
