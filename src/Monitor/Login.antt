-- ===== src/Monitor/Login.antt =====
-- src/monitor/handlers.rs: the login and its throttle.
use telegraph_center.Base.{
  ℕ, ◌-◌, ◌<◌, String, ◌≡◌, refl, true, false, ◌==◌, arith, leb, Bool-cases, inl, inr, ◌⊎◌,
}
use telegraph_center.Base.Table.{exists_row}
use telegraph_center.Retry.{Time}
use telegraph_center.Storage.Rows as Rows
use telegraph_center.Storage.Rows.{Db, Result, LoginFailure}
use telegraph_center.Storage.Operators.{
  count_login_failures_since, record_login_failure, clear_login_failures,
}
use telegraph_center.Monitor.{
  start_session, decision, ThrottleDecision, allow, locked, wait, verify_credentials, Verified,
  checked, unusable, lock_threshold,
}
use telegraph_center.Monitor.Cookies.{set_session_cookie}
use telegraph_center.Monitor.Handlers.{
  Environment, Response, redirect_to, internal_error, render_login, set_cookie, throttle_window,
  remote_ip,
}

-- `slept` is what other requests do while a login is delayed.
module _ (env : Environment) (slept : Db → Db) where
  unfoldable pub record_failure : String → String → Time → Db → Db
  record_failure failure_id username now db =
      (record_login_failure
        (record { id = failure_id; username = username; remote_ip = remote_ip; failed_at = now })
        db).1

  -- once the session is started
  abbrev pub started : String → Result (String × String) × Db → Response × Db
  started username (Rows.err e, db) = (internal_error, db)
  started username (Rows.ok (session_token, csrf), db) = (
    set_cookie env (redirect_to "/monitor") (set_session_cookie session_token),
    (clear_login_failures username remote_ip db).1,
  )

  unfoldable pub finish_login : String → String → Time → Db → Response × Db
  finish_login username session_token now db =
      started username
        (start_session env.hash_token env.derive_csrf env.own_username session_token now db)

  -- After the throttle: `token` is the generated session token and `failure_id` the generated id.
  unfoldable pub after_check : Verified → String → String → String → Time → Db → Response × Db
  unfolding finish_login record_failure
  after_check (checked true) username token failure_id now db = finish_login username token now db
  after_check (checked false) username token failure_id now db = (
    render_login env "Invalid username or password." 401,
    record_failure failure_id username now db,
  )
  after_check unusable username token failure_id now db = (internal_error, db)

  unfoldable pub throttled :
      ThrottleDecision → Verified → String → String → String → Time → Db → Response × Db
  unfolding after_check
  throttled locked verified username token failure_id now db =
      (render_login env "Too many attempts. Please try again later." 429, db)
  throttled (wait delay) verified username token failure_id now db =
      after_check verified username token failure_id now (slept db)
  throttled allow verified username token failure_id now db =
      after_check verified username token failure_id now db

  unfoldable pub failures : String → Time → Db → ℕ
  failures username now db =
      count_login_failures_since env.text_before username remote_ip (now - throttle_window) db

  unfoldable pub login_post : String → String → String → String → Time → Db → Response × Db
  unfolding throttled failures
  login_post username password token failure_id now db =
      throttled (decision (failures username now db))
        (verify_credentials env.load env.verify_password env.own_username username password)
        username token failure_id now db

  -- A login that adds to the sessions was not locked out, and its credentials were checked and fit.
  abbrev pub SessionsKept : Db → Db → Type 0
  SessionsKept db db' =
      (db'.operator_sessions ≡ db.operator_sessions)
      ⊎ (db'.operator_sessions ≡ (slept db).operator_sessions)

  after_check_sessions :
      (v : Verified) (username token id : String) (now : Time) (db : Db)
      → ((after_check v username token id now db).1.operator_sessions ≡ db.operator_sessions)
        ⊎ (v ≡ checked true)
  unfolding after_check record_failure record_login_failure
  after_check_sessions (checked true) username token id now db = inr refl
  after_check_sessions (checked false) username token id now db =
      inl (elim (Bool-cases (exists_row (λ f. f.id == id) db.login_failures)) [
        | inl taken ↦ rw taken refl
        | inr free ↦ rw free refl
      ])
  after_check_sessions unusable username token id now db = inl refl

  throttled_sessions :
      (d : ThrottleDecision) (v : Verified) (username token id : String) (now : Time) (db : Db)
      → SessionsKept db (throttled d v username token id now db).1
        ⊎ ((v ≡ checked true) × (d ≡ locked → ⊥))
  unfolding throttled
  throttled_sessions locked v username token id now db = inl (inl refl)
  throttled_sessions (wait delay) v username token id now db =
      elim (after_check_sessions v username token id now (slept db)) [
        | inl kept ↦ inl (inr kept)
        | inr fits ↦ inr (fits, λ e. cc)
      ]
  throttled_sessions allow v username token id now db =
      elim (after_check_sessions v username token id now db) [
        | inl kept ↦ inl (inl kept)
        | inr fits ↦ inr (fits, λ e. cc)
      ]

  unlocked : (n : ℕ) → (decision n ≡ locked → ⊥) → n < lock_threshold
  unfolding decision
  unlocked n h = elim (Bool-cases (leb lock_threshold n)) [
    | inl over ↦ absurd (h (ground arith))
    | inr under ↦ ground arith
  ]

  -- A login either leaves the sessions as they were, or as other requests left them while it
  -- waited, or fewer than ten failures were counted for it and its password was checked and fits.
  pub login_post_sound :
      (username password token failure_id : String) (now : Time) (db : Db)
      → SessionsKept db (login_post username password token failure_id now db).1
        ⊎ ((failures username now db < lock_threshold)
            × (verify_credentials env.load env.verify_password env.own_username username password
                ≡ checked true))
  unfolding login_post
  login_post_sound username password token failure_id now db =
      elim (throttled_sessions (decision (failures username now db)) _ username token failure_id now
        db) [ inl kept ↦ inl kept | inr (fits, open_door) ↦ inr (unlocked _ open_door, fits) ]
