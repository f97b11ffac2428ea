-- ===== src/Monitor/Lockout.antt =====
-- src/monitor/handlers.rs and src/monitor/throttle.rs: what repeated failures of the login lead to.
use telegraph_center.Base.{
  ℕ, ◌+◌, ◌-◌, ◌≤◌, ◌<◌, String, ◌≡◌, refl, sym, ◌∙◌, ap, subst, false, not, ◌&&◌, List, [], ◌∷◌,
  ◌++◌, ◌==◌, eq_iff, arith, length, length-append, leb, leb→le, Bool-cases, inl, inr, ◌⊎◌, All,
  All-append,
}
use telegraph_center.Base.Table.{exists_row, count_rows}
use telegraph_center.Retry.{Time}
use telegraph_center.Storage.Rows.{Db, LoginFailure}
use telegraph_center.Storage.Operators.{
  count_login_failures_since, record_login_failure, is_failure_of,
}
use telegraph_center.Monitor.{
  decision, allow, locked, wait, delay, verify_credentials, checked, delay_threshold,
}
use telegraph_center.Monitor.Handlers.{Environment, render_login, throttle_window, remote_ip}
use telegraph_center.Monitor.Login.{login_post, throttled, after_check, record_failure, failures}

-- A call of the login, with the generated values and the reading of the clock.
pub record Attempt : Type 0 where
  pub password : String
  pub token : String
  pub failure_id : String
  pub now : Time

abbrev pub same_db : Db → Db
same_db db = db

module _ (env : Environment) (username : String) where
  -- the logins of one user, one after the other
  unfoldable pub attempt_all : List Attempt → Db → Db
  attempt_all [] db = db
  attempt_all (a ∷ attempts) db =
      attempt_all attempts
        (login_post env same_db username a.password a.token a.failure_id a.now db).1

  abbrev pub failure_row : Attempt → LoginFailure
  failure_row a = record {
    id = a.failure_id;
    username = username;
    remote_ip = remote_ip;
    failed_at = a.now;
  }

  -- The generated ids are new.
  abbrev pub AreFresh : List Attempt → List LoginFailure → Type 0
  AreFresh [] rows = Unit {0}
  AreFresh (a ∷ attempts) rows =
      (exists_row (λ f. f.id == a.failure_id) rows ≡ false)
      × AreFresh attempts (rows ++ failure_row a ∷ [])

  module _ (first last : Time) where
    abbrev pub IsWithin : Time → Type 0
    IsWithin t = (first ≤ t) × (t ≤ last)

    -- A wrong password, in the span of time.
    pub record IsWrong (a : Attempt) : Type 0 where
      pub within : IsWithin a.now
      pub wrong :
          verify_credentials env.load env.verify_password env.own_username username a.password
          ≡ checked false

    -- No time of the span is before the window of another one.
    abbrev pub IsOneWindow : Type 0
    IsOneWindow =
        (t u : Time) → IsWithin t → IsWithin u → env.text_before t (u - throttle_window) ≡ false

    abbrev IsCounted : LoginFailure → Type 0
    IsCounted f = (f.username ≡ username) × IsWithin f.failed_at

    module _ (window : IsOneWindow) where
      count-All :
          (now : Time) (rows : List LoginFailure)
          → IsWithin now
          → All IsCounted rows
          → count_rows
              (λ f.
                is_failure_of username remote_ip f
                && not (env.text_before f.failed_at (now - throttle_window)))
              rows
            ≡ length rows
      unfolding count_rows
      count-All now [] w h = refl
      count-All now (f ∷ rows) w ((mine, at), h) =
          let same = (eq_iff f.username username).1 mine in
          let recent = window f.failed_at now at w in
          let rest = count-All now rows w h in ground (arith, same, recent, rest)

      failures-All :
          (now : Time) (db : Db)
          → IsWithin now
          → All IsCounted db.login_failures
          → failures env same_db username now db ≡ length db.login_failures
      unfolding failures count_login_failures_since
      failures-All now db w h = count-All now db.login_failures w h

      over : (n : ℕ) → 10 ≤ n → decision n ≡ locked
      unfolding decision
      over n h = ground arith

      under : (n : ℕ) → n < 10 → (decision n ≡ allow) ⊎ (decision n ≡ wait delay)
      unfolding decision
      under n h = elim (Bool-cases (leb delay_threshold n)) [
        | inl slow ↦ inr (ground arith)
        | inr fast ↦ inl (ground arith)
      ]

      -- A wrong attempt that is not locked out is recorded.
      recorded :
          (a : Attempt) (db : Db)
          → IsWrong a
          → exists_row (λ f. f.id == a.failure_id) db.login_failures ≡ false
          → All IsCounted db.login_failures
          → length db.login_failures < 10
          → (login_post env same_db username a.password a.token a.failure_id a.now
              db).1.login_failures
            ≡ db.login_failures ++ failure_row a ∷ []
      unfolding login_post throttled after_check record_failure record_login_failure
      recorded a db bad fresh h few =
          let counted = failures-All a.now db bad.within h in
          elim (under (length db.login_failures) few) [
            | inl door ↦ rw (counted, door, bad.wrong, fresh) refl
            | inr door ↦ rw (counted, door, bad.wrong, fresh) refl
          ]

      -- An attempt that is locked out changes nothing.
      locked_out :
          (password token failure_id : String) (now : Time) (db : Db)
          → IsWithin now
          → All IsCounted db.login_failures
          → 10 ≤ length db.login_failures
          → login_post env same_db username password token failure_id now db
            ≡ (render_login env "Too many attempts. Please try again later." 429, db)
      unfolding login_post throttled
      locked_out password token failure_id now db w h many =
          rw (failures-All now db w h, over (length db.login_failures) many) refl

      stays_locked :
          (attempts : List Attempt) (db : Db)
          → All IsWrong attempts
          → All IsCounted db.login_failures
          → 10 ≤ length db.login_failures
          → attempt_all attempts db ≡ db
      unfolding attempt_all
      stays_locked [] db bad h many = refl
      stays_locked (a ∷ attempts) db (wrong, bad) h many =
          ap (λ q. attempt_all attempts q.1)
            (locked_out a.password a.token a.failure_id a.now db wrong.within h many)
          ∙ stays_locked attempts db bad h many

      attempts_recorded :
          (attempts : List Attempt) (db : Db)
          → All IsWrong attempts
          → AreFresh attempts db.login_failures
          → All IsCounted db.login_failures
          → 10 ≤ length db.login_failures + length attempts
          → (10 ≤ length (attempt_all attempts db).login_failures)
            × All IsCounted (attempt_all attempts db).login_failures
      unfolding attempt_all
      attempts_recorded [] db bad fresh h enough = (omega (arith, enough), h)
      attempts_recorded (a ∷ attempts) db (wrong, bad) (new, fresh) h enough =
          elim (Bool-cases (leb 10 (length db.login_failures))) [
            | inl many ↦
                let kept = stays_locked (a ∷ attempts) db (wrong, bad) h (leb→le 10 _ many) in
                (
                  subst (λ d. 10 ≤ length d.login_failures) (sym kept) (leb→le 10 _ many),
                  subst (λ d. All IsCounted d.login_failures) (sym kept) h,
                )
            | inr few ↦
                let db' =
                  (login_post env same_db username a.password a.token a.failure_id a.now db).1 in
                let grown = recorded a db wrong new h (ground arith) in
                attempts_recorded attempts db' bad (subst (AreFresh attempts) (sym grown) fresh)
                  (subst (All IsCounted) (sym grown) (
                    All-append IsCounted db.login_failures (failure_row a ∷ []) h
                      ((refl, wrong.within), tt)))
                  (omega (
                    arith,
                    enough,
                    ap length grown,
                    length-append db.login_failures (failure_row a ∷ []),
                  ))
          ]

      -- From a database without failures, after ten or more logins with a wrong password, all within
      -- one window, a login of that user in the window is refused with 429, the right password
      -- included, and changes nothing. The logins come directly one after the other, so that no
      -- other request touches the database between or during them, and the generated ids are new.
      pub locked_after_ten :
          (attempts : List Attempt) (db : Db) (password token failure_id : String) (now : Time)
          → db.login_failures ≡ []
          → All IsWrong attempts
          → AreFresh attempts []
          → 10 ≤ length attempts
          → IsWithin now
          → login_post env same_db username password token failure_id now (attempt_all attempts db)
            ≡ (
              render_login env "Too many attempts. Please try again later." 429,
              attempt_all attempts db,
            )
      locked_after_ten attempts db password token failure_id now empty bad fresh ten within =
          let (many, h) =
            attempts_recorded attempts db bad (subst (AreFresh attempts) (sym empty) fresh)
              (subst (All IsCounted) (sym empty) tt) (omega (arith, ten, ap length empty)) in
          locked_out password token failure_id now (attempt_all attempts db) within h many
