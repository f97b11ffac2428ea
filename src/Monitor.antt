-- ===== src/Monitor.antt =====
-- The access rules of the monitor: src/monitor/session.rs, src/monitor/throttle.rs and
-- src/monitor/auth.rs. Argon2, SHA-256 and the random tokens are third-party code, so that the
-- verification of a hash, the hash of a token and a generated token are arguments.
pub mod Laws
pub mod Csrf
pub mod Templates
pub mod Cookies
pub mod Handlers
pub mod Actions
pub mod Permission
pub mod Login
pub mod Lockout
use telegraph_center.Base.{
  ℕ, ◌+◌, min, String, Bool, true, false, Option, none, some, ◌==◌, leb, is_some, if◌then◌else◌,
}
use telegraph_center.Retry.{Time, Duration, hours, minutes}
use telegraph_center.Domain.Entities.{OperatorSession}
use telegraph_center.Storage.Rows.{Db, Result, ok, err}
use telegraph_center.Storage.Tx.{Op}
use telegraph_center.Storage.Operators.{
  NewOperatorSession, create_session, get_session, touch_session,
}

abbrev pub idle_ttl : Duration
idle_ttl = hours 168

abbrev pub absolute_ttl : Duration
absolute_ttl = hours 336

pub data SessionValidity : Type 0 where
  active revoked idle_expired absolute_expired : SessionValidity

unfoldable pub evaluate_session : OperatorSession → Time → SessionValidity
evaluate_session session now =
    if is_some session.revoked_at
    then revoked
    else if leb session.absolute_expires_at now
    then absolute_expired
    else if leb session.idle_expires_at now
    then idle_expired
    else active

abbrev pub delay_threshold : ℕ
delay_threshold = 5

abbrev pub lock_threshold : ℕ
lock_threshold = 10

-- two seconds
abbrev pub delay : Duration
delay = 2_000_000_000

pub data ThrottleDecision : Type 0 where
  allow locked : ThrottleDecision
  wait : Duration → ThrottleDecision

-- The count of rows is never negative.
unfoldable pub decision : ℕ → ThrottleDecision
decision failure_count =
    if leb lock_threshold failure_count
    then locked
    else if leb delay_threshold failure_count
    then wait delay
    else allow

-- What a password check answers: whether it fits, or that the hash cannot be used.
pub data Verified : Type 0 where
  checked : Bool → Verified
  unusable : Verified

-- `load` is the hash that the provider has, if it has one, and `verify_password` the Argon2 check.
unfoldable pub verify_credentials :
    Option String → (String → String → Verified) → String → String → String → Verified
verify_credentials load verify_password own_username username password =
    if username == own_username
    then elim load [ none ↦ unusable | some phc ↦ verify_password phc password ]
    else checked false

module _ (hash_token derive_csrf : String → String) where
  -- The session token, which is generated, and the CSRF token that goes with it.
  unfoldable pub start_session : String → String → Time → Op (String × String)
  start_session username session_token now db =
      let (r, db') =
        create_session
          (record {
            session_hash = hash_token session_token;
            operator_username = username;
            csrf_token_hash = hash_token (derive_csrf session_token);
            created_at = now;
            last_seen_at = now;
            idle_expires_at = now + idle_ttl;
            absolute_expires_at = now + absolute_ttl;
          })
          db in
      elim r [ ok s ↦ (ok (session_token, derive_csrf session_token), db') | err e ↦ (err e, db') ]

  pub record AuthenticatedSession : Type 0 where
    pub session : OperatorSession
    pub csrf_token : String

  abbrev pub refreshed : OperatorSession → Time → OperatorSession
  refreshed session now = record session {
    last_seen_at = now;
    idle_expires_at = min (now + idle_ttl) session.absolute_expires_at;
  }

  -- The refresh decides: a session that was revoked since it was read is not refreshed.
  abbrev pub admitted :
      OperatorSession → String → Time → Bool × Db → Option AuthenticatedSession × Db
  admitted session session_token now (false, db) = (none, db)
  admitted session session_token now (true, db) = (
    some (record { session = refreshed session now; csrf_token = derive_csrf session_token }),
    db,
  )

  unfoldable pub admit :
      OperatorSession → SessionValidity → String → Time → Db → Option AuthenticatedSession × Db
  admit session active session_token now db = admitted session session_token now (
      touch_session (hash_token session_token) now
        (min (now + idle_ttl) session.absolute_expires_at) db)
  admit session invalid session_token now db = (none, db)

  -- `meanwhile` is what other requests do between the read of the session and its refresh.
  unfoldable pub authenticate : (Db → Db) → String → Time → Db → Option AuthenticatedSession × Db
  unfolding evaluate_session admit
  authenticate meanwhile session_token now db = elim (get_session (hash_token session_token) db) [
    | none ↦ (none, meanwhile db)
    | some session ↦ admit session (evaluate_session session now) session_token now (meanwhile db)
  ]
