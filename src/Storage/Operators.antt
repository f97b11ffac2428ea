-- ===== src/Storage/Operators.antt =====
-- The Operator Session, login failure and audit operations of src/storage/sqlite.rs.
use telegraph_center.Base.{
  ℕ, String, Bool, false, not, ◌&&◌, ◌||◌, Option, none, some, List, [], ◌∷◌, ◌++◌, ◌==◌, is_some,
  nat_beq, if◌then◌else◌,
}
use telegraph_center.Base.Table.{
  select, select_one, exists_row, count_rows, update_where, delete_where, sort_by,
}
use telegraph_center.Retry.{Time}
use telegraph_center.Domain.Entities.{OperatorSession, AuditEvent}
use telegraph_center.Storage.Rows.{Db, LoginFailure, ok, err, database, primary_key}
use telegraph_center.Storage.Tx.{Op, pure, ◌>>◌, transaction}
use telegraph_center.Storage.Statements.{insert_audit_event_tx}

pub record NewOperatorSession : Type 0 where
  pub session_hash : String
  pub operator_username : String
  pub csrf_token_hash : String
  pub created_at : Time
  pub last_seen_at : Time
  pub idle_expires_at : Time
  pub absolute_expires_at : Time

abbrev pub new_session : NewOperatorSession → OperatorSession
new_session new = record {
  session_hash = new.session_hash;
  operator_username = new.operator_username;
  csrf_token_hash = new.csrf_token_hash;
  created_at = new.created_at;
  last_seen_at = new.last_seen_at;
  idle_expires_at = new.idle_expires_at;
  absolute_expires_at = new.absolute_expires_at;
  revoked_at = none;
}

unfoldable pub create_session : NewOperatorSession → Op OperatorSession
create_session new db =
    if exists_row (λ s. s.session_hash == new.session_hash) db.operator_sessions
    then (err (database primary_key), db)
    else (
      ok (new_session new),
      record db { operator_sessions = db.operator_sessions ++ new_session new ∷ [] },
    )

unfoldable pub get_session : String → Db → Option OperatorSession
get_session session_hash db = select_one (λ s. s.session_hash == session_hash) db.operator_sessions

-- WHERE session_hash = ? AND revoked_at IS NULL
abbrev pub is_live : String → OperatorSession → Bool
is_live session_hash s = s.session_hash == session_hash && not (is_some s.revoked_at)

unfoldable pub touch_session : String → Time → Time → Db → Bool × Db
touch_session session_hash last_seen_at idle_expires_at db = (
  nat_beq (count_rows (is_live session_hash) db.operator_sessions) 1,
  record db {
    operator_sessions =
        update_where (is_live session_hash)
          (λ s. record s { last_seen_at = last_seen_at; idle_expires_at = idle_expires_at })
          db.operator_sessions;
  },
)

unfoldable pub revoke_session : String → Time → Db → Bool × Db
revoke_session session_hash at db = (
  nat_beq (count_rows (is_live session_hash) db.operator_sessions) 1,
  record db {
    operator_sessions =
        update_where (is_live session_hash) (λ s. record s { revoked_at = some at })
          db.operator_sessions;
  },
)

-- `NewLoginFailure` has the fields of the row.
unfoldable pub record_login_failure : LoginFailure → Op (Unit {0})
record_login_failure new db =
    if exists_row (λ f. f.id == new.id) db.login_failures
    then (err (database primary_key), db)
    else (ok tt, record db { login_failures = db.login_failures ++ new ∷ [] })

-- username = ? OR remote_ip = ?
abbrev pub is_failure_of : String → String → LoginFailure → Bool
is_failure_of username remote_ip f = f.username == username || f.remote_ip == remote_ip

unfoldable pub clear_login_failures : String → String → Db → ℕ × Db
clear_login_failures username remote_ip db = (
  count_rows (is_failure_of username remote_ip) db.login_failures,
  record db { login_failures = delete_where (is_failure_of username remote_ip) db.login_failures },
)

-- `failed_at >= ?` compares the RFC3339 texts.
unfoldable pub count_login_failures_since : (Time → Time → Bool) → String → String → Time → Db → ℕ
count_login_failures_since text_before username remote_ip since db =
    count_rows (λ f. is_failure_of username remote_ip f && not (text_before f.failed_at since))
      db.login_failures

unfoldable pub insert_audit_event : AuditEvent → Op AuditEvent
insert_audit_event new = transaction (do insert_audit_event_tx new; pure new)

abbrev pub concerns : String → AuditEvent → Bool
concerns recording_id e = elim e.recording_id [ none ↦ false | some id ↦ id == recording_id ]

unfoldable pub list_audit_events_for_recording :
    (Time → Time → Bool) → String → Db → List AuditEvent
list_audit_events_for_recording text_before recording_id db =
    sort_by (λ a b. text_before a.occurred_at b.occurred_at)
      (select (concerns recording_id) db.audit_events)
