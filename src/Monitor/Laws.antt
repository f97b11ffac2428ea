-- ===== src/Monitor/Laws.antt =====
-- The ends of a session in src/monitor/auth.rs: its deadlines and its revocation.
use telegraph_center.Base.{
  ℕ, ◌↔◌, ◌+◌, ◌≤◌, ◌<◌, min, String, ◌≡◌, refl, true, false, Option, none, some, List, [], ◌∷◌,
  arith, ◌==◌, is_some, Option-cases, Bool-cases, inl, inr, sym, ap, ◌∙◌,
}
use telegraph_center.Base.Table.{select_one, exists_row, update_where}
use telegraph_center.Retry.{Time}
use telegraph_center.Domain.Entities.{OperatorSession}
use telegraph_center.Storage.Rows.{Db}
use telegraph_center.Storage.Exclusive.{count_rows-exists_row}
use telegraph_center.Storage.Operators.{get_session, touch_session, revoke_session, is_live}
use telegraph_center.Monitor.{
  SessionValidity, active, evaluate_session, idle_ttl, authenticate, admit, AuthenticatedSession,
  decision, locked,
}

-- A session is usable exactly where it is not revoked and before both of its deadlines.
pub evaluate_session_lem :
    (s : OperatorSession) (now : Time)
    → (evaluate_session s now ≡ active)
      ↔ ((s.revoked_at ≡ none) × (now < s.absolute_expires_at) × (now < s.idle_expires_at))
unfolding evaluate_session
evaluate_session_lem s now = (λ e. ground arith, λ h. ground arith)

-- More failures never open a door: once the count locks, every larger count locks, and only a count
-- below five lets an attempt pass without waiting.
pub decision_mono : (m n : ℕ) → m ≤ n → decision m ≡ locked → decision n ≡ locked
unfolding decision
decision_mono m n h e = ground arith

revoked_rows :
    (hash : String) (at : Time) (rows : List OperatorSession) (s : OperatorSession)
    → select_one
        (λ r. r.session_hash == hash)
        (update_where (is_live hash) (λ r. record r { revoked_at = some at }) rows)
      ≡ some s
    → is_some s.revoked_at ≡ true
unfolding select_one update_where
revoked_rows hash at [] s e = cc
revoked_rows hash at (r ∷ rows) s e = ground (arith, revoked_rows hash at rows s)

not_live :
    (hash : String) (rows : List OperatorSession)
    → exists_row (λ r. r.session_hash == hash) rows ≡ false
    → exists_row (is_live hash) rows ≡ false
unfolding exists_row
not_live hash [] h = refl
not_live hash (r ∷ rows) h = ground (arith, not_live hash rows)

revoked_lem :
    (s : OperatorSession) (now : Time)
    → is_some s.revoked_at ≡ true
    → evaluate_session s now ≡ SessionValidity.revoked
unfolding evaluate_session
revoked_lem s now h = ground arith

touch_session-live :
    (hash : String) (seen_at idle : Time) (db : Db)
    → (touch_session hash seen_at idle db).0 ≡ true
    → exists_row (is_live hash) db.operator_sessions ≡ true
unfolding touch_session
touch_session-live hash seen_at idle db h =
    elim (Bool-cases (exists_row (is_live hash) db.operator_sessions)) [
      | inl live ↦ live
      | inr gone ↦
          let empty = count_rows-exists_row (is_live hash) db.operator_sessions gone in
          absurd (ground arith)
    ]

module _ (hash_token derive_csrf : String → String) (meanwhile : Db → Db) (token : String) where
  authenticate_found :
      (now : Time) (db : Db) (s : OperatorSession)
      → get_session (hash_token token) db ≡ some s
      → authenticate hash_token derive_csrf meanwhile token now db
        ≡ admit hash_token derive_csrf s (evaluate_session s now) token now (meanwhile db)
  unfolding authenticate
  authenticate_found now db s e =
      ap
        (λ o.
          (let r : Option (AuthenticatedSession hash_token derive_csrf) × Db = elim o [
            | none ↦ (none, meanwhile db)
            | some x ↦
                admit hash_token derive_csrf x (evaluate_session x now) token now (meanwhile db)
          ] in
            r))
        e

  authenticate_missing :
      (now : Time) (db : Db)
      → get_session (hash_token token) db ≡ none
      → authenticate hash_token derive_csrf meanwhile token now db ≡ (none, meanwhile db)
  unfolding authenticate
  authenticate_missing now db e =
      ap
        (λ o.
          (let r : Option (AuthenticatedSession hash_token derive_csrf) × Db = elim o [
            | none ↦ (none, meanwhile db)
            | some x ↦
                admit hash_token derive_csrf x (evaluate_session x now) token now (meanwhile db)
          ] in
            r))
        e

  -- On the database that a revocation leaves, authentication refuses the revoked token, at any time
  -- and whatever other requests do while it runs.
  pub logout_lem :
      (at now : Time) (db : Db)
      → (authenticate hash_token derive_csrf meanwhile token now
          (revoke_session (hash_token token) at db).1).0
        ≡ none
  unfolding revoke_session get_session admit
  logout_lem at now db =
      let after : Db = (revoke_session (hash_token token) at db).1 in
      elim (Option-cases (get_session (hash_token token) after)) [
        | inl missing ↦ ap (λ r. r.0) (authenticate_missing now after missing)
        | inr (s, found) ↦
            let gone =
              revoked_lem s now (revoked_rows (hash_token token) at db.operator_sessions s found) in
            ap (λ r. r.0)
              (authenticate_found now after s found
                ∙ ap (λ v. admit hash_token derive_csrf s v token now (meanwhile after)) gone)
      ]

  admit_sound :
      (s : OperatorSession) (v : SessionValidity) (now : Time) (db : Db)
      (a : AuthenticatedSession hash_token derive_csrf)
      → (admit hash_token derive_csrf s v token now db).0 ≡ some a
      → (v ≡ active)
        × (exists_row (is_live (hash_token token)) db.operator_sessions ≡ true)
        × (a.session.absolute_expires_at ≡ s.absolute_expires_at)
        × (a.session.idle_expires_at ≤ a.session.absolute_expires_at)
  unfolding admit
  admit_sound s active now db a e =
      elim (Bool-cases
        (touch_session (hash_token token) now (min (now + idle_ttl) s.absolute_expires_at) db).0) [
          | inl live ↦ (
            refl,
            touch_session-live (hash_token token) now _ db live,
            ground arith,
            ground arith,
          )
          | inr gone ↦ absurd (ground arith)
        ]
  admit_sound s _ now db a e = cc

  -- Where authentication admits a session, it was stored under the token's hash and active when it
  -- was read, a session of that hash is not revoked when it is refreshed, and its new idle deadline
  -- does not pass its absolute one, which is kept.
  pub authenticate_sound :
      (now : Time) (db : Db) (a : AuthenticatedSession hash_token derive_csrf)
      → (authenticate hash_token derive_csrf meanwhile token now db).0 ≡ some a
      → (s : OperatorSession) × (get_session (hash_token token) db ≡ some s)
        × (evaluate_session s now ≡ active)
        × (exists_row (is_live (hash_token token)) (meanwhile db).operator_sessions ≡ true)
        × (a.session.absolute_expires_at ≡ s.absolute_expires_at)
        × (a.session.idle_expires_at ≤ a.session.absolute_expires_at)
  authenticate_sound now db a e = elim (Option-cases (get_session (hash_token token) db)) [
    | inl missing ↦ absurd (nothing (sym (ap (λ r. r.0) (authenticate_missing now db missing)) ∙ e))
    | inr (s, found) ↦
        let (usable, live, same, capped) =
          admit_sound s (evaluate_session s now) now (meanwhile db) a
            (sym (ap (λ r. r.0) (authenticate_found now db s found)) ∙ e) in
        (s, found, usable, live, same, capped)
  ]
    where
      nothing : none ≡ some a → ⊥
      nothing q = cc
