-- ===== src/Domain/Status/Lifecycle.antt =====
-- The stored texts and the transition table of src/domain.rs.
use telegraph_center.Base.{String, ◌≡◌, refl, ◌↔◌, arith, eq_iff}
use telegraph_center.Domain.Status.{
  RecordingStatus, received, routing, backlogged, delivering, ok, as_str, parse, can_transition_to,
  status_beq,
}

-- Reading back a stored status gives the status.
pub parse-as_str : (s : RecordingStatus) → parse (as_str s) ≡ ok s
unfolding parse as_str
parse-as_str received = refl
parse-as_str _ = refl

as_str_of_parse : (v : String) (s : RecordingStatus) → parse v ≡ ok s → v ≡ as_str s
unfolding parse as_str
as_str_of_parse v s h = ground (
  arith,
  eq_iff v "received",
  eq_iff v "transcribing",
  eq_iff v "routing",
  eq_iff v "backlogged",
  eq_iff v "delivering",
  eq_iff v "delivered",
  eq_iff v "transcription_failed",
  eq_iff v "delivery_failed",
)

-- A text parses to a Recording status exactly when it is the stored form of that status.
pub parse_iff : (v : String) (s : RecordingStatus) → (parse v ≡ ok s) ↔ (v ≡ as_str s)
parse_iff v s = (as_str_of_parse v s, λ e. rw e (parse-as_str s))

-- The Backlog is entered only from `routing`, and left only for `delivering`.
pub backlog_edges :
    (s : RecordingStatus)
    → (can_transition_to s backlogged ≡ status_beq s routing)
      × (can_transition_to backlogged s ≡ status_beq s delivering)
backlog_edges s = ground arith
