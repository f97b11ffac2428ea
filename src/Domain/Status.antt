-- ===== src/Domain/Status.antt =====
-- The Recording and Delivery statuses of src/domain.rs: their stored text, and the permitted
-- transitions.
pub mod Lifecycle
use telegraph_center.Base.{String, Bool, true, false, ◌==◌, if◌then◌else◌}

pub data RecordingStatus : Type 0 where
  received transcribing routing backlogged delivering delivered : RecordingStatus
  transcription_failed delivery_failed : RecordingStatus

-- `Result` of `parse`, with the text that is not a status
pub data Parsed (A : Type 0) : Type 0 where
  ok : A → Parsed A
  unknown : String → Parsed A

-- `InvalidTransition`
pub record InvalidTransition : Type 0 where
  pub source : RecordingStatus
  pub target : RecordingStatus

pub data TransitionResult : Type 0 where
  allowed : TransitionResult
  invalid : InvalidTransition → TransitionResult

unfoldable pub as_str : RecordingStatus → String
as_str received = "received"
as_str transcribing = "transcribing"
as_str routing = "routing"
as_str backlogged = "backlogged"
as_str delivering = "delivering"
as_str delivered = "delivered"
as_str transcription_failed = "transcription_failed"
as_str delivery_failed = "delivery_failed"

unfoldable pub parse : String → Parsed RecordingStatus
parse value =
    if value == "received"
    then ok received
    else if value == "transcribing"
    then ok transcribing
    else if value == "routing"
    then ok routing
    else if value == "backlogged"
    then ok backlogged
    else if value == "delivering"
    then ok delivering
    else if value == "delivered"
    then ok delivered
    else if value == "transcription_failed"
    then ok transcription_failed
    else if value == "delivery_failed"
    then ok delivery_failed
    else unknown value

abbrev pub can_transition_to : RecordingStatus → RecordingStatus → Bool
can_transition_to received transcribing = true
can_transition_to transcribing routing = true
can_transition_to transcribing transcription_failed = true
can_transition_to transcription_failed transcribing = true
can_transition_to routing backlogged = true
can_transition_to routing delivering = true
can_transition_to backlogged delivering = true
can_transition_to delivering delivered = true
can_transition_to delivering delivery_failed = true
can_transition_to delivery_failed delivering = true
can_transition_to _ _ = false

unfoldable pub transition_to : RecordingStatus → RecordingStatus → TransitionResult
transition_to self next =
    if can_transition_to self next
    then allowed
    else invalid (record { source = self; target = next })

-- The equality that the source derives.
abbrev pub status_beq : RecordingStatus → RecordingStatus → Bool
status_beq received received = true
status_beq transcribing transcribing = true
status_beq routing routing = true
status_beq backlogged backlogged = true
status_beq delivering delivering = true
status_beq delivered delivered = true
status_beq transcription_failed transcription_failed = true
status_beq delivery_failed delivery_failed = true
status_beq _ _ = false
