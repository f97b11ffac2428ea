-- ===== src/Workers.antt =====
-- src/workers/mod.rs: what the ticks of the three workers share. An integration (Transcriber,
-- Router, SinkClient) is an argument of the tick.
pub mod Transcription
pub mod Routing
pub mod Delivery
pub mod Due
pub mod Settle
pub mod Settled
pub mod Loop
use telegraph_center.Base.{String, Option}
use telegraph_center.Domain.Entities
use telegraph_center.Domain.Entities.{Recording, Transcript}
use telegraph_center.Storage.Rows.{Db, Result, ok, err}
use telegraph_center.Storage.Tx.{Op}

pub data WorkOutcome : Type 0 where
  worked idle : WorkOutcome

-- the code and the message
pub data WorkerFailure : Type 0 where
  retryable terminal : String → String → WorkerFailure

pub record TranscriptionRequest : Type 0 where
  pub recording : Recording
  pub audio_path : String

pub record TranscriptionOutput : Type 0 where
  pub provider : String
  pub text : String
  pub raw_json : String
  pub provider_file_id : Option String
  pub provider_transcription_id : Option String

pub data RoutingDecision : Type 0 where
  sink : String → RoutingDecision
  backlog : RoutingDecision

pub record DeliveryRequest : Type 0 where
  pub recording : Recording
  pub delivery : Entities.Delivery
  pub transcript : Transcript

-- What an integration answers.
pub data Reply (A : Type 0) : Type 0 where
  success : A → Reply A
  failure : WorkerFailure → Reply A

-- A call of an integration, with what the rest of the service does to the database meanwhile.
abbrev pub Call : Type 0 → Type 0 → Type 0
Call A B = A → Db → Reply B × Db

-- Calls in sequence: `?` ends the tick at the first error, and what was committed stays.
infixl 5 ◌>>=◌ ◌>>◌
unfoldable pub ◌>>=◌ : {A B : Type 0} → Op A → (A → Op B) → Op B
◌>>=◌ m f db = let (r, db') = m db in elim r [ ok a ↦ f a db' | err e ↦ (err e, db') ]

abbrev pub ◌>>◌ : {A B : Type 0} → Op A → Op B → Op B
m >> k = m >>= λ _. k

abbrev pub done : {A : Type 0} → A → Op A
done a db = (ok a, db)

-- To await an integration.
abbrev pub calling : {A B : Type 0} → Call A B → A → Op (Reply B)
calling call a db = let (r, db') = call a db in (ok r, db')
