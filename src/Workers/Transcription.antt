-- ===== src/Workers/Transcription.antt =====
-- src/workers/transcription.rs: one tick of the Transcription worker.
use telegraph_center.Base.{
  String, Bool, ◌||◌, false, Option, none, some, List, [], ◌∷◌, ltb, leb, if◌then◌else◌,
}
use telegraph_center.Base.Int.{pos}
use telegraph_center.Retry.{Time, next_retry_at, transcription_deadline}
use telegraph_center.Domain.Entities.{Recording, Transcript}
use telegraph_center.Blob.{BlobStore, full_path}
use telegraph_center.Storage.Tx.{Op}
use telegraph_center.Storage.Transcription.{
  TranscriptionRetryCandidate, TranscriptionAttemptStart, claim_received_for_transcription,
  transcription_retry_candidates, start_transcription_attempt, succeed_transcription,
  retry_transcription, fail_transcription,
}
use telegraph_center.Workers.{
  WorkOutcome, worked, idle, retryable, terminal, TranscriptionRequest, TranscriptionOutput, Reply,
  success, failure, Call, calling, done, ◌>>=◌, ◌>>◌,
}

-- A retry window that an Operator opened after the latest attempt.
unfoldable pub is_manual_retry : TranscriptionRetryCandidate → Bool
is_manual_retry c = elim c.retry_window_started_at [
  | none ↦ false
  | some window ↦ ltb c.last_attempt_finished_at window
]

unfoldable pub is_due : Time → TranscriptionRetryCandidate → Bool
unfolding is_manual_retry next_retry_at
is_due now c =
    is_manual_retry c
    || leb (next_retry_at c.last_attempt_finished_at (pos c.last_attempt_number)) now

-- the loop over the candidates
unfoldable pub first_due : Time → List TranscriptionRetryCandidate → Option Recording
unfolding is_due
first_due now [] = none
first_due now (c ∷ cs) = if is_due now c then some c.recording else first_due now cs

unfoldable pub transcript_of : Recording → TranscriptionOutput → Time → Transcript
transcript_of recording output finished_at = record {
  recording_id = recording.id;
  provider = output.provider;
  text = output.text;
  raw_json = output.raw_json;
  provider_file_id = output.provider_file_id;
  provider_transcription_id = output.provider_transcription_id;
  created_at = finished_at;
}

-- The outcome of the attempt is recorded: a retryable failure at or past the deadline is terminal.
unfoldable pub settle : String → Recording → Time → Time → Reply TranscriptionOutput → Op (Unit {0})
unfolding transcript_of transcription_deadline
settle attempt_id recording first_started_at finished_at (success output) = do
  succeed_transcription attempt_id finished_at (transcript_of recording output finished_at)
  done tt
settle attempt_id recording first_started_at finished_at (failure (retryable code message)) =
    if leb (transcription_deadline first_started_at recording.audio_duration_ms) finished_at
    then (do fail_transcription attempt_id recording.id finished_at code message; done tt)
    else retry_transcription attempt_id recording.id finished_at code message
settle attempt_id recording first_started_at finished_at (failure (terminal code message)) = do
  fail_transcription attempt_id recording.id finished_at code message
  done tt

unfoldable pub request_of : BlobStore → Recording → TranscriptionRequest
request_of blobs recording = record {
  recording = recording;
  audio_path = elim recording.blob_path [
    | none ↦ blobs.data_dir
    | some path ↦ full_path blobs path
  ];
}

module _ (text_before : Time → Time → Bool) where
  unfoldable pub pick_due_retry : Time → Op (Option Recording)
  unfolding first_due
  pick_due_retry now = do
    candidates ← transcription_retry_candidates text_before
    done (first_due now candidates)

  -- A received Recording, or else a due retry.
  unfoldable pub or_due_retry : Time → Option Recording → Op (Option Recording)
  unfolding pick_due_retry
  or_due_retry now (some recording) = done (some recording)
  or_due_retry now none = pick_due_retry now

  module _ (blobs : BlobStore) (transcribe : Call TranscriptionRequest TranscriptionOutput) where
    -- The attempt, unless another worker started one first.
    unfoldable pub run_attempt :
        String → Recording → Time → Option TranscriptionAttemptStart → Op WorkOutcome
    unfolding request_of settle
    run_attempt attempt_id recording finished_at none = done idle
    run_attempt attempt_id recording finished_at (some start) = do
      reply ← calling transcribe (request_of blobs recording)
      settle attempt_id recording start.first_started_at finished_at reply
      done worked

    unfoldable pub process : String → Time → Time → Option Recording → Op WorkOutcome
    unfolding run_attempt
    process attempt_id started_at finished_at none = done idle
    process attempt_id started_at finished_at (some recording) = do
      start ← start_transcription_attempt text_before attempt_id recording.id started_at
      run_attempt attempt_id recording finished_at start

    -- `started_at` and `finished_at` are the two readings of the clock, `attempt_id` the generated id.
    unfoldable pub tick_once : String → Time → Time → Op WorkOutcome
    unfolding or_due_retry process
    tick_once attempt_id started_at finished_at = do
      received ← claim_received_for_transcription text_before started_at
      work ← or_due_retry started_at received
      process attempt_id started_at finished_at work
