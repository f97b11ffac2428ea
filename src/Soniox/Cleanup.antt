-- ===== src/Soniox/Cleanup.antt =====
-- src/soniox/mod.rs: the calls that the adapter makes, on every path.
use telegraph_center.Base.{
  ℕ, zero, suc, ◌≤◌, String, ◌≡◌, refl, sym, ◌∙◌, ap, subst, Option, none, some, List, [], ◌∷◌,
  ◌++◌, ◌==◌, eq_iff, arith, Bool-cases, inl, inr,
}
use mathlib.Core.List.{append-nil, append_assoc}
use telegraph_center.Base.Fallible.{Fallible, ok, err}
use telegraph_center.Config.{SonioxConfig}
use telegraph_center.Workers.{WorkerFailure, TranscriptionRequest}
use telegraph_center.Soniox.{SonioxError}
use telegraph_center.Soniox.Client.{CreateTranscriptionRequest}
use telegraph_center.Soniox.Adapter.{
  Call, upload_file, create_transcription, get_transcription, get_transcript, delete_transcription,
  delete_file, Log, Transport, Json, Progress, finished, in_progress, progress, progress_of,
  provider_status_error, poll_loop, poll, cleanup, cleanup_file, cleanup_transcription, fetched,
  polled, after_create, after_upload, run,
}

unfoldable pub repeat : ℕ → Call → Log
repeat zero call = []
repeat (suc n) call = call ∷ repeat n call

module _ {Value : Type 0} (json : Json Value) (decimal : ℕ → String)
    (to_lowercase : String → String) (transport : Transport Value) where
  -- The log after polling: at most so many polls more, and a status document that ends it well is
  -- that of a completed transcription.
  pub record Polled (max_polls : ℕ) (transcription_id : String) (log : Log)
      (q : Fallible WorkerFailure Value × Log) : Type 0 where
    pub polls : ℕ
    pub bounded : polls ≤ max_polls
    pub calls : q.1 ≡ log ++ repeat polls (get_transcription transcription_id)
    pub completed :
        (value : Value) → q.0 ≡ ok value → json.text_at "status" value ≡ some "completed"

  progress_completed :
      (r : Fallible SonioxError Value) (result : Fallible WorkerFailure Value) (value : Value)
      → progress json decimal to_lowercase transport r ≡ finished result
      → result ≡ ok value
      → json.text_at "status" value ≡ some "completed"
  unfolding progress provider_status_error
  progress_completed (err e) result value p q = cc
  progress_completed (ok v) result value p q = go (json.text_at "status" v) refl p
    where
      go :
          (o : Option String)
          → json.text_at "status" v ≡ o
          → progress_of json decimal to_lowercase transport v o ≡ finished result
          → json.text_at "status" value ≡ some "completed"
      go none e h = cc
      go (some text) e h = elim (Bool-cases (text == "completed")) [
        | inl done ↦
            let same = (eq_iff text "completed").0 done in
            let v_is : v ≡ value = ground (arith, h, q, done) in
            ap (json.text_at "status") (sym v_is) ∙ e ∙ ap some same
        | inr other ↦ absurd (ground (arith, h, q, other))
      ]

  poll_loop-Polled :
      (left : ℕ) (id : String) (timeout : WorkerFailure) (log : Log)
      → ((value : Value) → err timeout ≡ ok value → ⊥)
      → Polled left id log (poll_loop json decimal to_lowercase transport left id timeout log)
  unfolding poll_loop repeat
  poll_loop-Polled zero id timeout log no_value = record {
    polls = 0;
    bounded = omega arith;
    calls = sym (append-nil log);
    completed = λ value e. absurd (no_value value e);
  }
  poll_loop-Polled (suc left) id timeout log no_value =
      let log' = log ++ get_transcription id ∷ [] in
      go (progress json decimal to_lowercase transport (transport.status log')) refl
        (poll_loop-Polled left id timeout log' no_value)
    where
      go :
          (p : Progress json decimal to_lowercase transport)
          → progress json decimal to_lowercase transport
              (transport.status (log ++ get_transcription id ∷ []))
            ≡ p
          → Polled left id (log ++ get_transcription id ∷ []) (
              poll_loop json decimal to_lowercase transport left id timeout
                (log ++ get_transcription id ∷ []))
          → Polled (suc left) id log (
              let q : Fallible WorkerFailure Value × Log = elim p [
                | finished result ↦ (result, log ++ get_transcription id ∷ [])
                | in_progress ↦
                    poll_loop json decimal to_lowercase transport left id timeout
                      (log ++ get_transcription id ∷ [])
              ] in
              q)
      go (finished result) e rest = record {
        polls = 1;
        bounded = omega arith;
        calls = refl;
        completed = λ value f.
            progress_completed (transport.status (log ++ get_transcription id ∷ [])) result value e
              f;
      }
      go in_progress e rest = record {
        polls = suc rest.polls;
        bounded = omega (arith, rest.bounded);
        calls =
            rest.calls
            ∙ append_assoc log (get_transcription id ∷ [])
                (repeat rest.polls (get_transcription id));
        completed = rest.completed;
      }

  -- However the provider answers, polling ends after at most `max_polls` requests, all of them for
  -- the status of this transcription, and it gives a document only if that is of the status
  -- `completed`.
  pub poll-Polled :
      (max_polls : ℕ) (transcription_id : String) (log : Log)
      → Polled max_polls transcription_id log
          (poll json decimal to_lowercase transport max_polls transcription_id log)
  unfolding poll
  poll-Polled max_polls id log = poll_loop-Polled max_polls id _ log (λ value e. cc)

  -- The log ends with the deletion of what was made: the file, and the transcription before it,
  -- where the provider made one.
  abbrev pub IsCleaned : String → Fallible SonioxError String → Log → Type 0
  IsCleaned file_id (err error) log = (before : Log) × (log ≡ before ++ delete_file file_id ∷ [])
  IsCleaned file_id (ok transcription_id) log =
      (before : Log) × (log
        ≡ before ++ delete_transcription transcription_id ∷ delete_file file_id ∷ [])

  cleanup-IsCleaned :
      (t f : String) (log : Log)
      → IsCleaned f (ok t) (cleanup json decimal to_lowercase transport t f log)
  unfolding cleanup cleanup_file cleanup_transcription
  cleanup-IsCleaned t f log =
      (log, append_assoc log (delete_transcription t ∷ []) (delete_file f ∷ []))

  polled-IsCleaned :
      (t f : String) (q : Fallible WorkerFailure Value × Log)
      → IsCleaned f (ok t) (polled json decimal to_lowercase transport f t q).1
  polled-IsCleaned t f (err e, log) = cleanup-IsCleaned t f log
  polled-IsCleaned t f (ok status, log) = go (transport.transcript log') log'
    where
      log' : Log
      log' = log ++ get_transcript t ∷ []

      go :
          (r : Fallible SonioxError Value) (l : Log)
          → IsCleaned f (ok t) (fetched json decimal to_lowercase transport f t status (r, l)).1
      go (err e) l = cleanup-IsCleaned t f l
      go (ok v) l = cleanup-IsCleaned t f l

  created-IsCleaned :
      (max_polls : ℕ) (f : String) (r : Fallible SonioxError String) (log : Log)
      → IsCleaned f r (after_create json decimal to_lowercase transport max_polls f (r, log)).1
  unfolding cleanup_file
  created-IsCleaned max_polls f (err e) log = (log, refl)
  created-IsCleaned max_polls f (ok t) log = polled-IsCleaned t f _

  abbrev pub request_for : SonioxConfig → String → String → CreateTranscriptionRequest
  request_for config recording_id file_id = record {
    model = config.model;
    file_id = file_id;
    language_hints = config.language_hints;
    enable_speaker_diarization = config.enable_speaker_diarization;
    enable_language_identification = config.enable_language_identification;
    client_reference_id = recording_id;
  }

  -- Once the provider has taken the file, every run, whether it succeeds, fails at any later call or
  -- gives up polling, ends by asking for the deletion of that file, and of the transcription just
  -- before, where one was created.
  pub run-IsCleaned :
      (config : SonioxConfig) (max_polls : ℕ) (audio : List ℕ) (filename : String)
      (request : TranscriptionRequest) (log : Log) (file_id : String)
      → let uploading = log ++ upload_file audio filename request.recording.id ∷ [] in
        let creating =
          uploading
          ++ create_transcription (request_for config request.recording.id file_id) ∷ [] in
        transport.uploaded uploading ≡ ok file_id
        → IsCleaned file_id
            (transport.created creating)
            (run json decimal to_lowercase transport config max_polls
              (ok audio)
              filename
              request
              log).1
  unfolding run
  run-IsCleaned config max_polls audio filename request log file_id e =
      let uploading = log ++ upload_file audio filename request.recording.id ∷ [] in
      let creating =
        uploading ++ create_transcription (request_for config request.recording.id file_id) ∷ [] in
      subst
        (λ r.
          IsCleaned file_id (transport.created creating)
            (after_upload json decimal to_lowercase transport config max_polls request.recording.id
              (r, uploading)).1)
        (sym e) (created-IsCleaned max_polls file_id (transport.created creating) creating)
