-- ===== src/Soniox/Adapter.antt =====
-- src/soniox/mod.rs: the adapter that transcribes one Recording. The provider is a parameter: each
-- answer of it is a function of the calls made before, so that it may change its mind. A call that
-- is made is added to the log of calls.
use Prim.Native.String.{◌++◌ as ◌<>◌}
use telegraph_center.Base.{
  ℕ, zero, suc, String, Option, none, some, List, [], ◌∷◌, ◌++◌, ◌==◌, if◌then◌else◌,
}
use telegraph_center.Base.Text.{trim, is_empty_text}
use telegraph_center.Base.Fallible.{Fallible, ok, err}
use telegraph_center.Config.{SonioxConfig}
use telegraph_center.Workers.{
  WorkerFailure, retryable, terminal, TranscriptionRequest, TranscriptionOutput,
}
use telegraph_center.Base.Int.{ℤ}
use telegraph_center.Soniox.{SonioxError, into_worker_failure}
use telegraph_center.Soniox.Render.{Token, render}
use telegraph_center.Soniox.Client.{CreateTranscriptionRequest}

pub data Call : Type 0 where
  -- the file name and the reference, with the audio
  upload_file : List ℕ → String → String → Call
  create_transcription : CreateTranscriptionRequest → Call
  get_transcription get_transcript delete_transcription delete_file : String → Call

abbrev pub Log : Type 0
Log = List Call

-- `SonioxTransport`, by the calls made before. The answer to a deletion is not used.
pub record Transport (Value : Type 0) : Type 0 where
  pub uploaded : Log → Fallible SonioxError String
  pub created : Log → Fallible SonioxError String
  pub status : Log → Fallible SonioxError Value
  pub transcript : Log → Fallible SonioxError Value

pub data SonioxBuildError : Type 0 where
  missing_api_key blank_api_key : String → SonioxBuildError

-- `env` is the environment of the process.
unfoldable pub read_api_key : (String → Option String) → String → Fallible SonioxBuildError String
read_api_key env env_name = elim (env env_name) [
  | none ↦ err (missing_api_key env_name)
  | some value ↦
      if is_empty_text (trim value) then err (blank_api_key env_name) else ok (trim value)
]

abbrev pub provider : String
provider = "soniox"

-- What the adapter asks of JSON values and of the crates around it.
pub record Json (Value : Type 0) : Type 0 where
  -- `get(name).and_then(Value::as_str)`
  pub text_at : String → Value → Option String
  -- `get("tokens")`, decoded by serde
  pub tokens : Value → Option (List Token)
  -- the text of an integer
  pub display : ℤ → String
  pub raw_json : Value → Value → String

abbrev pub unwrap_or_default : {A : Type 0} → A → Option A → A
unwrap_or_default default none = default
unwrap_or_default default (some a) = a

unfoldable pub render_transcript : {Value : Type 0} → Json Value → Value → String
render_transcript json transcript =
    render json.display (unwrap_or_default "" (json.text_at "text" transcript))
      (unwrap_or_default [] (json.tokens transcript))

abbrev pub or_else : Option String → Option String → Option String
or_else none other = other
or_else (some a) other = some a

abbrev pub status_code : Option String → String
status_code none = "soniox_status_error"
status_code (some kind) = "soniox_status_error_" <> kind

abbrev pub labelled : String → Option String → String
labelled label none = ""
labelled label (some text) = label <> text

module _ {Value : Type 0} (json : Json Value) (decimal : ℕ → String)
    (to_lowercase : String → String) (transport : Transport Value) where
  abbrev pub Step : Type 0 → Type 0
  Step A = Log → Fallible WorkerFailure A × Log

  unfoldable pub provider_status_error : Value → WorkerFailure
  provider_status_error value =
      let error_type = json.text_at "error_type" value in
      let message = or_else (json.text_at "error_message" value) (json.text_at "message" value) in
      terminal (status_code error_type) (
        "transcription failed"
        <> (labelled "; error_type=" error_type <> labelled "; message=" message))

  abbrev pub failed : SonioxError → WorkerFailure
  failed error = into_worker_failure decimal to_lowercase error

  -- What one status document means: an end, or another poll.
  pub data Progress : Type 0 where
    finished : Fallible WorkerFailure Value → Progress
    in_progress : Progress

  abbrev pub progress_of : Value → Option String → Progress
  progress_of value none =
      finished (err (terminal "soniox_decode" "transcription response missing status"))
  progress_of value (some text) =
      if text == "completed"
      then finished (ok value)
      else if text == "error"
      then finished (err (provider_status_error value))
      else in_progress

  unfoldable pub progress : Fallible SonioxError Value → Progress
  unfolding provider_status_error
  progress (err error) = finished (err (failed error))
  progress (ok value) = progress_of value (json.text_at "status" value)

  -- The loop, by the polls that are left; the waiting between them is not modelled.
  unfoldable pub poll_loop : ℕ → String → WorkerFailure → Step Value
  unfolding progress
  poll_loop zero transcription_id timeout log = (err timeout, log)
  poll_loop (suc left) transcription_id timeout log =
      let log' = log ++ get_transcription transcription_id ∷ [] in
      elim (progress (transport.status log')) [
        | finished result ↦ (result, log')
        | in_progress ↦ poll_loop left transcription_id timeout log'
      ]

  unfoldable pub poll : ℕ → String → Step Value
  unfolding poll_loop
  poll max_polls transcription_id = poll_loop max_polls transcription_id (
      retryable "soniox_poll_timeout"
        ("transcription not completed after " <> (decimal max_polls <> " polls")))

  unfoldable pub cleanup_transcription : String → Log → Log
  cleanup_transcription transcription_id log = log ++ delete_transcription transcription_id ∷ []

  unfoldable pub cleanup_file : String → Log → Log
  cleanup_file file_id log = log ++ delete_file file_id ∷ []

  unfoldable pub cleanup : String → String → Log → Log
  unfolding cleanup_transcription cleanup_file
  cleanup transcription_id file_id log =
      cleanup_file file_id (cleanup_transcription transcription_id log)

  -- the transcript is fetched
  abbrev pub fetched :
      String
      → String
      → Value
      → Fallible SonioxError Value × Log
      → Fallible WorkerFailure TranscriptionOutput × Log
  fetched file_id transcription_id status (err error, log) =
      (err (failed error), cleanup transcription_id file_id log)
  fetched file_id transcription_id status (ok transcript, log) = (
    ok (record {
      provider = provider;
      text = render_transcript json transcript;
      raw_json = json.raw_json status transcript;
      provider_file_id = some file_id;
      provider_transcription_id = some transcription_id;
    }),
    cleanup transcription_id file_id log,
  )

  -- the polling has ended
  abbrev pub polled :
      String
      → String
      → Fallible WorkerFailure Value × Log
      → Fallible WorkerFailure TranscriptionOutput × Log
  polled file_id transcription_id (err failure, log) =
      (err failure, cleanup transcription_id file_id log)
  polled file_id transcription_id (ok status, log) =
      let log' = log ++ get_transcript transcription_id ∷ [] in
      fetched file_id transcription_id status (transport.transcript log', log')

  -- the transcription is created, or the file is an orphan
  abbrev pub after_create :
      ℕ
      → String
      → Fallible SonioxError String × Log
      → Fallible WorkerFailure TranscriptionOutput × Log
  after_create max_polls file_id (err error, log) = (err (failed error), cleanup_file file_id log)
  after_create max_polls file_id (ok transcription_id, log) =
      polled file_id transcription_id (poll max_polls transcription_id log)

  abbrev pub after_upload :
      SonioxConfig
      → ℕ
      → String
      → Fallible SonioxError String × Log
      → Fallible WorkerFailure TranscriptionOutput × Log
  after_upload config max_polls recording_id (err error, log) = (err (failed error), log)
  after_upload config max_polls recording_id (ok file_id, log) =
      let log' =
        log
        ++ create_transcription (record {
          model = config.model;
          file_id = file_id;
          language_hints = config.language_hints;
          enable_speaker_diarization = config.enable_speaker_diarization;
          enable_language_identification = config.enable_language_identification;
          client_reference_id = recording_id;
        })
          ∷ [] in
      after_create max_polls file_id (transport.created log', log')

  -- `audio` is the content of the audio file, or the text of the error of reading it, and `filename`
  -- the last component of its path.
  unfoldable pub run :
      SonioxConfig
      → ℕ
      → Fallible String (List ℕ)
      → String
      → TranscriptionRequest
      → Step TranscriptionOutput
  unfolding poll cleanup cleanup_file
  run config max_polls (err error) filename request log =
      (err (terminal "soniox_audio_unreadable" ("cannot read audio file: " <> error)), log)
  run config max_polls (ok audio) filename request log =
      let log' = log ++ upload_file audio filename request.recording.id ∷ [] in
      after_upload config max_polls request.recording.id (transport.uploaded log', log')
