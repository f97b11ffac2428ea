-- ===== src/Http.antt =====
-- src/http/error.rs: the errors of the Client API, with the status, the code and the message that
-- the Client is sent.
pub mod Upload
use telegraph_center.Base.{ℕ, String}
use telegraph_center.Storage.Rows.{StorageError}

-- What went wrong inside, for the log of the service alone.
pub data Detail : Type 0 where
  storage : StorageError → Detail
  io : String → Detail

pub data ApiError : Type 0 where
  missing_fingerprint unknown_client missing_recording_id missing_audio multiple_audio : ApiError
  invalid_tags invalid_recorded_at recorded_at_in_future payload_too_large : ApiError
  unsupported_audio invalid_multipart : ApiError
  internal : Detail → ApiError

unfoldable pub status : ApiError → ℕ
status missing_fingerprint = 401
status unknown_client = 403
status missing_recording_id = 400
status missing_audio = 400
status multiple_audio = 400
status invalid_tags = 400
status invalid_recorded_at = 400
status recorded_at_in_future = 400
status invalid_multipart = 400
status payload_too_large = 413
status unsupported_audio = 415
status (internal detail) = 500

unfoldable pub code : ApiError → String
code missing_fingerprint = "missing_client_identity"
code unknown_client = "unknown_client"
code missing_recording_id = "missing_recording_id"
code missing_audio = "missing_audio"
code multiple_audio = "multiple_audio"
code invalid_tags = "invalid_tags"
code invalid_recorded_at = "invalid_recorded_at"
code recorded_at_in_future = "recorded_at_in_future"
code payload_too_large = "payload_too_large"
code unsupported_audio = "unsupported_audio"
code invalid_multipart = "invalid_multipart"
code (internal detail) = "internal_error"

unfoldable pub message : ApiError → String
message missing_fingerprint = "Missing client identity."
message unknown_client = "Client is not authorized."
message missing_recording_id = "Missing or empty client recording id."
message missing_audio = "Missing required audio field."
message multiple_audio = "Only one audio field is allowed."
message invalid_tags = "Tags must be a JSON array of valid tag strings."
message invalid_recorded_at = "recorded_at must be an RFC3339 timestamp."
message recorded_at_in_future = "recorded_at is too far in the future."
message payload_too_large = "Upload exceeds the maximum allowed size."
message unsupported_audio = "Audio must be a WAV file."
message invalid_multipart = "Request body is not valid multipart form data."
message (internal detail) = "An unexpected error occurred."

-- `ErrorBody` with the status of the response
pub record ErrorResponse : Type 0 where
  pub status_code : ℕ
  pub error : String
  pub text : String

unfoldable pub into_response : ApiError → ErrorResponse
unfolding status code message
into_response e = record { status_code = status e; error = code e; text = message e }
