-- ===== src/Soniox/Client.antt =====
-- src/soniox/client.rs: how a response of the provider is read. The JSON parser is third-party code.
use Prim.Native.String.{◌++◌}
use telegraph_center.Base.{ℕ, String, Bool, Option, none, some, List, leb, ltb, ◌&&◌, if◌then◌else◌}
use telegraph_center.Base.Fallible.{Fallible, ok, err}
use telegraph_center.Soniox.{SonioxError, transport, decode, http}

pub record CreateTranscriptionRequest : Type 0 where
  pub model : String
  pub file_id : String
  pub language_hints : List String
  pub enable_speaker_diarization : Bool
  pub enable_language_identification : Bool
  pub client_reference_id : String

-- A response: its status, and its bytes or the error of reading them.
pub record HttpResponse : Type 0 where
  pub status : ℕ
  pub bytes : Fallible String (List ℕ)

abbrev pub is_success : ℕ → Bool
is_success status = leb 200 status && ltb status 300

abbrev pub first_of : Option String → Option String → Option String
first_of none other = other
first_of (some text) other = some text

-- `get` and `as_str` are those of `serde_json::Value`, `from_slice` its parser.
module _ {Value : Type 0} (get : String → Value → Option Value) (as_str : Value → Option String)
    (from_slice : List ℕ → Fallible String Value) where
  abbrev pub field : Value → String → Option String
  field source name = elim (get name source) [ none ↦ none | some value ↦ as_str value ]

  pub record ErrorFields : Type 0 where
    pub error_type : Option String
    pub message : Option String
    pub request_id : Option String

  abbrev pub fields_of : Value → ErrorFields
  fields_of source = record {
    error_type = first_of (field source "error_type") (field source "type");
    message = first_of (field source "message") (field source "error_message");
    request_id = first_of (field source "request_id") (field source "requestId");
  }

  unfoldable pub extract_error_fields : Value → ErrorFields
  extract_error_fields body = elim (get "error" body) [
    | none ↦ fields_of body
    | some source ↦ fields_of source
  ]

  unfoldable pub http_error : ℕ → List ℕ → SonioxError
  unfolding extract_error_fields
  http_error status bytes = elim (from_slice bytes) [
    | err e ↦ http status none none none
    | ok body ↦
        let fields = extract_error_fields body in
        http status fields.error_type fields.message fields.request_id
  ]

  abbrev pub parsed : ℕ → List ℕ → Fallible String Value → Fallible SonioxError Value
  parsed status bytes (ok value) = ok value
  parsed status bytes (err e) = err (decode e)

  unfoldable pub read_json : HttpResponse → Fallible SonioxError Value
  unfolding http_error
  read_json response = elim response.bytes [
    | err e ↦ err (transport e)
    | ok bytes ↦
        if is_success response.status
        then parsed response.status bytes (from_slice bytes)
        else err (http_error response.status bytes)
  ]

  unfoldable pub check_status : HttpResponse → Fallible SonioxError (Unit {0})
  unfolding http_error
  check_status response = if is_success response.status then ok tt else elim response.bytes [
    | err e ↦ err (transport e)
    | ok bytes ↦ err (http_error response.status bytes)
  ]

  unfoldable pub extract_id : Value → String → Fallible SonioxError String
  extract_id value what = elim (field value "id") [
    | none ↦ err (decode ("response missing " ++ what))
    | some id ↦ ok id
  ]
