-- ===== src/Webhook.antt =====
-- src/delivery/mod.rs, src/delivery/payload.rs, src/delivery/webhook.rs and src/delivery/hmac.rs:
-- the client of the Webhook Sinks. HMAC-SHA256, the JSON text of the payload, the texts of numbers
-- and instants, and the HTTP transport are arguments.
pub mod Laws
use Prim.Native.String.{◌++◌ as ◌<>◌}
use Prim.Native.Char.{Char}
use Prim.Native.String.{char_at, [] as nil, ◌∷◌ as ◌◂◌}
use telegraph_center.Base.{
  ℕ, ◌-◌, ◌/◌, ◌%◌, String, Bool, ◌&&◌, ◌||◌, true, false, Option, none, some, List, [], ◌∷◌, ◌++◌,
  ◌==◌, length, take, min, ltb, leb, nat_beq, if◌then◌else◌, map_option,
}
use telegraph_center.Base.Table.{select_one}
use telegraph_center.Base.Text.{trim, is_empty_text}
use telegraph_center.Base.Fallible.{Fallible, ok, err}
use telegraph_center.Retry.{Time}
use telegraph_center.Config.{Sink, webhook, WebhookSink}
use telegraph_center.Domain.Entities
use telegraph_center.Domain.Entities.{Recording, Transcript}
use telegraph_center.Workers.{
  WorkerFailure, retryable, terminal, DeliveryRequest, Reply, success, failure,
}

pub record ResolvedSink : Type 0 where
  pub name : String
  pub url : String
  pub secret : String

pub data WebhookBuildError : Type 0 where
  missing_secret blank_secret : String → WebhookBuildError

-- `env` is the environment of the process. The secret is kept as it is, spaces included.
unfoldable pub read_secret : (String → Option String) → String → Fallible WebhookBuildError String
read_secret env env_name = elim (env env_name) [
  | none ↦ err (missing_secret env_name)
  | some value ↦ if is_empty_text (trim value) then err (blank_secret env_name) else ok value
]

abbrev pub resolved :
    WebhookSink → Fallible WebhookBuildError String → Fallible WebhookBuildError ResolvedSink
resolved sink (err e) = err e
resolved sink (ok secret) = ok (record { name = sink.name; url = sink.url; secret = secret })

unfoldable pub resolve_sink :
    (String → Option String) → Sink → Fallible WebhookBuildError ResolvedSink
unfolding read_secret
resolve_sink env (webhook sink) = resolved sink (read_secret env sink.secret_env)

-- `collect`: the first error, or all Sinks.
abbrev pub collected :
    Fallible WebhookBuildError ResolvedSink
    → Fallible WebhookBuildError (List ResolvedSink)
    → Fallible WebhookBuildError (List ResolvedSink)
collected (err e) rest = err e
collected (ok sink) (err e) = err e
collected (ok sink) (ok rest) = ok (sink ∷ rest)

unfoldable pub resolve_sinks :
    (String → Option String) → List Sink → Fallible WebhookBuildError (List ResolvedSink)
unfolding resolve_sink
resolve_sinks env [] = ok []
resolve_sinks env (sink ∷ sinks) = collected (resolve_sink env sink) (resolve_sinks env sinks)

pub record TranscriptPayload : Type 0 where
  pub text : String

pub record WebhookPayload : Type 0 where
  pub event : String
  pub recording_id : String
  pub delivery_id : String
  pub client_id : String
  pub client_recording_id : String
  pub recorded_at : Option String
  pub received_at : String
  pub tags : List String
  pub transcript : TranscriptPayload

abbrev pub event : String
event = "recording.transcribed"

unfoldable pub build : (Time → String) → Recording → Entities.Delivery → Transcript → WebhookPayload
build format recording delivery transcript = record {
  event = event;
  recording_id = recording.id;
  delivery_id = delivery.id;
  client_id = recording.client_id;
  client_recording_id = recording.client_recording_id;
  recorded_at = map_option format recording.recorded_at;
  received_at = format recording.received_at;
  tags = recording.tags.values;
  transcript = record { text = transcript.text };
}

pub record WebhookHttpRequest : Type 0 where
  pub url : String
  pub headers : List (String × String)
  pub body : List ℕ

pub record WebhookResponse : Type 0 where
  pub status : ℕ
  pub body_excerpt : String

abbrev pub max_body_excerpt : ℕ
max_body_excerpt = 2048

-- The loop over the chunks of the response, after the bytes in `buffer`; the flag tells whether the
-- chunks end well.
unfoldable pub excerpt_loop : ℕ → List (List ℕ) → Bool → List ℕ → Option (List ℕ)
excerpt_loop max [] intact buffer =
    if leb max (length buffer) then some buffer else if intact then some buffer else none
excerpt_loop max (chunk ∷ chunks) intact buffer =
    let room = min (max - length buffer) (length chunk) in
    let rest = excerpt_loop max chunks intact (buffer ++ take room chunk) in
    if leb max (length buffer)
    then some buffer
    else if ltb room (length chunk)
    then some (buffer ++ take room chunk)
    else rest

-- The bytes of the excerpt, which the source then decodes by `from_utf8_lossy`.
unfoldable pub read_excerpt : List (List ℕ) → Bool → Option (List ℕ)
unfolding excerpt_loop
read_excerpt chunks intact = excerpt_loop max_body_excerpt chunks intact []

abbrev pub response_message : String → String → String
response_message status excerpt =
    if is_empty_text excerpt then "HTTP " <> status else "HTTP " <> (status <> (": " <> excerpt))

unfoldable pub map_response : (ℕ → String) → WebhookResponse → Reply (Unit {0})
map_response decimal response =
    let status = response.status in
    let message = response_message (decimal status) (trim response.body_excerpt) in
    let code = "webhook_http_" <> decimal status in
    if leb 200 status && ltb status 300
    then success tt
    else if leb 500 status || nat_beq status 429
    then failure (retryable code message)
    else failure (terminal code message)

-- `to_hex`: two lowercase digits for each byte
abbrev pub hex_digit : ℕ → Char
hex_digit n = char_at "0123456789abcdef" n

unfoldable pub to_hex : List ℕ → String
to_hex [] = nil
to_hex (byte ∷ bytes) = hex_digit (byte / 16) ◂ (hex_digit (byte % 16) ◂ to_hex bytes)

-- What the crates do for a delivery.
pub record Crates : Type 0 where
  pub decimal : ℕ → String
  pub format : Time → String
  -- `{:?}` of a text
  pub debug : String → String
  -- `serde_json::to_vec`
  pub to_vec : WebhookPayload → Fallible String (List ℕ)
  -- HMAC-SHA256 of a body under a secret
  pub mac : String → List ℕ → List ℕ

unfoldable pub sign : Crates → String → List ℕ → String
unfolding to_hex
sign crates secret body = to_hex (crates.mac secret body)

module _ (crates : Crates) (sinks : List ResolvedSink) where
  unfoldable pub find : String → Option ResolvedSink
  find name = select_one (λ s. s.name == name) sinks

  unfoldable pub request_for : ResolvedSink → DeliveryRequest → List ℕ → WebhookHttpRequest
  unfolding sign
  request_for sink request body = record {
    url = sink.url;
    headers =
        ("Content-Type", "application/json")
        ∷ ("X-Webhook-Signature", sign crates sink.secret body)
        ∷ ("X-Request-ID", request.delivery.id)
        ∷ ("X-Telegraph-Delivery-Id", request.delivery.id)
        ∷ [];
    body = body;
  }

  -- The HTTP request, or the failure that comes before it.
  unfoldable pub prepare : DeliveryRequest → Fallible WorkerFailure WebhookHttpRequest
  unfolding find request_for build
  prepare request = elim (find request.delivery.sink_name) [
    | none ↦ err (
        terminal "unknown_sink"
          ("no configured sink named " <> crates.debug request.delivery.sink_name))
    | some sink ↦
        elim (crates.to_vec
          (build crates.format request.recording request.delivery request.transcript)) [
            | err error ↦ err (terminal "payload_serialize" error)
            | ok body ↦ ok (request_for sink request body)
          ]
  ]

  -- `post` is the transport.
  unfoldable pub deliver :
      (WebhookHttpRequest → Fallible String WebhookResponse) → DeliveryRequest → Reply (Unit {0})
  unfolding prepare map_response
  deliver post request = elim (prepare request) [
    | err e ↦ failure e
    | ok http_request ↦ elim (post http_request) [
      | ok response ↦ map_response crates.decimal response
      | err error ↦ failure (retryable "webhook_transport" error)
    ]
  ]
