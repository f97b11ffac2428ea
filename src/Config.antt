-- ===== src/Config.antt =====
-- src/config.rs: the raw configuration that the crate `toml` deserializes, and its validation.
pub mod Laws
use Prim.Native.String.{len}
use text.Mathlib.Text.{starts_with}
use telegraph_center.Base.{
  ℕ, String, Bool, ◌&&◌, ◌||◌, true, false, List, [], ◌∷◌, ◌++◌, map, Option, ◌==◌, ltb,
  if◌then◌else◌, not,
}
use telegraph_center.Base.Table.{exists_row, select_one}
use telegraph_center.Base.Text.{trim, is_empty_text}
use telegraph_center.Base.Fallible.{Fallible, ok, err, ◌>>=◌}
use telegraph_center.Domain.Entities.{Tags, Recording}
use telegraph_center.Domain.Tags
use telegraph_center.Domain.Tags.{TagError, intersects}

pub record ServerConfig : Type 0 where
  pub listen : String
  pub public_base_path : String

pub record DataConfig : Type 0 where
  pub dir : String
  pub max_upload_bytes : ℕ

pub record ClientConfig : Type 0 where
  pub name : String
  pub certificate_fingerprint : String

pub record OperatorConfig : Type 0 where
  pub username : String
  pub password_hash_env : String

pub record SonioxConfig : Type 0 where
  pub api_key_env : String
  pub model : String
  pub language_hints : List String
  pub enable_speaker_diarization : Bool
  pub enable_language_identification : Bool

pub record WebhookSink : Type 0 where
  pub name : String
  pub url : String
  pub secret_env : String
  pub match_tags : Tags

pub data Sink : Type 0 where
  webhook : WebhookSink → Sink

abbrev pub sink_name : Sink → String
sink_name (webhook sink) = sink.name

abbrev pub match_tags : Sink → Tags
match_tags (webhook sink) = sink.match_tags

pub record AppConfig : Type 0 where
  pub server : ServerConfig
  pub data_config : DataConfig
  pub clients : List ClientConfig
  pub operator : OperatorConfig
  pub soniox : SonioxConfig
  pub sinks : List Sink

pub record RoutingRule : Type 0 where
  pub sink_name : String
  pub match_tags : Tags

unfoldable pub matches : RoutingRule → Tags → Bool
unfolding intersects
matches rule recording_tags = intersects rule.match_tags recording_tags

unfoldable pub client_by_fingerprint : AppConfig → String → Option ClientConfig
client_by_fingerprint config fingerprint =
    select_one (λ c. c.certificate_fingerprint == fingerprint) config.clients

unfoldable pub routing_rules : AppConfig → List RoutingRule
routing_rules config =
    map (λ s. record { sink_name = sink_name s; match_tags = match_tags s }) config.sinks

-- `ConfigError`; a text that is not TOML is refused by the crate `toml` before.
pub data ConfigError : Type 0 where
  empty duplicate_client_name duplicate_client_fingerprint duplicate_sink_name :
      String → ConfigError
  -- the sink and the kind, then the sink and the URL
  unsupported_sink_type invalid_sink_url : String → String → ConfigError
  invalid_match_tags : String → TagError → ConfigError

pub record RawSink : Type 0 where
  pub name : String
  pub kind : String
  pub url : String
  pub secret_env : String
  pub match_tags : List String

-- The other tables have the fields of the typed ones.
pub record RawConfig : Type 0 where
  pub server : ServerConfig
  pub data_config : DataConfig
  pub clients : List ClientConfig
  pub operator : OperatorConfig
  pub soniox : SonioxConfig
  pub sinks : List RawSink

unfoldable pub require_non_empty : String → String → Fallible ConfigError String
require_non_empty value field = if is_empty_text (trim value) then err (empty field) else ok value

abbrev pub reject_if : Bool → ConfigError → Fallible ConfigError (Unit {0})
reject_if true e = err e
reject_if false e = ok tt

-- one turn of the loop over the clients
unfoldable pub add_client :
    List ClientConfig → ClientConfig → Fallible ConfigError (List ClientConfig)
unfolding require_non_empty
add_client clients client = do
  name ← require_non_empty client.name "client name"
  fingerprint ← require_non_empty client.certificate_fingerprint "client certificate_fingerprint"
  known ← reject_if (exists_row (λ c. c.name == name) clients) (duplicate_client_name name)
  used ←
      reject_if (exists_row (λ c. c.certificate_fingerprint == fingerprint) clients)
        (duplicate_client_fingerprint fingerprint)
  ok (clients ++ record { name = name; certificate_fingerprint = fingerprint } ∷ [])

unfoldable pub clients_onto :
    List ClientConfig → List ClientConfig → Fallible ConfigError (List ClientConfig)
clients_onto clients [] = ok clients
clients_onto clients (client ∷ raw) = do more ← add_client clients client; clients_onto more raw

unfoldable pub validate_clients : List ClientConfig → Fallible ConfigError (List ClientConfig)
unfolding clients_onto
validate_clients raw = clients_onto [] raw

unfoldable pub validate_operator : OperatorConfig → Fallible ConfigError OperatorConfig
unfolding require_non_empty
validate_operator raw = do
  username ← require_non_empty raw.username "operator username"
  password_hash_env ← require_non_empty raw.password_hash_env "operator password_hash_env"
  ok (record { username = username; password_hash_env = password_hash_env })

unfoldable pub validate_soniox : SonioxConfig → Fallible ConfigError SonioxConfig
unfolding require_non_empty
validate_soniox raw = do
  api_key_env ← require_non_empty raw.api_key_env "soniox api_key_env"
  ok (record raw { api_key_env = api_key_env })

unfoldable pub is_http_url : String → Bool
is_http_url url =
    (starts_with url "http://" && ltb (len "http://") (len url))
    || (starts_with url "https://" && ltb (len "https://") (len url))

abbrev pub checked_tags : String → Fallible TagError Tags → Fallible ConfigError Tags
checked_tags sink (ok tags) = ok tags
checked_tags sink (err e) = err (invalid_match_tags sink e)

-- one turn of the loop over the sinks
unfoldable pub add_sink : List Sink → RawSink → Fallible ConfigError (List Sink)
unfolding require_non_empty is_http_url Tags.new
add_sink sinks sink = do
  name ← require_non_empty sink.name "sink name"
  known ← reject_if (exists_row (λ s. sink_name s == name) sinks) (duplicate_sink_name name)
  kind ← reject_if (not (sink.kind == "webhook")) (unsupported_sink_type name sink.kind)
  url ← reject_if (not (is_http_url sink.url)) (invalid_sink_url name sink.url)
  secret_env ← require_non_empty sink.secret_env "sink secret_env"
  tags ← checked_tags name (Tags.new sink.match_tags)
  ok (
      sinks
      ++ webhook
          (record { name = name; url = sink.url; secret_env = secret_env; match_tags = tags })
        ∷ [])

unfoldable pub sinks_onto : List Sink → List RawSink → Fallible ConfigError (List Sink)
sinks_onto sinks [] = ok sinks
sinks_onto sinks (sink ∷ raw) = do more ← add_sink sinks sink; sinks_onto more raw

unfoldable pub validate_sinks : List RawSink → Fallible ConfigError (List Sink)
unfolding sinks_onto
validate_sinks raw = sinks_onto [] raw

unfoldable pub validate : RawConfig → Fallible ConfigError AppConfig
unfolding validate_clients validate_operator validate_soniox validate_sinks
validate raw = do
  clients ← validate_clients raw.clients
  operator ← validate_operator raw.operator
  sinks ← validate_sinks raw.sinks
  soniox ← validate_soniox raw.soniox
  ok (record {
    server = raw.server;
    data_config = raw.data_config;
    clients = clients;
    operator = operator;
    soniox = soniox;
    sinks = sinks;
  })
