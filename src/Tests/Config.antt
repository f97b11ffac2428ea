-- ===== src/Tests/Config.antt =====
-- The results about the configuration, the tags and the router at concrete inputs.
use telegraph_center.Base.{
  String, ◌≡◌, refl, true, false, none, some, List, [], ◌∷◌, ◌++◌, All, ◌⊎◌, ◌==◌,
}
use telegraph_center.Base.Table.{exists_row, select_one}
use telegraph_center.Base.Fallible.{ok, ◌>>=◌}
use telegraph_center.Base.Text.{trim, to_ascii_lowercase, is_whitespace, first_then_all}
use telegraph_center.Domain.Entities.{Tags, Recording}
use telegraph_center.Domain.Status
use telegraph_center.Domain.Tags
use telegraph_center.Domain.Tags.Laws as TagLaws
use telegraph_center.Domain.Tags.Laws.{IsValid}
use telegraph_center.Config.{
  AppConfig, RawConfig, ClientConfig, RoutingRule, webhook, validate, matches, validate_clients,
  clients_onto, add_client, validate_operator, validate_soniox, validate_sinks, sinks_onto,
  add_sink,
}
use telegraph_center.Config.Laws as ConfigLaws
use telegraph_center.Config.Laws.{IsValidConfig}
use telegraph_center.Workers.{sink, backlog}
use telegraph_center.Rules
use telegraph_center.Rules.{first_match, route, from_config}

abbrev raw_tags : List String
raw_tags = " Journal" ∷ "diary" ∷ "JOURNAL " ∷ []

abbrev tags : Tags
tags = record { values = "journal" ∷ "diary" ∷ [] }

new_tags : Tags.new raw_tags ≡ ok tags
unfolding Tags.new exists_row select_one trim to_ascii_lowercase is_whitespace first_then_all
new_tags = refl

new-IsValid_example : IsValid tags
new-IsValid_example = TagLaws.new-IsValid raw_tags tags new_tags

abbrev raw : RawConfig
raw = record {
  server = record { listen = "127.0.0.1:8080"; public_base_path = "" };
  data_config = record { dir = "/srv/data"; max_upload_bytes = 268_435_456 };
  clients = record { name = "watch"; certificate_fingerprint = "sha256:aaa" } ∷ [];
  operator = record { username = "op"; password_hash_env = "HASH" };
  soniox = record {
    api_key_env = "KEY";
    model = "stt-async-v5";
    language_hints = "en" ∷ [];
    enable_speaker_diarization = true;
    enable_language_identification = false;
  };
  sinks =
      record {
        name = "journal";
        kind = "webhook";
        url = "http://127.0.0.1:8644/journal";
        secret_env = "SECRET";
        match_tags = raw_tags;
      }
      ∷ [];
}

abbrev config : AppConfig
config = record {
  server = raw.server;
  data_config = raw.data_config;
  clients = raw.clients;
  operator = raw.operator;
  soniox = raw.soniox;
  sinks =
      webhook (record {
        name = "journal";
        url = "http://127.0.0.1:8644/journal";
        secret_env = "SECRET";
        match_tags = tags;
      })
      ∷ [];
}

validated : validate raw ≡ ok config
unfolding validate validate_clients clients_onto add_client validate_operator validate_soniox
    validate_sinks sinks_onto add_sink ◌>>=◌ exists_row select_one trim to_ascii_lowercase
    is_whitespace first_then_all
validated = refl

validate-IsValidConfig_example : IsValidConfig config
validate-IsValidConfig_example = ConfigLaws.validate-IsValidConfig raw config validated

abbrev watch : ClientConfig
watch = record { name = "watch"; certificate_fingerprint = "sha256:aaa" }

watch_found : select_one (λ c. c.name == "watch") config.clients ≡ some watch
unfolding select_one
watch_found = refl

abbrev rule : RoutingRule
rule = record { sink_name = "journal"; match_tags = tags }

first_match_lem_example :
    (All (λ r. matches r tags ≡ false) (rule ∷ []) × (first_match (rule ∷ []) tags ≡ backlog))
    ⊎ ((before : List RoutingRule) × (r : RoutingRule) × (after : List RoutingRule) × (rule ∷ []
          ≡ before ++ r ∷ after)
        × All (λ x. matches x tags ≡ false) before
        × (matches r tags ≡ true)
        × (first_match (rule ∷ []) tags ≡ sink r.sink_name))
first_match_lem_example = Rules.first_match_lem (rule ∷ []) tags

abbrev recording_1 : Recording
recording_1 = record {
  id = "r1";
  client_id = "watch";
  client_recording_id = "w1";
  status = Status.routing;
  original_filename = none;
  blob_path = none;
  audio_size_bytes = none;
  audio_duration_ms = none;
  sample_rate_hz = none;
  channels = none;
  bits_per_sample = none;
  tags = record { values = "diary" ∷ [] };
  recorded_at = none;
  received_at = 10;
  selected_sink_name = none;
  latest_error = none;
  created_at = 10;
  updated_at = 10;
}

to_journal : route (from_config config) recording_1 ≡ sink "journal"
unfolding route from_config exists_row
to_journal = refl
