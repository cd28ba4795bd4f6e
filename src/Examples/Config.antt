-- ===== src/Examples/Config.antt =====
-- A configuration with the SSH transport, loaded from the environment.
use replays_fetcher.Base.{
  ◌⊎◌, ◌↔◌, ◌≡◌, refl, none, some, true, [], ◌∷◌, codes, err, text_eq, if◌then◌else◌,
}
use replays_fetcher.Types.{non_negative}
use replays_fetcher.Config.Flags.{
  IsUnreadableFlag, IsPlainError, path_style_value, conditional_value, load_config_throws_iff,
}
use replays_fetcher.Config.{
  SourceTransport, SourceConfig, string, ConfigSource, Zod, source_config_fields,
  load_source_config, AppZod, plain_error, boolean_from_environment, app_config_fields, load_config,
}
use replays_fetcher.Config.Bounds.{IsInBounds}
use replays_fetcher.Client.Loaded.{ReadsByHost, load_source_config-IsLoaded}
use replays_fetcher.Examples.Reads.{broken_source}

abbrev zod : Zod
zod = record {
  coerce_int = λ v. some (non_negative 4);
  is_url = λ t. true;
  issues = λ source. codes "sourceUrl: Invalid input" ∷ [];
}

abbrev environment : ConfigSource
environment name =
    if text_eq name (codes "REPLAY_SOURCE_URL")
    then some (string (codes "https://sg.zone/replays"))
    else if text_eq name (codes "REPLAY_SOURCE_TRANSPORT")
    then some (string (codes "ssh"))
    else if text_eq name (codes "REPLAY_SOURCE_SSH_HOST")
    then some (string (codes "sg-proxy"))
    else if text_eq name (codes "REPLAY_SOURCE_CONCURRENCY")
    then some (string (codes "4"))
    else none

abbrev loaded : SourceConfig
loaded = record {
  source_max_pages = none;
  source_concurrency = 4;
  source_request_spacing_ms = 250;
  source_url = codes "https://sg.zone/replays";
  source_transport = SourceTransport.ssh;
  source_ssh_host = some (codes "sg-proxy");
  source_ssh_command = codes "curl -fsSL --max-time 30";
  source_timeout_ms = 30000;
  source_retry_attempts = 3;
  watch_interval_ms = 0;
  watch_heartbeat_path = codes "/tmp/replays-fetcher-watch.heartbeat";
}

load_source_config-IsLoaded_example : IsInBounds zod loaded × ReadsByHost broken_source loaded
unfolding load_source_config source_config_fields
load_source_config-IsLoaded_example =
    load_source_config-IsLoaded broken_source zod environment loaded refl

-- Without the host the transport is refused.
host_required :
    load_source_config zod
      (λ name. if text_eq name (codes "REPLAY_SOURCE_SSH_HOST") then none else environment name)
    ≡ err (
        codes "sourceSshHost: REPLAY_SOURCE_SSH_HOST is required when REPLAY_SOURCE_TRANSPORT=ssh"
        ∷ [])
unfolding load_source_config source_config_fields
host_required = refl

abbrev app_zod : AppZod
app_zod = record {
  zod = zod;
  issues = λ source. codes "s3.endpoint: Invalid input" ∷ [];
  to_lower_case = λ t. t;
}

-- A flag that is no word for true or false.
abbrev flagged : ConfigSource
flagged name =
    if text_eq name (codes "S3_FORCE_PATH_STYLE") then some (string (codes "sometimes")) else none

load_config_throws_iff_example : IsPlainError app_zod flagged (load_config app_zod flagged) ↔ (
    IsUnreadableFlag app_zod.to_lower_case (path_style_value app_zod flagged)
    ⊎ IsUnreadableFlag app_zod.to_lower_case (conditional_value app_zod flagged))
load_config_throws_iff_example = load_config_throws_iff app_zod flagged

sometimes_throws :
    load_config app_zod flagged ≡ err (plain_error (codes "Expected boolean-like value"))
unfolding load_config boolean_from_environment app_config_fields source_config_fields
sometimes_throws = refl
