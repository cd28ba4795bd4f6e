-- ===== src/Config/Defs.antt =====
-- src/config.ts, the configuration of the source. The environment is a function of the name. What zod does
-- is a parameter: the coercion to a whole number, the test for a URL, and the issues that it reports.
use replays_fetcher.Base.{
  ℕ, Option, none, some, Bool, List, [], ◌∷◌, Text, codes, Result, ok, err, length, leb, ◌&&◌,
  is_empty, trim, text_eq, if◌then◌else◌, ◌>>=◌,
}
use replays_fetcher.Types.{Whole, non_negative, negative}

pub data SourceTransport : Type 0 where
  direct ssh : SourceTransport

pub record SourceConfig : Type 0 where
  pub source_max_pages : Option ℕ
  pub source_concurrency : ℕ
  pub source_request_spacing_ms : ℕ
  pub source_url : Text
  pub source_transport : SourceTransport
  pub source_ssh_host : Option Text
  pub source_ssh_command : Text
  pub source_timeout_ms : ℕ
  pub source_retry_attempts : ℕ
  pub watch_interval_ms : ℕ
  pub watch_heartbeat_path : Text

-- The value of a variable.
pub data ConfigValue : Type 0 where
  flag : Bool → ConfigValue
  string : Text → ConfigValue

abbrev pub ConfigSource : Type 0
ConfigSource = Text → Option ConfigValue

pub record Zod : Type 0 where
  -- `z.coerce.number().int()`
  pub coerce_int : ConfigValue → Option Whole
  -- `z.url()` on a string
  pub is_url : Text → Bool
  -- `path: message` of each issue of `sourceConfigSchema`, where a field is not as it asks
  pub issues : ConfigSource → List Text

-- `.min(low).max(high)`
abbrev pub in_range : ℕ → ℕ → Whole → Option ℕ
in_range low high (non_negative n) = if leb low n && leb n high then some n else none
in_range low high (negative n) = none

-- `.nonnegative()`, or with 1 `.positive()`
abbrev pub at_least : ℕ → Whole → Option ℕ
at_least low (non_negative n) = if leb low n then some n else none
at_least low (negative n) = none

-- `.default(value)`
abbrev pub with_default :
    {A : Type 0} → A → (ConfigValue → Option A) → Option ConfigValue → Option A
with_default a f none = some a
with_default a f (some v) = f v

-- `.optional()`
abbrev pub optional :
    {A : Type 0} → (ConfigValue → Option A) → Option ConfigValue → Option (Option A)
optional f none = some none
optional f (some v) = do a ← f v; some (some a)

abbrev pub required : {A : Type 0} → (ConfigValue → Option A) → Option ConfigValue → Option A
required f none = none
required f (some v) = f v

-- `z.string().min(1).max(high)`
abbrev pub bounded_string : ℕ → ConfigValue → Option Text
bounded_string high (string t) = if leb 1 (length t) && leb (length t) high then some t else none
bounded_string high (flag _) = none

-- `z.enum(SOURCE_TRANSPORTS)`
abbrev pub parse_transport : ConfigValue → Option SourceTransport
parse_transport (string t) =
    if text_eq t (codes "direct")
    then some SourceTransport.direct
    else if text_eq t (codes "ssh")
    then some SourceTransport.ssh
    else none
parse_transport (flag _) = none

abbrev pub string_or_undefined : Option ConfigValue → Option ConfigValue
string_or_undefined (some (string t)) = some (string t)
string_or_undefined _ = none

abbrev pub source_transport_or_undefined : Option ConfigValue → Option ConfigValue
source_transport_or_undefined (some (string t)) =
    if is_empty (trim t) then none else some (string t)
source_transport_or_undefined _ = none

module _ (zod : Zod) where
  -- `z.url().max(MAX_URL_LEN)`
  abbrev pub url_string : ConfigValue → Option Text
  url_string (string t) = if zod.is_url t && leb (length t) 2048 then some t else none
  url_string (flag _) = none

  abbrev pub ranged : ℕ → ℕ → ConfigValue → Option ℕ
  ranged low high v = do n ← zod.coerce_int v; in_range low high n

  abbrev pub floored : ℕ → ConfigValue → Option ℕ
  floored low v = do n ← zod.coerce_int v; at_least low n

  abbrev pub max_pages_of : ConfigSource → Option (Option ℕ)
  max_pages_of source = optional (floored 1) (source (codes "REPLAY_SOURCE_MAX_PAGES"))

  abbrev pub concurrency_of : ConfigSource → Option ℕ
  concurrency_of source = with_default 8 (ranged 1 32) (source (codes "REPLAY_SOURCE_CONCURRENCY"))

  abbrev pub request_spacing_of : ConfigSource → Option ℕ
  request_spacing_of source =
      with_default 250 (ranged 0 5000) (source (codes "REPLAY_SOURCE_REQUEST_SPACING_MS"))

  abbrev pub url_of : ConfigSource → Option Text
  url_of source = required url_string (source (codes "REPLAY_SOURCE_URL"))

  abbrev pub transport_of : ConfigSource → Option SourceTransport
  transport_of source =
      with_default SourceTransport.direct parse_transport
        (source_transport_or_undefined (source (codes "REPLAY_SOURCE_TRANSPORT")))

  abbrev pub ssh_host_of : ConfigSource → Option (Option Text)
  ssh_host_of source =
      optional (bounded_string 253) (string_or_undefined (source (codes "REPLAY_SOURCE_SSH_HOST")))

  abbrev pub ssh_command_of : ConfigSource → Option Text
  ssh_command_of source =
      with_default (codes "curl -fsSL --max-time 30") (bounded_string 2048)
        (string_or_undefined (source (codes "REPLAY_SOURCE_SSH_COMMAND")))

  abbrev pub timeout_of : ConfigSource → Option ℕ
  timeout_of source = with_default 30000 (floored 1) (source (codes "REPLAY_SOURCE_TIMEOUT_MS"))

  abbrev pub retry_attempts_of : ConfigSource → Option ℕ
  retry_attempts_of source =
      with_default 3 (floored 0) (source (codes "REPLAY_SOURCE_RETRY_ATTEMPTS"))

  abbrev pub watch_interval_of : ConfigSource → Option ℕ
  watch_interval_of source =
      with_default 0 (ranged 0 600000) (source (codes "REPLAY_WATCH_INTERVAL_MS"))

  abbrev pub heartbeat_path_of : ConfigSource → Option Text
  heartbeat_path_of source =
      with_default (codes "/tmp/replays-fetcher-watch.heartbeat") (bounded_string 4096)
        (string_or_undefined (source (codes "REPLAY_WATCH_HEARTBEAT_PATH")))

  -- The fields of `sourceConfigSchema` on `readSourceConfigInput(source)`.
  unfoldable pub source_config_fields : ConfigSource → Option SourceConfig
  source_config_fields source = do
    max_pages ← max_pages_of source
    concurrency ← concurrency_of source
    request_spacing ← request_spacing_of source
    url ← url_of source
    transport ← transport_of source
    ssh_host ← ssh_host_of source
    ssh_command ← ssh_command_of source
    timeout ← timeout_of source
    retry_attempts ← retry_attempts_of source
    watch_interval ← watch_interval_of source
    heartbeat_path ← heartbeat_path_of source
    some record {
      source_max_pages = max_pages;
      source_concurrency = concurrency;
      source_request_spacing_ms = request_spacing;
      source_url = url;
      source_transport = transport;
      source_ssh_host = ssh_host;
      source_ssh_command = ssh_command;
      source_timeout_ms = timeout;
      source_retry_attempts = retry_attempts;
      watch_interval_ms = watch_interval;
      watch_heartbeat_path = heartbeat_path;
    }

-- The check of the whole object.
abbrev pub super_refine :
    SourceTransport → Option Text → SourceConfig → Result (List Text) SourceConfig
super_refine SourceTransport.ssh none config = err (
    codes "sourceSshHost: REPLAY_SOURCE_SSH_HOST is required when REPLAY_SOURCE_TRANSPORT=ssh" ∷ [])
super_refine _ _ config = ok config

abbrev pub refine_fields : List Text → Option SourceConfig → Result (List Text) SourceConfig
refine_fields issues none = err issues
refine_fields issues (some config) =
    super_refine config.source_transport config.source_ssh_host config

-- The issues are those of the `ConfigValidationError` that is thrown.
unfoldable pub load_source_config : Zod → ConfigSource → Result (List Text) SourceConfig
load_source_config zod source = refine_fields (zod.issues source) (source_config_fields zod source)
