-- ===== src/Config/Bounds.antt =====
-- What a configuration that src/config.ts loads satisfies.
use replays_fetcher.Base.{◌≡◌, ℕ, true, Text, codes, arith, length, leb, ◌≤◌, ◌&&◌}
use replays_fetcher.Config.Holds.{
  Between, Bounded, Holds, Holds-bind, Holds-with_default, Holds-optional, Holds-required,
  Holds-any, Holds-if, in_range-Between, at_least-Holds, bounded_string-Bounded,
}
use replays_fetcher.Config.Defs.{
  SourceConfig, ConfigValue, flag, string, ConfigSource, Zod, in_range, at_least, bounded_string,
  transport_of, url_string, ranged, floored, string_or_undefined, source_config_fields,
  max_pages_of, concurrency_of, request_spacing_of, url_of, transport_of, ssh_host_of,
  ssh_command_of, timeout_of, retry_attempts_of, watch_interval_of, heartbeat_path_of,
}

abbrev pub IsUrl : Zod → Text → Type 0
IsUrl zod t = (zod.is_url t ≡ true) × (length t ≤ 2048)

-- What the fields of the schema ask for.
pub record IsInBounds (zod : Zod) (config : SourceConfig) : Type 0 where
  pub max_pages : Holds (λ n. 1 ≤ n) config.source_max_pages
  pub concurrency : Between 1 32 config.source_concurrency
  pub spacing : Between 0 5000 config.source_request_spacing_ms
  pub url : IsUrl zod config.source_url
  pub ssh_host : Holds (Bounded 253) config.source_ssh_host
  pub ssh_command : Bounded 2048 config.source_ssh_command
  pub timeout : 1 ≤ config.source_timeout_ms
  pub interval : Between 0 600000 config.watch_interval_ms
  pub heartbeat : Bounded 4096 config.watch_heartbeat_path

module _ (zod : Zod) where
  ranged-Between :
      (low high : ℕ) (v : ConfigValue) → Holds (Between low high) (ranged zod low high v)
  ranged-Between low high v =
      Holds-bind (λ _. Unit) (Between low high) (zod.coerce_int v) (in_range low high)
        (Holds-any (zod.coerce_int v)) (λ n _. in_range-Between low high n)

  floored-Holds : (low : ℕ) (v : ConfigValue) → Holds (λ k. low ≤ k) (floored zod low v)
  floored-Holds low v =
      Holds-bind (λ _. Unit) (λ k. low ≤ k) (zod.coerce_int v) (at_least low)
        (Holds-any (zod.coerce_int v)) (λ n _. at_least-Holds low n)

  url_string-IsUrl : (v : ConfigValue) → Holds (IsUrl zod) (url_string zod v)
  url_string-IsUrl (string t) =
      Holds-if (IsUrl zod) (zod.is_url t && leb (length t) 2048) t
        (λ h. (ground (arith, h), ground (arith, h)))
  url_string-IsUrl (flag _) = tt

  max_pages_of-Holds :
      (source : ConfigSource) → Holds (Holds (λ n. 1 ≤ n)) (max_pages_of zod source)
  max_pages_of-Holds source =
      Holds-optional (λ n. 1 ≤ n) (floored zod 1) (floored-Holds 1)
        (source (codes "REPLAY_SOURCE_MAX_PAGES"))

  concurrency_of-Holds : (source : ConfigSource) → Holds (Between 1 32) (concurrency_of zod source)
  concurrency_of-Holds source =
      Holds-with_default (Between 1 32) 8 (ranged zod 1 32) (omega arith, omega arith)
        (ranged-Between 1 32) (source (codes "REPLAY_SOURCE_CONCURRENCY"))

  request_spacing_of-Holds :
      (source : ConfigSource) → Holds (Between 0 5000) (request_spacing_of zod source)
  request_spacing_of-Holds source =
      Holds-with_default (Between 0 5000) 250 (ranged zod 0 5000) (omega arith, omega arith)
        (ranged-Between 0 5000) (source (codes "REPLAY_SOURCE_REQUEST_SPACING_MS"))

  url_of-Holds : (source : ConfigSource) → Holds (IsUrl zod) (url_of zod source)
  url_of-Holds source =
      Holds-required (IsUrl zod) (url_string zod) url_string-IsUrl
        (source (codes "REPLAY_SOURCE_URL"))

  ssh_host_of-Holds : (source : ConfigSource) → Holds (Holds (Bounded 253)) (ssh_host_of zod source)
  ssh_host_of-Holds source =
      Holds-optional (Bounded 253) (bounded_string 253) (bounded_string-Bounded 253)
        (string_or_undefined (source (codes "REPLAY_SOURCE_SSH_HOST")))

  ssh_command_of-Holds : (source : ConfigSource) → Holds (Bounded 2048) (ssh_command_of zod source)
  ssh_command_of-Holds source =
      Holds-with_default (Bounded 2048) (codes "curl -fsSL --max-time 30") (bounded_string 2048)
        (omega arith, omega arith) (bounded_string-Bounded 2048)
        (string_or_undefined (source (codes "REPLAY_SOURCE_SSH_COMMAND")))

  timeout_of-Holds : (source : ConfigSource) → Holds (λ k. 1 ≤ k) (timeout_of zod source)
  timeout_of-Holds source =
      Holds-with_default (λ k. 1 ≤ k) 30000 (floored zod 1) (omega arith) (floored-Holds 1)
        (source (codes "REPLAY_SOURCE_TIMEOUT_MS"))

  watch_interval_of-Holds :
      (source : ConfigSource) → Holds (Between 0 600000) (watch_interval_of zod source)
  watch_interval_of-Holds source =
      Holds-with_default (Between 0 600000) 0 (ranged zod 0 600000) (omega arith, omega arith)
        (ranged-Between 0 600000) (source (codes "REPLAY_WATCH_INTERVAL_MS"))

  heartbeat_path_of-Holds :
      (source : ConfigSource) → Holds (Bounded 4096) (heartbeat_path_of zod source)
  heartbeat_path_of-Holds source =
      Holds-with_default (Bounded 4096) (codes "/tmp/replays-fetcher-watch.heartbeat")
        (bounded_string 4096) (omega arith, omega arith) (bounded_string-Bounded 4096)
        (string_or_undefined (source (codes "REPLAY_WATCH_HEARTBEAT_PATH")))

  pub source_config_fields-IsInBounds :
      (source : ConfigSource) → Holds (IsInBounds zod) (source_config_fields zod source)
  unfolding source_config_fields
  source_config_fields-IsInBounds source =
      Holds-bind (Holds (λ n. 1 ≤ n)) (IsInBounds zod) (max_pages_of zod source) _
        (max_pages_of-Holds source)
        (λ max_pages h1.
          Holds-bind (Between 1 32) (IsInBounds zod) (concurrency_of zod source) _
            (concurrency_of-Holds source)
            (λ concurrency h2.
              Holds-bind (Between 0 5000) (IsInBounds zod) (request_spacing_of zod source) _
                (request_spacing_of-Holds source)
                (λ request_spacing h3.
                  Holds-bind (IsUrl zod) (IsInBounds zod) (url_of zod source) _
                    (url_of-Holds source)
                    (λ url h4.
                      Holds-bind (λ _. Unit) (IsInBounds zod) (transport_of zod source) _
                        (Holds-any (transport_of zod source))
                        (λ transport _.
                          Holds-bind (Holds (Bounded 253)) (IsInBounds zod) (ssh_host_of zod source)
                            _ (ssh_host_of-Holds source)
                            (λ ssh_host h6.
                              Holds-bind (Bounded 2048) (IsInBounds zod) (ssh_command_of zod source)
                                _ (ssh_command_of-Holds source)
                                (λ ssh_command h7.
                                  Holds-bind (λ k. 1 ≤ k) (IsInBounds zod) (timeout_of zod source) _
                                    (timeout_of-Holds source)
                                    (λ timeout h8.
                                      Holds-bind (λ _. Unit) (IsInBounds zod)
                                        (retry_attempts_of zod source) _
                                        (Holds-any (retry_attempts_of zod source))
                                        (λ retry_attempts _.
                                          Holds-bind (Between 0 600000) (IsInBounds zod)
                                            (watch_interval_of zod source) _
                                            (watch_interval_of-Holds source)
                                            (λ watch_interval h10.
                                              Holds-bind (Bounded 4096) (IsInBounds zod)
                                                (heartbeat_path_of zod source) _
                                                (heartbeat_path_of-Holds source)
                                                (λ heartbeat_path h11. record {
                                                  max_pages = h1;
                                                  concurrency = h2;
                                                  spacing = h3;
                                                  url = h4;
                                                  ssh_host = h6;
                                                  ssh_command = h7;
                                                  timeout = h8;
                                                  interval = h10;
                                                  heartbeat = h11;
                                                })))))))))))
