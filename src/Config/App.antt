-- ===== src/Config/App.antt =====
-- src/config.ts, the configuration of a run, with S3 and the database. Next to what zod does, `toLowerCase`
-- is a parameter. A transform that throws is not caught by zod: its error leaves `safeParse`.
use replays_fetcher.Base.{
  Option, none, some, Bool, true, false, List, [], ◌∷◌, Text, codes, Result, ok, err, trim, text_eq,
  ◌||◌, if◌then◌else◌, ◌>>=◌,
}
use replays_fetcher.Config.Defs.{
  SourceConfig, ConfigValue, flag, string, ConfigSource, Zod, with_default, required,
  bounded_string, url_string, source_config_fields, super_refine,
}

pub record S3Config : Type 0 where
  pub endpoint : Text
  pub region : Text
  pub bucket : Text
  pub access_key_id : Text
  pub secret_access_key : Text
  pub force_path_style : Bool
  pub checkpoint_prefix : Text
  pub evidence_prefix : Text
  pub conditional_writes : Bool

pub record AppConfig : Type 0 where
  pub source : SourceConfig
  pub s3 : S3Config
  -- `staging.databaseUrl`
  pub database_url : Text

-- What `loadConfig` throws.
pub data ConfigThrown : Type 0 where
  config_validation_error : List Text → ConfigThrown
  plain_error : Text → ConfigThrown

pub record AppZod : Type 0 where
  pub zod : Zod
  -- `path: message` of each issue of `configSchema`, where a field is not as it asks
  pub issues : ConfigSource → List Text
  pub to_lower_case : Text → Text

abbrev pub includes : List Text → Text → Bool
includes [] t = false
includes (x ∷ xs) t = text_eq x t || includes xs t

abbrev pub affirmative_words : List Text
affirmative_words = codes "1" ∷ codes "true" ∷ codes "yes" ∷ codes "y" ∷ []

abbrev pub negative_words : List Text
negative_words = codes "0" ∷ codes "false" ∷ codes "no" ∷ codes "n" ∷ []

-- `none` where the transform throws.
abbrev pub boolean_of_word : Text → Option Bool
boolean_of_word normalized =
    if includes affirmative_words normalized
    then some true
    else if includes negative_words normalized
    then some false
    else none

unfoldable pub boolean_from_environment : (Text → Text) → Option ConfigValue → Option Bool
boolean_from_environment to_lower_case none = some true
boolean_from_environment to_lower_case (some (flag b)) = some b
boolean_from_environment to_lower_case (some (string t)) = boolean_of_word (to_lower_case (trim t))

abbrev pub refine_app : Result (List Text) SourceConfig → AppConfig → Result ConfigThrown AppConfig
refine_app (ok _) config = ok config
refine_app (err issues) config = err (config_validation_error issues)

abbrev pub refine_app_fields : List Text → Option AppConfig → Result ConfigThrown AppConfig
refine_app_fields issues none = err (config_validation_error issues)
refine_app_fields issues (some config) =
    refine_app
      (super_refine config.source.source_transport config.source.source_ssh_host config.source)
      config

module _ (app : AppZod) (source : ConfigSource) where
  -- The fields of `configSchema`, with the two flags.
  unfoldable pub app_config_fields : Bool → Bool → Option AppConfig
  app_config_fields force_path_style conditional_writes = do
    config ← source_config_fields app.zod source
    endpoint ← required (url_string app.zod) (source (codes "S3_ENDPOINT"))
    region ← required (bounded_string 64) (source (codes "S3_REGION"))
    bucket ← required (bounded_string 63) (source (codes "S3_BUCKET"))
    access_key_id ← required (bounded_string 128) (source (codes "S3_ACCESS_KEY_ID"))
    secret_access_key ← required (bounded_string 256) (source (codes "S3_SECRET_ACCESS_KEY"))
    checkpoint_prefix ←
        with_default (codes "checkpoints") (bounded_string 256)
          (source (codes "S3_CHECKPOINT_PREFIX"))
    evidence_prefix ←
        with_default (codes "runs") (bounded_string 256) (source (codes "S3_EVIDENCE_PREFIX"))
    database_url ← required (url_string app.zod) (source (codes "DATABASE_URL"))
    some record {
      source = config;
      s3 = record {
        endpoint = endpoint;
        region = region;
        bucket = bucket;
        access_key_id = access_key_id;
        secret_access_key = secret_access_key;
        force_path_style = force_path_style;
        checkpoint_prefix = checkpoint_prefix;
        evidence_prefix = evidence_prefix;
        conditional_writes = conditional_writes;
      };
      database_url = database_url;
    }

  abbrev pub with_flags : (path_style conditional : Option Bool) → Result ConfigThrown AppConfig
  with_flags (some path_style) (some conditional) =
      refine_app_fields (app.issues source) (app_config_fields path_style conditional)
  with_flags (some _) none = err (plain_error (codes "Expected boolean-like value"))
  with_flags none _ = err (plain_error (codes "Expected boolean-like value"))

  unfoldable pub load_config : Result ConfigThrown AppConfig
  load_config =
      with_flags (boolean_from_environment app.to_lower_case (source (codes "S3_FORCE_PATH_STYLE")))
        (boolean_from_environment app.to_lower_case
          (source (codes "S3_CHECKPOINT_CONDITIONAL_WRITES")))
