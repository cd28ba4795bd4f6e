-- ===== src/Config/Flags.antt =====
-- Which settings make `loadConfig` of src/config.ts throw past its `ConfigValidationError`.
use replays_fetcher.Base.{
  ◌≡◌, ◌⊎◌, ◌↔◌, inl, inr, refl, Option, none, some, Bool, true, false, List, Text, codes, Result,
  err, trim, if◌then◌else◌, arith,
}
use replays_fetcher.Config.Defs.{
  SourceTransport, SourceConfig, ConfigValue, flag, string, ConfigSource, super_refine,
}
use replays_fetcher.Config.App.{
  AppConfig, AppZod, ConfigThrown, plain_error, includes, affirmative_words, negative_words,
  boolean_from_environment, refine_app, refine_app_fields, app_config_fields, with_flags,
  load_config,
}

-- A string that is none of the words for true and for false, in whatever case and with spaces around.
abbrev pub IsUnreadableFlag : (Text → Text) → Option ConfigValue → Type 0
IsUnreadableFlag to_lower_case v =
    (t : Text) × (v ≡ some (string t))
    × (includes affirmative_words (to_lower_case (trim t)) ≡ false)
    × (includes negative_words (to_lower_case (trim t)) ≡ false)

two_tests_none :
    (a n : Bool)
    → (if a then some true else if n then some false else none) ≡ none
    → (a ≡ false) × (n ≡ false)
two_tests_none true n e = cc
two_tests_none false true e = cc
two_tests_none false false e = (refl, refl)

flag_unreadable :
    (to_lower_case : Text → Text) (v : Option ConfigValue)
    → boolean_from_environment to_lower_case v ≡ none
    → IsUnreadableFlag to_lower_case v
unfolding boolean_from_environment
flag_unreadable to_lower_case none e = cc
flag_unreadable to_lower_case (some (flag b)) e = cc
flag_unreadable to_lower_case (some (string t)) e =
    let word = to_lower_case (trim t) in
    let h = two_tests_none (includes affirmative_words word) (includes negative_words word) e in
    (t, refl, h.0, h.1)

unreadable_flag :
    (to_lower_case : Text → Text) (v : Option ConfigValue)
    → IsUnreadableFlag to_lower_case v
    → boolean_from_environment to_lower_case v ≡ none
unfolding boolean_from_environment
unreadable_flag to_lower_case v (t, e, a, n) = rw (e, a, n) refl

module _ (app : AppZod) (source : ConfigSource) where
  abbrev pub IsPlainError : Result ConfigThrown AppConfig → Type 0
  IsPlainError r = (message : Text) × (r ≡ err (plain_error message))

  super_refine-not_plain :
      (t : SourceTransport) (host : Option Text) (c : SourceConfig) (config : AppConfig)
      → ¬ IsPlainError (refine_app (super_refine t host c) config)
  super_refine-not_plain SourceTransport.ssh none c config (m, e) = cc
  super_refine-not_plain SourceTransport.ssh (some h) c config (m, e) = cc
  super_refine-not_plain SourceTransport.direct none c config (m, e) = cc
  super_refine-not_plain SourceTransport.direct (some h) c config (m, e) = cc

  fields-not_plain :
      (issues : List Text) (x : Option AppConfig) → ¬ IsPlainError (refine_app_fields issues x)
  fields-not_plain issues none (m, e) = cc
  fields-not_plain issues (some c) p =
      super_refine-not_plain c.source.source_transport c.source.source_ssh_host c.source c p

  with_flags-plain :
      (a b : Option Bool) → IsPlainError (with_flags app source a b) → (a ≡ none) ⊎ (b ≡ none)
  with_flags-plain none b p = inl refl
  with_flags-plain (some a) none p = inr refl
  with_flags-plain (some a) (some b) p =
      absurd (fields-not_plain (app.issues source) (app_config_fields app source a b) p)

  plain-with_flags :
      (a b : Option Bool) → (a ≡ none) ⊎ (b ≡ none) → IsPlainError (with_flags app source a b)
  plain-with_flags none b h = (codes "Expected boolean-like value", refl)
  plain-with_flags (some a) none h = (codes "Expected boolean-like value", refl)
  plain-with_flags (some a) (some b) h = ground (arith, h)

  abbrev pub path_style_value : Option ConfigValue
  path_style_value = source (codes "S3_FORCE_PATH_STYLE")

  abbrev pub conditional_value : Option ConfigValue
  conditional_value = source (codes "S3_CHECKPOINT_CONDITIONAL_WRITES")

  -- Loading throws an error that is no `ConfigValidationError` exactly where one of the two flags is a
  -- string that is no word for true or false.
  pub load_config_throws_iff : IsPlainError (load_config app source) ↔ (
      IsUnreadableFlag app.to_lower_case path_style_value
      ⊎ IsUnreadableFlag app.to_lower_case conditional_value)
  unfolding load_config
  load_config_throws_iff =
      let a = boolean_from_environment app.to_lower_case path_style_value in
      let b = boolean_from_environment app.to_lower_case conditional_value in
      (
        λ p. elim (with_flags-plain a b p) [
          | inl e ↦ inl (flag_unreadable app.to_lower_case path_style_value e)
          | inr e ↦ inr (flag_unreadable app.to_lower_case conditional_value e)
        ],
        λ h. plain-with_flags a b (elim h [
          | inl u ↦ inl (unreadable_flag app.to_lower_case path_style_value u)
          | inr u ↦ inr (unreadable_flag app.to_lower_case conditional_value u)
        ]),
      )
