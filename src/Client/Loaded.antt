-- ===== src/Client/Loaded.antt =====
-- The client of src/discovery/source-client.ts under a configuration that src/config.ts loaded.
use mathlib.Core.Path.{subst}
use replays_fetcher.Base.{◌≡◌, refl, ap, ◌∙◌, Option, none, some, List, Text, ok}
use replays_fetcher.Config.{
  SourceTransport, SourceConfig, ConfigSource, Zod, source_config_fields, super_refine,
  refine_fields, load_source_config,
}
use replays_fetcher.Config.Holds.{Bounded, Holds}
use replays_fetcher.Config.Bounds.{IsInBounds, source_config_fields-IsInBounds}
use replays_fetcher.Client.Fetch.{
  SourceWorld, ssh_with_host, ssh_fetch_text, fetch_text, fetch_text_by,
}

-- With the SSH transport there is a host, and the client reads through it.
abbrev pub ReadsByHost : {W : Type 0} → SourceWorld W → SourceConfig → Type 0
ReadsByHost js config =
    config.source_transport ≡ SourceTransport.ssh
    → (host : Text) × Bounded 253 host
      × (fetch_text js config ≡ ssh_with_host js config (some host))

super_refine_ok :
    (t : SourceTransport) (host : Option Text) (c config : SourceConfig)
    → super_refine t host c ≡ ok config
    → (c ≡ config) × (t ≡ SourceTransport.ssh → (h : Text) × (host ≡ some h))
super_refine_ok SourceTransport.ssh none c config e = cc
super_refine_ok SourceTransport.ssh (some h) c config e = (cc, λ _. (h, refl))
super_refine_ok SourceTransport.direct none c config e = (cc, λ d. cc)
super_refine_ok SourceTransport.direct (some h) c config e = (cc, λ d. cc)

module _ {W : Type 0} (js : SourceWorld W) (zod : Zod) where
  fetch_text-ssh :
      (config : SourceConfig) (host : Option Text)
      → config.source_transport ≡ SourceTransport.ssh
      → config.source_ssh_host ≡ host
      → fetch_text js config ≡ ssh_with_host js config host
  unfolding fetch_text ssh_fetch_text
  fetch_text-ssh config host t e = ap (fetch_text_by js config) t ∙ ap (ssh_with_host js config) e

  refined-IsLoaded :
      (c config : SourceConfig)
      → IsInBounds zod c
      → super_refine c.source_transport c.source_ssh_host c ≡ ok config
      → IsInBounds zod config × ReadsByHost js config
  refined-IsLoaded c config b e =
      let r = super_refine_ok c.source_transport c.source_ssh_host c config e in
      (
        subst (IsInBounds zod) r.0 b,
        subst (ReadsByHost js) r.0 (λ t.
            let (host, h) = r.1 t in
            (host, subst (Holds (Bounded 253)) h b.ssh_host, fetch_text-ssh c (some host) t h)),
      )

  fields-IsLoaded :
      (issues : List Text) (x : Option SourceConfig) (config : SourceConfig)
      → Holds (IsInBounds zod) x
      → refine_fields issues x ≡ ok config
      → IsInBounds zod config × ReadsByHost js config
  fields-IsLoaded issues none config b e = cc
  fields-IsLoaded issues (some c) config b e = refined-IsLoaded c config b e

  -- A configuration that loads has every field within its bounds, and where its transport is SSH it has a
  -- host, through which the client reads.
  pub load_source_config-IsLoaded :
      (source : ConfigSource) (config : SourceConfig)
      → load_source_config zod source ≡ ok config
      → IsInBounds zod config × ReadsByHost js config
  unfolding load_source_config
  load_source_config-IsLoaded source config e =
      fields-IsLoaded (zod.issues source) (source_config_fields zod source) config
        (source_config_fields-IsInBounds zod source) e
