-- ===== src/ContractCheck/Verdict.antt =====
-- What a result of src/contract-check/contract-check.ts says of the source.
use replays_fetcher.Base.{◌≡◌, ◌⊎◌, none, some, true, [], Text, ok, length}
use replays_fetcher.ContractCheck.Defs.{
  ContractCheckResult, contract_ok, contract_failed, ProbeClient,
}

-- The probe went through: the endpoint of the sample answered with JSON. Or it met a page that may be
-- empty or incomplete, with one warning, and read no endpoint. Or it failed, with no warning.
abbrev pub Says : {W : Type 0} → ProbeClient W → ContractCheckResult → Type 0
Says {W} client (contract_ok sample warnings) =
    ((warnings ≡ [])
      × ((raw_url body : Text) × (w w' : W) × (sample.raw_url ≡ some raw_url)
          × (client.fetch_text raw_url w ≡ (w', ok body))
          × (client.is_json body ≡ true)))
    ⊎ ((length warnings ≡ 1) × (sample.raw_url ≡ none))
Says client (contract_failed f) = f.warnings ≡ []
