-- ===== src/Examples/Discovery.antt =====
-- Candidates of which the third is written like the first.
use replays_fetcher.Base.{◌≡◌, List, [], ◌∷◌, codes}
use replays_fetcher.Types.{ReplayCandidate}
use replays_fetcher.Discovery.{Stringify, collect_candidate_diagnostics}
use replays_fetcher.Discovery.Unique.{collect_candidate_diagnostics-first_of_each}
use replays_fetcher.Examples.Page.{candidate_of}

-- Enough for candidates that differ in their filenames.
abbrev pub stringify : Stringify
stringify = record { of_candidate = λ c. c.filename; of_metadata = λ m. codes "{}" }

abbrev alike : List ReplayCandidate
alike = candidate_of (codes "a") ∷ candidate_of (codes "b") ∷ candidate_of (codes "a") ∷ []

collect_candidate_diagnostics-first_of_each_example :
    (collect_candidate_diagnostics stringify alike).candidates
    ≡ candidate_of (codes "a") ∷ candidate_of (codes "b") ∷ []
collect_candidate_diagnostics-first_of_each_example =
    collect_candidate_diagnostics-first_of_each stringify alike
