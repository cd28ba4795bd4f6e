-- ===== src/Run/Ingest/Matches.antt =====
-- src/run/ingest-page.ts: the results of a page beside its candidates.
use mathlib.Core.Path.{subst}
use replays_fetcher.Base.{ℕ, ◌+◌, ◌≡◌, refl, sym, ap, ◌∙◌, List, [], ◌∷◌, ◌++◌, length}
use replays_fetcher.Types.{ReplayCandidate, StoreRawReplayResult, IngestStagingResult}
use replays_fetcher.Run.Ingest.Defs.{
  IngestPageResult, IngestPageInput, SettledCandidate, processed, skipped, run_schedule,
  start_tasks, completed, all_settled, fulfilled_values, fulfilled_in_order, tally_one, tally,
  empty_page, ingest_page,
}
use replays_fetcher.Run.Ingest.Tasks.{StoredFrom, StagedFrom, SkippedBy, scheduled-TasksOf}
use replays_fetcher.Run.Ingest.Values.{
  ValueOk, ValuesOf, all_settled-ValuesOf, sort_by_index-ValuesOf,
}
use replays_fetcher.Run.Ingest.Counts.{IsTallied, gather-completed, ingest_page_counts}

-- The candidates in order, each skipped by the gate, or with the next stored result, which the store
-- answered for it, and the next staging result, which the staging answered for that.
pub data Matched {W X : Type 0} (input : IngestPageInput W X)
    : List ReplayCandidate → List StoreRawReplayResult → List IngestStagingResult → Type 0 where
  nothing : Matched input [] [] []
  skip :
      {c : ReplayCandidate} {cs : List ReplayCandidate} {rs : List StoreRawReplayResult}
      {ss : List IngestStagingResult}
      → SkippedBy input c
      → Matched input cs rs ss
      → Matched input (c ∷ cs) rs ss
  pair :
      {c : ReplayCandidate} {raw : StoreRawReplayResult} {staging : IngestStagingResult}
      {cs : List ReplayCandidate} {rs : List StoreRawReplayResult} {ss : List IngestStagingResult}
      → StoredFrom input c raw
      → StagedFrom input raw staging
      → Matched input cs rs ss
      → Matched input (c ∷ cs) (raw ∷ rs) (staging ∷ ss)

append_assoc : {A : Type 0} (xs ys zs : List A) → (xs ++ ys) ++ zs ≡ xs ++ (ys ++ zs)
append_assoc [] ys zs = refl
append_assoc (x ∷ xs) ys zs = ap (λ r. x ∷ r) (append_assoc xs ys zs)

pub append_nil : {A : Type 0} (xs : List A) → xs ++ [] ≡ xs
append_nil [] = refl
append_nil (x ∷ xs) = ap (λ r. x ∷ r) (append_nil xs)

module _ {W X : Type 0} (input : IngestPageInput W X) where
  pub Matched-append :
      (cs ds : List ReplayCandidate) (rs qs : List StoreRawReplayResult)
      (ss ts : List IngestStagingResult)
      → Matched input cs rs ss
      → Matched input ds qs ts
      → Matched input (cs ++ ds) (rs ++ qs) (ss ++ ts)
  Matched-append [] ds [] qs [] ts nothing k = k
  Matched-append [] ds [] qs (_ ∷ _) ts h k = elim h [ ]
  Matched-append [] ds (_ ∷ _) qs ss ts h k = elim h [ ]
  Matched-append (c ∷ cs) ds rs qs ss ts (skip s h) k =
      skip s (Matched-append cs ds rs qs ss ts h k)
  Matched-append (c ∷ cs) ds (r ∷ rs) qs (s ∷ ss) ts (pair a b h) k =
      pair a b (Matched-append cs ds rs qs ss ts h k)

  Matched-skip_last :
      (c : ReplayCandidate) (cs : List ReplayCandidate) (rs : List StoreRawReplayResult)
      (ss : List IngestStagingResult)
      → SkippedBy input c
      → Matched input cs rs ss
      → Matched input (cs ++ c ∷ []) rs ss
  Matched-skip_last c cs rs ss s nothing = skip s nothing
  Matched-skip_last c (d ∷ cs) rs ss s (skip t h) = skip t (Matched-skip_last c cs rs ss s h)
  Matched-skip_last c (d ∷ cs) (r ∷ rs) (q ∷ ss) s (pair a b h) =
      pair a b (Matched-skip_last c cs rs ss s h)

  abbrev PageMatches : List ReplayCandidate → IngestPageResult → Type 0
  PageMatches cs r = Matched input cs r.raw_storage r.staging

  tally_one-Matched :
      (c : ReplayCandidate) (v : SettledCandidate) (cs : List ReplayCandidate)
      (r : IngestPageResult)
      → ValueOk input c v
      → PageMatches cs r
      → PageMatches (cs ++ c ∷ []) (tally_one v r)
  tally_one-Matched c (skipped i) cs r h k = Matched-skip_last c cs r.raw_storage r.staging h k
  tally_one-Matched c (processed i raw staging) cs r (a, b) k =
      Matched-append cs (c ∷ []) r.raw_storage (raw ∷ []) r.staging (staging ∷ []) k
        (pair a b nothing)

  tally-Matched :
      (n : ℕ) (cs ds : List ReplayCandidate) (vs : List SettledCandidate) (r : IngestPageResult)
      → ValuesOf input n ds vs
      → PageMatches cs r
      → PageMatches (cs ++ ds) (tally vs r)
  unfolding tally
  tally-Matched n cs [] [] r h k = subst (λ l. PageMatches l r) (sym (append_nil cs)) k
  tally-Matched n cs [] (v ∷ vs) r h k = elim h [ ]
  tally-Matched n cs (d ∷ ds) [] r h k = elim h [ ]
  tally-Matched n cs (d ∷ ds) (v ∷ vs) r (_, o, h) k =
      subst (λ l. PageMatches l (tally vs (tally_one v r))) (append_assoc cs (d ∷ []) ds)
        (tally-Matched (n + 1) (cs ++ d ∷ []) ds vs (tally_one v r) h
          (tally_one-Matched d v cs r o k))

  -- Where a page is ingested, by whatever interleaving of the tasks: going through the candidates in
  -- order, each was skipped by the gate, or has the next stored result, which the store answered for it,
  -- and beside it the next staging result, which the staging answered for that stored result. The counts
  -- of stored, staged and failed agree with these results, and the candidates discovered are those that
  -- were skipped and those with a result.
  pub ingest_page-Matched :
      (candidates : List ReplayCandidate) (schedule : List ℕ) (w : W) (r : IngestPageResult)
      → (ingest_page input candidates schedule w).1 ≡ completed r
      → Matched input candidates r.raw_storage r.staging
        × IsTallied r
        × (r.counts.discovered ≡ length candidates)
        × (r.counts.skipped_by_source_id + length r.raw_storage ≡ length candidates)
  unfolding ingest_page fulfilled_in_order
  ingest_page-Matched candidates schedule w r h =
      let ts = (run_schedule input schedule (start_tasks {X = X} 0 candidates) w).1 in
      let (ss, all, fine, e) = gather-completed (length candidates) (all_settled ts) r h in
      let values = fulfilled_values ss in
      let ordered =
        all_settled-ValuesOf input 0 candidates ts ss
          (scheduled-TasksOf input schedule candidates w) all fine in
      let matched =
        tally-Matched 0 [] candidates values (empty_page (length candidates)) ordered nothing in
      let same =
        ap (λ vs. tally vs (empty_page (length candidates)))
          (sort_by_index-ValuesOf input 0 candidates values ordered) in
      let (tallied, discovered, accounted) = ingest_page_counts input candidates schedule w r h in
      (
        subst (λ r. PageMatches candidates r) (sym (e ∙ same)) matched,
        tallied,
        discovered,
        accounted,
      )
