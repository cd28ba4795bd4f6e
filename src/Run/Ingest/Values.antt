-- ===== src/Run/Ingest/Values.antt =====
-- src/run/ingest-page.ts: the values that the tasks of a page settle with.
use mathlib.Core.Path.{subst}
use replays_fetcher.Base.{ℕ, ◌+◌, ◌≡◌, refl, ap, ◌∙◌, Option, none, some, List, [], ◌∷◌, arith}
use replays_fetcher.Types.{ReplayCandidate}
use replays_fetcher.Run.Ingest.Defs.{
  IngestPageInput, SettledCandidate, processed, skipped, Settled, fulfilled, rejected, TaskState,
  Task, settled_state, cons_settled, all_settled, first_rejection, fulfilled_values, index_of,
  insert_by_index, sort_by_index,
}
use replays_fetcher.Run.Ingest.Tasks.{StoredFrom, StagedFrom, SkippedBy, StateOk, TasksOf}

module _ {W X : Type 0} (input : IngestPageInput W X) where
  abbrev pub ValueOk : ReplayCandidate → SettledCandidate → Type 0
  ValueOk c (skipped i) = SkippedBy input c
  ValueOk c (processed i raw staging) = StoredFrom input c raw × StagedFrom input raw staging

  -- The values that the tasks settle with, numbered from `n` on.
  abbrev pub ValuesOf : ℕ → List ReplayCandidate → List SettledCandidate → Type 0
  ValuesOf n [] [] = Unit
  ValuesOf n (c ∷ cs) (v ∷ vs) = (index_of v ≡ n) × ValueOk c v × ValuesOf (n + 1) cs vs
  ValuesOf n _ _ = ⊥

  value-inj :
      {u v : SettledCandidate}
      → ◌≡◌ {A = Option (Settled X)} (some (fulfilled u)) (some (fulfilled v))
      → u ≡ v
  value-inj e = ground (arith, e)

  settled_state-ValueOk :
      (c : ReplayCandidate) (i : ℕ) (s : TaskState X) (v : SettledCandidate)
      → StateOk input c s
      → settled_state i s ≡ some (fulfilled v)
      → (index_of v ≡ i) × ValueOk c v
  settled_state-ValueOk c i TaskState.to_check v h e = cc
  settled_state-ValueOk c i TaskState.to_store v h e = cc
  settled_state-ValueOk c i (TaskState.to_stage raw) v h e = cc
  settled_state-ValueOk c i (TaskState.done_thrown x) v h e = cc
  settled_state-ValueOk c i TaskState.done_skipped v h e =
      subst (λ v. (index_of v ≡ i) × ValueOk c v) (value-inj e) (refl, h)
  settled_state-ValueOk c i (TaskState.done_processed raw staging) v h e =
      subst (λ v. (index_of v ≡ i) × ValueOk c v) (value-inj e) (refl, h)

  some-inj : {A : Type 0} {a b : A} → ◌≡◌ {A = Option A} (some a) (some b) → a ≡ b
  some-inj e = ground (arith, e)

  consed-ValuesOf :
      (n : ℕ) (c : ReplayCandidate) (cs : List ReplayCandidate) (t : Task X) (s : Settled X)
      (ss : List (Settled X))
      → (t.index ≡ n) × (t.candidate ≡ c) × StateOk input t.candidate t.state
      → settled_state t.index t.state ≡ some s
      → (first_rejection ss ≡ none → ValuesOf (n + 1) cs (fulfilled_values ss))
      → first_rejection (s ∷ ss) ≡ none
      → ValuesOf n (c ∷ cs) (fulfilled_values (s ∷ ss))
  unfolding fulfilled_values first_rejection
  consed-ValuesOf n c cs t (rejected x) ss h q k f = cc
  consed-ValuesOf n c cs t (fulfilled v) ss (i, d, o) q k f =
      let (e, fine) = settled_state-ValueOk t.candidate t.index t.state v o q in
      (e ∙ i, subst (λ c. ValueOk c v) d fine, k f)

  cons-ValuesOf :
      (n : ℕ) (c : ReplayCandidate) (cs : List ReplayCandidate) (t : Task X)
      (o : Option (Settled X)) (rest : Option (List (Settled X))) (settled : List (Settled X))
      → (t.index ≡ n) × (t.candidate ≡ c) × StateOk input t.candidate t.state
      → settled_state t.index t.state ≡ o
      → ((ss : List (Settled X))
          → rest ≡ some ss
          → first_rejection ss ≡ none
          → ValuesOf (n + 1) cs (fulfilled_values ss))
      → cons_settled o rest ≡ some settled
      → first_rejection settled ≡ none
      → ValuesOf n (c ∷ cs) (fulfilled_values settled)
  cons-ValuesOf n c cs t none rest settled h q k e = cc
  cons-ValuesOf n c cs t (some s) none settled h q k e = cc
  cons-ValuesOf n c cs t (some s) (some ss) settled h q k e =
      subst (λ l. first_rejection l ≡ none → ValuesOf n (c ∷ cs) (fulfilled_values l)) (some-inj e)
        (consed-ValuesOf n c cs t s ss h q (k ss refl))

  pub all_settled-ValuesOf :
      (n : ℕ) (cs : List ReplayCandidate) (ts : List (Task X)) (settled : List (Settled X))
      → TasksOf input n cs ts
      → all_settled ts ≡ some settled
      → first_rejection settled ≡ none
      → ValuesOf n cs (fulfilled_values settled)
  unfolding all_settled
  all_settled-ValuesOf n [] [] settled h e =
      subst (λ l. first_rejection l ≡ none → ValuesOf n [] (fulfilled_values l)) (some-inj e)
        (unfold fulfilled_values in λ f. tt)
  all_settled-ValuesOf n [] (t ∷ ts) settled h e = elim h [ ]
  all_settled-ValuesOf n (c ∷ cs) [] settled h e = elim h [ ]
  all_settled-ValuesOf n (c ∷ cs) (t ∷ ts) settled (i, d, o, h) e =
      cons-ValuesOf n c cs t (settled_state t.index t.state) (all_settled ts) settled (i, d, o) refl
        (λ ss e f. all_settled-ValuesOf (n + 1) cs ts ss h e f) e

  -- Values that are numbered in order are left in that order.
  insert_by_index-ValuesOf :
      (v : SettledCandidate) (n : ℕ) (cs : List ReplayCandidate) (vs : List SettledCandidate)
      → index_of v + 1 ≡ n
      → ValuesOf n cs vs
      → insert_by_index v vs ≡ v ∷ vs
  unfolding insert_by_index
  insert_by_index-ValuesOf v n [] [] e h = refl
  insert_by_index-ValuesOf v n [] (u ∷ us) e h = elim h [ ]
  insert_by_index-ValuesOf v n (c ∷ cs) [] e h = elim h [ ]
  insert_by_index-ValuesOf v n (c ∷ cs) (u ∷ us) e (i, _, _) = ground (arith, e, i)

  pub sort_by_index-ValuesOf :
      (n : ℕ) (cs : List ReplayCandidate) (vs : List SettledCandidate)
      → ValuesOf n cs vs
      → sort_by_index vs ≡ vs
  unfolding sort_by_index
  sort_by_index-ValuesOf n [] [] h = refl
  sort_by_index-ValuesOf n [] (u ∷ us) h = elim h [ ]
  sort_by_index-ValuesOf n (c ∷ cs) [] h = elim h [ ]
  sort_by_index-ValuesOf n (c ∷ cs) (v ∷ vs) (i, _, h) =
      ap (insert_by_index v) (sort_by_index-ValuesOf (n + 1) cs vs h)
      ∙ insert_by_index-ValuesOf v (n + 1) cs vs (ap suc' i) h
    where
      suc' : ℕ → ℕ
      suc' n = n + 1
