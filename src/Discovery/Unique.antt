-- ===== src/Discovery/Unique.antt =====
-- src/discovery/discover-dedup.ts: the candidates that the pass lets through.
use replays_fetcher.Base.{
  ◌≡◌, refl, sym, ap, true, List, [], ◌∷◌, ◌++◌, Text, text_eq, text_eq_iff, Bool-cases, inl, inr,
  arith, if◌then◌else◌,
}
use replays_fetcher.Types.{ReplayCandidate}
use replays_fetcher.Discovery.Dedup.{
  Stringify, Registry, has_text, register, register_all, collect_candidate_diagnostics,
}

append-nil : {A : Type 0} (xs : List A) → xs ++ [] ≡ xs
append-nil [] = refl
append-nil (x ∷ xs) = ap (λ ys. x ∷ ys) (append-nil xs)

append_assoc : {A : Type 0} (xs ys zs : List A) → (xs ++ ys) ++ zs ≡ xs ++ (ys ++ zs)
append_assoc [] ys zs = refl
append_assoc (x ∷ xs) ys zs = ap (λ r. x ∷ r) (append_assoc xs ys zs)

module _ (s : Stringify) where
  -- The candidates without those that are written like `t`.
  abbrev pub without : Text → List ReplayCandidate → List ReplayCandidate
  without t [] = []
  without t (c ∷ cs) =
      let rest = without t cs in if text_eq (s.of_candidate c) t then rest else c ∷ rest

  -- The first of the candidates that are written alike, in their order.
  abbrev pub first_of_each : List ReplayCandidate → List ReplayCandidate
  first_of_each [] = []
  first_of_each (c ∷ cs) = c ∷ without (s.of_candidate c) (first_of_each cs)

  abbrev without_all : List Text → List ReplayCandidate → List ReplayCandidate
  without_all [] cs = cs
  without_all (t ∷ ts) cs = without_all ts (without t cs)

  without_comm :
      (t u : Text) (cs : List ReplayCandidate) → without t (without u cs) ≡ without u (without t cs)
  without_comm t u [] = refl
  without_comm t u (c ∷ cs) = ground (arith, without_comm t u cs)

  without_twice : (t : Text) (cs : List ReplayCandidate) → without t (without t cs) ≡ without t cs
  without_twice t [] = refl
  without_twice t (c ∷ cs) = ground (arith, without_twice t cs)

  -- A text that is there need not be taken out again.
  without_all-without :
      (ts : List Text) (t : Text) (cs : List ReplayCandidate)
      → has_text t ts ≡ true
      → without_all ts (without t cs) ≡ without_all ts cs
  without_all-without [] t cs h = cc
  without_all-without (u ∷ us) t cs h = elim (Bool-cases (text_eq t u)) [
    | inl same ↦ let e = (text_eq_iff t u).0 same in rw e (rw (without_twice u cs) refl)
    | inr other ↦
        rw (without_comm u t cs)
          (without_all-without us t (without u cs) (ground (arith, other, h)))
  ]

  -- A candidate whose text is not there stays in front, and one whose text is there goes.
  without_all-cons :
      (ts : List Text) (c : ReplayCandidate) (cs : List ReplayCandidate)
      → without_all ts (c ∷ cs)
        ≡ (if has_text (s.of_candidate c) ts then without_all ts cs else c ∷ without_all ts cs)
  without_all-cons [] c cs = refl
  without_all-cons (t ∷ ts) c cs = ground (arith, without_all-cons ts c (without t cs))

  without_all-nil : (ts : List Text) → without_all ts [] ≡ []
  without_all-nil [] = refl
  without_all-nil (t ∷ ts) = without_all-nil ts

  register_all-output :
      (cs : List ReplayCandidate) (r : Registry)
      → (register_all s cs r).output ≡ r.output ++ without_all r.emitted (first_of_each cs)
  unfolding register_all register
  register_all-output [] r = rw (without_all-nil r.emitted) (sym (append-nil r.output))
  register_all-output (c ∷ cs) r = elim (Bool-cases (has_text (s.of_candidate c) r.emitted)) [
    | inl seen ↦ ground (
      arith,
      seen,
      register_all-output cs (register s c r),
      without_all-cons r.emitted c (without (s.of_candidate c) (first_of_each cs)),
      without_all-without r.emitted (s.of_candidate c) (first_of_each cs),
    )
    | inr fresh ↦ ground (
      arith,
      fresh,
      register_all-output cs (register s c r),
      without_all-cons r.emitted c (without (s.of_candidate c) (first_of_each cs)),
      append_assoc r.output (c ∷ [])
          (without_all r.emitted (without (s.of_candidate c) (first_of_each cs))),
    )
  ]

  -- The pass lets through exactly the first of the candidates that are written alike, in the order in
  -- which they came.
  pub collect_candidate_diagnostics-first_of_each :
      (cs : List ReplayCandidate)
      → (collect_candidate_diagnostics s cs).candidates ≡ first_of_each cs
  unfolding collect_candidate_diagnostics
  collect_candidate_diagnostics-first_of_each cs =
      register_all-output cs (record { output = []; emitted = []; seen = []; diagnostics = [] })
