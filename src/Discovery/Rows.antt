-- ===== src/Discovery/Rows.antt =====
-- The rows of a page of the listing, as src/discovery/discover-dedup.ts goes through them.
use replays_fetcher.Base.{
  ◌≡◌, refl, ℕ, ◌+◌, Option, none, some, Bool, true, false, List, [], ◌∷◌, length, length-append,
  Text, Result, ok, err, arith, Option-cases, Bool-cases, inl, inr,
}
use replays_fetcher.Discovery.Extract.{ReplayRowObservation}
use replays_fetcher.Discovery.Candidates.{row_candidate, Html}
use replays_fetcher.Discovery.Page.{
  DiscoverThrown, PageClient, PageProgress, RowOutcome, row_diagnostic, row_skipped, row_found,
  add_row, is_trustworthy_id, ask_gate, row_with_url, after_gate, after_detail,
  should_skip_pre_detail, discover_row, next_row, discover_rows,
}

abbrev pub row_total : PageProgress → ℕ
row_total p = length p.candidates + length p.diagnostics + p.skipped_pre_detail

add_row-row_total : (o : RowOutcome) (p : PageProgress) → row_total (add_row o p) ≡ row_total p + 1
unfolding add_row
add_row-row_total (row_diagnostic d) p = omega (arith, length-append p.diagnostics (d ∷ []))
add_row-row_total row_skipped p = omega arith
add_row-row_total (row_found c) p = omega (arith, length-append p.candidates (c ∷ []))

module _ {S X : Type 0} (html : Html) (client : PageClient S X) (page_url : Text) where
  abbrev Accounts :
      List ReplayRowObservation → PageProgress → Result (DiscoverThrown X) PageProgress → Type 0
  Accounts rows p r = (q : PageProgress) → r ≡ ok q → row_total q ≡ row_total p + length rows

  next_row-Accounts :
      (row : ReplayRowObservation) (rows : List ReplayRowObservation) (p : PageProgress)
      (rest : PageProgress → S → S × Result (DiscoverThrown X) PageProgress)
      (r : S × Result (DiscoverThrown X) RowOutcome)
      → ((p : PageProgress) (s : S) → Accounts rows p (rest p s).1)
      → Accounts (row ∷ rows) p (next_row html client p rest r).1
  next_row-Accounts row rows p rest (s, ok o) h q e =
      omega (arith, h (add_row o p) s q e, add_row-row_total o p)
  next_row-Accounts row rows p rest (s, err x) h q e = cc

  -- Where nothing is thrown, every row of a page is accounted for once: it is a candidate, it has a
  -- diagnostic, or it is counted as skipped.
  pub discover_rows_account :
      (rows : List ReplayRowObservation) (p : PageProgress) (s : S) (q : PageProgress)
      → (discover_rows html client page_url rows p s).1 ≡ ok q
      → row_total q ≡ row_total p + length rows
  unfolding discover_rows
  discover_rows_account [] p s q e = ground (arith, e)
  discover_rows_account (row ∷ rows) p s q e =
      next_row-Accounts row rows p (discover_rows html client page_url rows)
        (discover_row html client page_url row s) (discover_rows_account rows) q e

  -- Why a row may be skipped: the existence check said so.
  abbrev pub Staged : Option Text → S → S → Type 0
  Staged external_id s s' =
      (exists : Text → Text → S → S × Result (DiscoverThrown X) Bool) × (system : Text)
      × (id : Text) × (client.exists_by_source_identity ≡ some exists)
      × (client.source_system ≡ some system)
      × (external_id ≡ some id)
      × (is_trustworthy_id id ≡ true)
      × (exists system id s ≡ (s', ok true))

  gate-Staged :
      (external_id : Option Text) (s s' : S)
      → should_skip_pre_detail html client external_id s ≡ (s', ok true)
      → Staged external_id s s'
  unfolding should_skip_pre_detail
  gate-Staged external_id s s' e =
      go client.exists_by_source_identity client.source_system external_id refl refl refl e
    where
      go :
          (o : Option (Text → Text → S → S × Result (DiscoverThrown X) Bool))
          (system id : Option Text)
          → client.exists_by_source_identity ≡ o
          → client.source_system ≡ system
          → external_id ≡ id
          → ask_gate html client o system id s ≡ (s', ok true)
          → Staged external_id s s'
      go none system id a b c e = cc
      go (some f) none id a b c e = cc
      go (some f) (some system) none a b c e = cc
      go (some f) (some system) (some id) a b c e = elim (Bool-cases (is_trustworthy_id id)) [
        | inl t ↦ (f, system, id, a, b, c, t, ground (arith, e, t))
        | inr t ↦ ground (arith, e, t)
      ]

  detail-skips :
      {A : Type 0} (row : ReplayRowObservation) (row_url : Text) (s' : S)
      (r : S × Result (DiscoverThrown X) Text)
      → after_detail html client row row_url r ≡ (s', ok row_skipped)
      → A
  detail-skips row row_url s' (s, ok t) e = elim (Option-cases (row_candidate html row row_url t)) [
    | inl k ↦ absurd (ground (arith, e, k))
    | inr (c, k) ↦ absurd (ground (arith, e, k))
  ]
  detail-skips row row_url s' (s, err x) e = cc

  after_gate-Staged :
      (row : ReplayRowObservation) (row_url : Text) (s s' : S)
      (r : S × Result (DiscoverThrown X) Bool)
      → should_skip_pre_detail html client row.external_id s ≡ r
      → after_gate html client row row_url r ≡ (s', ok row_skipped)
      → Staged row.external_id s s'
  after_gate-Staged row row_url s s' (t, ok true) q e =
      gate-Staged row.external_id s s' (ground (arith, q, e))
  after_gate-Staged row row_url s s' (t, ok false) q e =
      detail-skips row row_url s' (client.fetch_text row_url client.detail_read_options t) e
  after_gate-Staged row row_url s s' (t, err x) q e = cc

  row_with_url-Staged :
      (row : ReplayRowObservation) (url : Option Text) (s s' : S)
      → row_with_url html client page_url row url s ≡ (s', ok row_skipped)
      → ((row_url : Text) × (url ≡ some row_url)) × Staged row.external_id s s'
  row_with_url-Staged row none s s' e = cc
  row_with_url-Staged row (some row_url) s s' e = (
    (row_url, refl),
    after_gate-Staged row row_url s s' (should_skip_pre_detail html client row.external_id s) refl
        e,
  )

  -- A row is skipped before its detail page is read only where it has a link and a trustworthy
  -- identifier, and the existence check for the source system answered that it is staged.
  pub discover_row_skipped :
      (row : ReplayRowObservation) (s s' : S)
      → discover_row html client page_url row s ≡ (s', ok row_skipped)
      → ((row_url : Text) × (row.url ≡ some row_url)) × Staged row.external_id s s'
  unfolding discover_row
  discover_row_skipped row s s' e = row_with_url-Staged row row.url s s' e
