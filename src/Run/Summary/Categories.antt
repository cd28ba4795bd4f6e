-- ===== src/Run/Summary/Categories.antt =====
-- src/run/summary.ts: the list of the failure categories.
use replays_fetcher.Base.{ℕ, ◌≤◌, ◌<◌, ◌≡◌, ◌⊎◌, ◌↔◌, List, [], ◌∷◌, All, arith}
use replays_fetcher.Types.{RunFailureCategory}
use replays_fetcher.Run.Summary.Counting.{category_rank, insert_category, unique_categories}

-- Strictly in the order of the names, so each name at most once.
abbrev pub IsAscending : List RunFailureCategory → Type 0
IsAscending [] = Unit
IsAscending (c ∷ cs) = All (λ d. category_rank c < category_rank d) cs × IsAscending cs

abbrev pub Has : RunFailureCategory → List RunFailureCategory → Type 0
Has c [] = ⊥
Has c (d ∷ ds) = (c ≡ d) ⊎ Has c ds

category_rank-injective : (c d : RunFailureCategory) → category_rank c ≡ category_rank d → c ≡ d
category_rank-injective c d e = ground arith

Has-insert_category :
    (x c : RunFailureCategory) (cs : List RunFailureCategory)
    → Has x (insert_category c cs) ↔ ((x ≡ c) ⊎ Has x cs)
Has-insert_category x c [] = (λ h. h, λ h. h)
Has-insert_category x c (d ∷ ds) =
    ground (arith, Has-insert_category x c ds, category_rank-injective c d)

All-weaken :
    (a b : ℕ) (cs : List RunFailureCategory)
    → a ≤ b
    → All (λ d. b < category_rank d) cs
    → All (λ d. a < category_rank d) cs
All-weaken a b [] h k = tt
All-weaken a b (c ∷ cs) h k = (omega (arith, k.0), All-weaken a b cs h k.1)

All-insert_category :
    (n : ℕ) (c : RunFailureCategory) (cs : List RunFailureCategory)
    → n < category_rank c
    → All (λ d. n < category_rank d) cs
    → All (λ d. n < category_rank d) (insert_category c cs)
All-insert_category n c [] h k = (h, tt)
All-insert_category n c (d ∷ ds) h k = ground (arith, All-insert_category n c ds h k.1)

insert_category-IsAscending :
    (c : RunFailureCategory) (cs : List RunFailureCategory)
    → IsAscending cs
    → IsAscending (insert_category c cs)
insert_category-IsAscending c [] h = (tt, tt)
insert_category-IsAscending c (d ∷ ds) h = ground (
  arith,
  insert_category-IsAscending c ds h.1,
  All-weaken (category_rank c) (category_rank d) ds,
  All-insert_category (category_rank d) c ds,
)

-- The failure categories of a run are sorted and each stands there once; and a category stands there
-- exactly if it is one of those that the results gave rise to.
pub unique_categories_lem :
    (cs : List RunFailureCategory) (x : RunFailureCategory)
    → IsAscending (unique_categories cs) × (Has x (unique_categories cs) ↔ Has x cs)
unfolding unique_categories
unique_categories_lem [] x = (tt, (λ h. h, λ h. h))
unique_categories_lem (c ∷ cs) x =
    let (sorted, same) = unique_categories_lem cs x in
    (
      insert_category-IsAscending c (unique_categories cs) sorted,
      ground (arith, Has-insert_category x c (unique_categories cs), same),
    )
