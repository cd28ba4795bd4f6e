-- ===== src/Checkpoint/Merge.antt =====
-- src/checkpoint/checkpoint.ts: the merge of two checkpoints.
use replays_fetcher.Base.{
  ◌≤◌, ◌<◌, ◌≡◌, ◌⊎◌, refl, Option, none, some, [], ◌∷◌, Text, text_eq, text_eq_iff, arith,
  if◌then◌else◌,
}
use replays_fetcher.Checkpoint.Defs.{
  Checkpoint, CheckpointPage, Pages, get_page, set_page, spread_pages, status_rank,
  merge_checkpoints,
}

-- How far a checkpoint is: its last page first, then how settled its status is.
abbrev pub ProgressLe : Checkpoint → Checkpoint → Type 0
ProgressLe a b =
    (a.last_completed_page < b.last_completed_page)
    ⊎ ((a.last_completed_page ≡ b.last_completed_page)
        × (status_rank a.status ≤ status_rank b.status))

pub ProgressLe-trans : (a b c : Checkpoint) → ProgressLe a b → ProgressLe b c → ProgressLe a c
ProgressLe-trans a b c h k = ground arith

pub ProgressLe-refl : (a : Checkpoint) → ProgressLe a a
ProgressLe-refl a = ground arith

-- A merge is at least as far as both of its sides, so that at equal pages a complete status is not
-- lost to a running one; its status and counts are those of one side; and its last discovered page
-- is no less than that of either.
pub merge-progress :
    (local remote : Checkpoint)
    → let merged = merge_checkpoints local remote in
      ProgressLe local merged
      × ProgressLe remote merged
      × (local.discovered_last_page ≤ merged.discovered_last_page)
      × (remote.discovered_last_page ≤ merged.discovered_last_page)
      × ((merged.status ≡ local.status) × (merged.counts ≡ local.counts)
          ⊎ (merged.status ≡ remote.status) × (merged.counts ≡ remote.counts))
unfolding merge_checkpoints
merge-progress local remote = ground arith

pub get_page-set_page :
    (key k : Text) (p : CheckpointPage) (ps : Pages)
    → get_page key (set_page k p ps) ≡ (if text_eq k key then some p else get_page key ps)
get_page-set_page key k p [] = refl
get_page-set_page key k p ((j, q) ∷ ps) =
    ground
      (arith, text_eq_iff k key, text_eq_iff j k, text_eq_iff j key, get_page-set_page key k p ps)

-- The keys of an object are distinct.
abbrev pub UniqueKeys : Pages → Type 0
UniqueKeys [] = Unit
UniqueKeys ((k, p) ∷ ps) = (get_page k ps ≡ none) × UniqueKeys ps

abbrev pub first_some : Option CheckpointPage → Option CheckpointPage → Option CheckpointPage
first_some none b = b
first_some (some a) b = some a

get_page-spread_pages :
    (key : Text) (local remote : Pages)
    → UniqueKeys remote
    → get_page key (spread_pages local remote)
      ≡ first_some (get_page key remote) (get_page key local)
get_page-spread_pages key local [] u = refl
get_page-spread_pages key local ((k, p) ∷ remote) u = ground (
  arith,
  get_page-spread_pages key (set_page k p local) remote u.1,
  get_page-set_page key k p local,
  text_eq_iff k key,
)

-- Where the keys of the remote pages are unique, the merged pages are the union of the pages of both
-- sides; where both have a page, the remote entry stands.
pub merge-pages :
    (local remote : Checkpoint) (key : Text)
    → UniqueKeys remote.pages
    → get_page key (merge_checkpoints local remote).pages
      ≡ first_some (get_page key remote.pages) (get_page key local.pages)
unfolding merge_checkpoints
merge-pages local remote key u = get_page-spread_pages key local.pages remote.pages u
