-- ===== src/Checkpoint/Defs.antt =====
-- src/checkpoint/checkpoint.ts: the data of a checkpoint, the resume page and the merge.
use replays_fetcher.Base.{
  ℕ, ◌+◌, max, Option, none, some, ltb, leb, ◌==◌, List, [], ◌∷◌, Text, text_eq, if◌then◌else◌,
}
use replays_fetcher.Types.{RunSourceFailure}

pub data CheckpointStatus : Type 0 where
  complete failed partial resumable running : CheckpointStatus

pub record PageCounts : Type 0 where
  pub discovered : ℕ
  pub failed : ℕ
  pub staged : ℕ
  pub stored : ℕ

pub record CheckpointPage : Type 0 where
  pub counts : PageCounts
  pub status : Text

-- `Record<string, CheckpointPage>`: the entries in the order in which they were added.
abbrev pub Pages : Type 0
Pages = List (Text × CheckpointPage)

pub record Checkpoint : Type 0 where
  pub counts : PageCounts
  pub created_at : Text
  pub discovered_last_page : ℕ
  pub last_completed_page : ℕ
  pub last_source_failure : Option RunSourceFailure
  pub pages : Pages
  pub run_id : Text
  pub source_url : Text
  pub status : CheckpointStatus
  pub updated_at : Text

-- `pages[key]`
abbrev pub get_page : Text → Pages → Option CheckpointPage
get_page key [] = none
get_page key ((k, p) ∷ ps) = if text_eq k key then some p else get_page key ps

-- `pages[key] = page`
abbrev pub set_page : Text → CheckpointPage → Pages → Pages
set_page key page [] = (key, page) ∷ []
set_page key page ((k, p) ∷ ps) =
    if text_eq k key then (k, page) ∷ ps else (k, p) ∷ set_page key page ps

-- `{ ...local, ...remote }`
abbrev pub spread_pages : Pages → Pages → Pages
spread_pages local [] = local
spread_pages local ((k, p) ∷ remote) = spread_pages (set_page k p local) remote

-- `JSON.parse` and the schema's `safeParse` are libraries: together they read a text or not.
unfoldable pub parse_checkpoint :
    {J : Type 0} → (Text → Option J) → (J → Option Checkpoint) → Text → Option Checkpoint
parse_checkpoint json safe_parse raw = elim (json raw) [
  | none ↦ none
  | some candidate ↦ safe_parse candidate
]

unfoldable pub resume_start_page : Option Checkpoint → ℕ
resume_start_page none = 1
resume_start_page (some c) = if c.last_completed_page == 0 then 1 else c.last_completed_page + 1

abbrev pub status_rank : CheckpointStatus → ℕ
status_rank complete = 5
status_rank failed = 4
status_rank partial = 3
status_rank resumable = 2
status_rank running = 1

unfoldable pub pick_higher_progress : Checkpoint → Checkpoint → Checkpoint
pick_higher_progress local remote =
    if ltb remote.last_completed_page local.last_completed_page
    then local
    else if ltb local.last_completed_page remote.last_completed_page
    then remote
    else if leb (status_rank remote.status) (status_rank local.status)
    then local
    else remote

unfoldable pub merge_checkpoints : Checkpoint → Checkpoint → Checkpoint
unfolding pick_higher_progress
merge_checkpoints local remote =
    let winner = pick_higher_progress local remote in
    record {
      counts = winner.counts;
      created_at = local.created_at;
      discovered_last_page = max local.discovered_last_page remote.discovered_last_page;
      last_completed_page = max local.last_completed_page remote.last_completed_page;
      last_source_failure = winner.last_source_failure;
      pages = spread_pages local.pages remote.pages;
      run_id = winner.run_id;
      source_url = winner.source_url;
      status = winner.status;
      updated_at = winner.updated_at;
    }
