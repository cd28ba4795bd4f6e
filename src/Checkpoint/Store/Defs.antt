-- ===== src/Checkpoint/Store/Defs.antt =====
-- src/checkpoint/s3-checkpoint-store.ts. The S3 client, `JSON`, `new URL` and the timer are
-- parameters, over the state `W` of what lies outside.
use replays_fetcher.Base.{
  ℕ, zero, suc, ◌+◌, Option, none, some, Bool, true, false, ◌||◌, not, ◌==◌, Text, codes, text_eq,
  if◌then◌else◌, Result, ok, err,
}
use replays_fetcher.Source.Backoff.{full_jitter_delay, default_bounds}
use replays_fetcher.Keys.{KeyError, SourceUrl, to_checkpoint_object_key}
use replays_fetcher.Checkpoint.Defs.{Checkpoint, merge_checkpoints}

abbrev pub max_cas_rounds : ℕ
max_cas_rounds = 5

-- What a call throws. `s3_exception` is an `S3ServiceException` with its name and HTTP status;
-- `other_error` is any other error of the client.
pub data Thrown : Type 0 where
  s3_exception : Text → Option ℕ → Thrown
  other_error : Text → Thrown
  invalid_url : Thrown
  key_error : KeyError → Thrown
  checkpoint_conflict : (attempts page : ℕ) → (slug : Text) → Thrown

abbrev pub has_status : Option ℕ → ℕ → Bool
has_status none s = false
has_status (some t) s = t == s

unfoldable pub is_not_found : Thrown → Bool
is_not_found (s3_exception name status) = text_eq name (codes "NotFound") || has_status status 404
is_not_found _ = false

unfoldable pub is_precondition_failed : Thrown → Bool
is_precondition_failed (s3_exception name status) =
    text_eq name (codes "PreconditionFailed")
    || text_eq name (codes "ConditionalRequestConflict")
    || has_status status 412
    || has_status status 409
is_precondition_failed _ = false

-- The conditional headers of a PUT.
pub data PutCondition : Type 0 where
  unconditional if_none_match : PutCondition
  if_match : Text → PutCondition

unfoldable pub conditional_header : Option Text → Bool → PutCondition
conditional_header etag false = unconditional
conditional_header none true = if_none_match
conditional_header (some etag) true = if_match etag

pub record PutRequest : Type 0 where
  pub key : Text
  pub body : Text
  pub condition : PutCondition

-- The answer to a GET: the body as text and the ETag, each where there is one.
pub record GetOutput : Type 0 where
  pub body : Option Text
  pub etag : Option Text

pub record CheckpointReadResult : Type 0 where
  pub checkpoint : Option Checkpoint
  pub etag : Option Text

-- `written` is for the statements only: the checkpoint whose PUT went through.
pub record CheckpointWriteResult : Type 0 where
  pub etag : Option Text
  pub written : Checkpoint

pub record StoreOptions (W : Type 0) : Type 0 where
  pub conditional_writes : Bool
  pub prefix : Text
  pub random : ℕ → ℕ → ℕ
  pub get : Text → W → W × Result Thrown GetOutput
  pub put : PutRequest → W → W × Result Thrown (Option Text)
  pub stringify : Checkpoint → Text
  pub parse : Text → Option Checkpoint
  pub parse_url : Text → Option SourceUrl
  pub delay : ℕ → W → W

pub record CheckpointWriteInput : Type 0 where
  pub checkpoint : Checkpoint
  pub etag : Option Text
  pub slug : Text

abbrev pub nothing_read : CheckpointReadResult
nothing_read = record { checkpoint = none; etag = none }

-- `intended = mergeCheckpoints(intended, fresh.checkpoint)` where there is one.
abbrev pub merge_fresh : Checkpoint → Option Checkpoint → Checkpoint
merge_fresh intended none = intended
merge_fresh intended (some fresh) = merge_checkpoints intended fresh

module _ {W : Type 0} where
  -- `toCheckpointObjectKey(options.prefix, new URL(slug))`
  unfoldable pub object_key : StoreOptions W → Text → Result Thrown Text
  object_key o slug = elim (o.parse_url slug) [
    | none ↦ err invalid_url
    | some url ↦ elim (to_checkpoint_object_key o.prefix url) [
      | ok key ↦ ok key
      | err e ↦ err (key_error e)
    ]
  ]

  unfoldable pub put_checkpoint :
      StoreOptions W → CheckpointWriteInput → W → W × Result Thrown (Option Text)
  put_checkpoint o input w = elim (object_key o input.slug) [
    | err e ↦ (w, err e)
    | ok key ↦
        o.put
          (record {
            key = key;
            body = o.stringify input.checkpoint;
            condition = conditional_header input.etag o.conditional_writes;
          })
          w
  ]

  -- A missing or unreadable body comes back as `{}`, with no ETag.
  abbrev pub read_body : StoreOptions W → GetOutput → CheckpointReadResult
  read_body o output = elim (output.body) [
    | none ↦ nothing_read
    | some raw ↦ elim (o.parse raw) [
      | none ↦ nothing_read
      | some c ↦ record { checkpoint = some c; etag = output.etag }
    ]
  ]

  abbrev pub read_reply :
      StoreOptions W → W × Result Thrown GetOutput → W × Result Thrown CheckpointReadResult
  read_reply o (w, ok output) = (w, ok (read_body o output))
  read_reply o (w, err e) = (w, if is_not_found e then ok nothing_read else err e)

  unfoldable pub read_checkpoint :
      StoreOptions W → Text → W → W × Result Thrown CheckpointReadResult
  read_checkpoint o slug w = elim (object_key o slug) [
    | err e ↦ (w, err e)
    | ok key ↦ read_reply o (o.get key w)
  ]

  -- What follows the re-read: the next round, with the ETag that was read.
  abbrev pub after_reread :
      CheckpointWriteInput
      → W × Result Thrown CheckpointReadResult
      → (CheckpointWriteInput → W → W × Result Thrown CheckpointWriteResult)
      → W × Result Thrown CheckpointWriteResult
  after_reread input (w, err e) next = (w, err e)
  after_reread input (w, ok fresh) next =
      next
        (record input {
          checkpoint = merge_fresh input.checkpoint fresh.checkpoint;
          etag = fresh.etag;
        })
        w

  -- What follows the PUT of a round.
  abbrev pub after_put :
      StoreOptions W
      → ℕ
      → CheckpointWriteInput
      → W × Result Thrown (Option Text)
      → (CheckpointWriteInput → W → W × Result Thrown CheckpointWriteResult)
      → W × Result Thrown CheckpointWriteResult
  after_put o round input (w, ok etag) next =
      (w, ok (record { etag = etag; written = input.checkpoint }))
  after_put o round input (w, err e) next =
      if not (is_precondition_failed e)
      then (w, err e)
      else after_reread input
          (read_checkpoint o input.slug
            (o.delay (full_jitter_delay round (o.random round) default_bounds) w))
          next

  -- The rounds that are left, from `round` on.
  unfoldable pub write_rounds :
      StoreOptions W → ℕ → ℕ → CheckpointWriteInput → W → W × Result Thrown CheckpointWriteResult
  write_rounds o zero round input w =
      (w, err (checkpoint_conflict max_cas_rounds input.checkpoint.last_completed_page input.slug))
  write_rounds o (suc left) round input w =
      after_put o round input (put_checkpoint o input w) (write_rounds o left (round + 1))

  unfoldable pub write_checkpoint :
      StoreOptions W → CheckpointWriteInput → W → W × Result Thrown CheckpointWriteResult
  write_checkpoint o input w = write_rounds o max_cas_rounds 0 input w
