-- ===== src/Checkpoint/Store/Corrupt.antt =====
-- src/checkpoint/s3-checkpoint-store.ts: a stored checkpoint that cannot be read.
use replays_fetcher.Base.{ℕ, zero, suc, ◌+◌, ◌≡◌, refl, Option, none, some, true, Text, ok, err}
use replays_fetcher.Checkpoint.Defs.{Checkpoint}
use replays_fetcher.Checkpoint.Store.Defs.{
  Thrown, checkpoint_conflict, StoreOptions, PutRequest, if_none_match, CheckpointWriteInput,
  is_precondition_failed, object_key, put_checkpoint, read_checkpoint, nothing_read, read_body,
  read_reply, write_rounds, write_checkpoint, max_cas_rounds, conditional_header,
}
use replays_fetcher.Source.Backoff.{full_jitter_delay, default_bounds}

-- `P` holds of the outside as long as an object whose body does not parse lies at the key and nobody
-- else writes it. As S3 documents, a GET then returns that body, and a PUT that asks for no object
-- to be there fails and changes nothing.
pub record IsUnreadable {W : Type 0} (o : StoreOptions W) (key : Text) (P : W → Type 0)
    : Type 0 where
  pub lost : W → Thrown
  pub raw : Text
  pub stored_etag : Option Text
  pub put_fails :
      (r : PutRequest) (w : W)
      → P w
      → r.key ≡ key
      → r.condition ≡ if_none_match
      → (is_precondition_failed (lost w) ≡ true) × ((o.put r w).1 ≡ err (lost w)) × P (o.put r w).0
  pub get_returns :
      (w : W)
      → P w
      → ((o.get key w).1 ≡ ok (record { body = some raw; etag = stored_etag })) × P (o.get key w).0
  pub unparsable : o.parse raw ≡ none
  pub delay_keeps : (ms : ℕ) (w : W) → P w → P (o.delay ms w)

module _ {W : Type 0} (o : StoreOptions W) (key slug : Text) (P : W → Type 0)
    (conditional : o.conditional_writes ≡ true) (at_key : object_key o slug ≡ ok key)
    (u : IsUnreadable o key P) where
  read-IsUnreadable :
      (w : W)
      → P w
      → ((read_checkpoint o slug w).1 ≡ ok nothing_read) × P (read_checkpoint o slug w).0
  unfolding read_checkpoint
  read-IsUnreadable w p =
      let (g, q) = u.get_returns w p in
      rw (at_key, read_checkpoint) (rw (g, read_reply) (rw (u.unparsable, read_body) (refl, q)))

  put-IsUnreadable :
      (c : Checkpoint) (w : W)
      → P w
      → let input : CheckpointWriteInput = record { checkpoint = c; etag = none; slug = slug } in
        (is_precondition_failed (u.lost w) ≡ true)
        × ((put_checkpoint o input w).1 ≡ err (u.lost w))
        × P (put_checkpoint o input w).0
  unfolding put_checkpoint conditional_header
  put-IsUnreadable c w p =
      rw (at_key, put_checkpoint)
        (rw (conditional, conditional_header)
          (u.put_fails (record { key = key; body = o.stringify c; condition = if_none_match }) w p
            refl refl))

  write_rounds-IsUnreadable :
      (left round : ℕ) (c : Checkpoint) (w : W)
      → P w
      → let run =
          write_rounds o left round (record { checkpoint = c; etag = none; slug = slug }) w in
        (run.1 ≡ err (checkpoint_conflict 5 c.last_completed_page slug)) × P run.0
  unfolding write_rounds
  write_rounds-IsUnreadable zero round c w p = (refl, p)
  write_rounds-IsUnreadable (suc left) round c w p =
      let input : CheckpointWriteInput = record { checkpoint = c; etag = none; slug = slug } in
      let (precondition, failed, q) = put-IsUnreadable c w p in
      let w1 =
        o.delay (full_jitter_delay round (o.random round) default_bounds)
          (put_checkpoint o input w).0 in
      let (read, q') = read-IsUnreadable w1 (u.delay_keeps _ _ q) in
      rw (failed, precondition, read)
        (write_rounds-IsUnreadable left (round + 1) c (read_checkpoint o slug w1).0 q')

  -- With conditional writes on, while an object that does not parse lies at the key, reading it gives
  -- no checkpoint and no ETag, and every write with what was read ends in a conflict error after all
  -- its rounds. What holds of the outside while the broken object is there still holds after either, so
  -- that the next read and the next write end in the same way: no progress is ever saved.
  pub unreadable_is_never_replaced :
      (c : Checkpoint) (w : W)
      → P w
      → let read = read_checkpoint o slug w in
        let written = write_checkpoint o (record { checkpoint = c; etag = none; slug = slug }) w in
        (read.1 ≡ ok (record { checkpoint = none; etag = none }))
        × P read.0
        × (written.1 ≡ err (checkpoint_conflict 5 c.last_completed_page slug))
        × P written.0
  unfolding write_checkpoint
  unreadable_is_never_replaced c w p =
      let (none_read, q) = read-IsUnreadable w p in
      let (conflict, r) = write_rounds-IsUnreadable max_cas_rounds 0 c w p in
      (none_read, q, conflict, r)
