-- ===== src/Storage/Idempotence.antt =====
-- src/storage/s3-raw-storage.ts: storing a replay twice, and the object that was there.
use replays_fetcher.Base.{
  ℕ, ◌≡◌, ◌⊎◌, ◌↔◌, refl, Option, none, some, true, ==_iff, Text, text_eq_refl, text_eq_iff, length,
  Bool-cases, inl, inr, arith, Result, ok, err,
}
use replays_fetcher.Types.{RawReplayStorageStatus}
use replays_fetcher.Storage.Defs.{
  S3Error, is_not_found, Head, PutObject, RawReplayStorageInput, S3Sender, to_evidence, has_length,
  has_sha, is_same_object, put_object, after_head, s3_store_raw_replay,
}

-- What S3 documents: after a PUT that succeeded, a HEAD of its key answers with the length and the
-- metadata of the object that was put.
pub record IsObjectStore {W : Type 0} (s : S3Sender W) : Type 0 where
  pub head_after_put :
      (r : PutObject) (w : W)
      → (s.put r w).1 ≡ ok tt
      → (s.head r.key (s.put r w).0).1
        ≡ ok (record { content_length = some (length r.body); sha256 = some r.sha256 })

is_same_object-put :
    (i : RawReplayStorageInput)
    → is_same_object (record { content_length = some (length i.bytes); sha256 = some i.checksum }) i
      ≡ true
unfolding is_same_object
is_same_object-put i = ground (arith, text_eq_refl i.checksum)

has_length_iff : (o : Option ℕ) (n : ℕ) → (has_length o n ≡ true) ↔ (o ≡ some n)
has_length_iff none n = ground arith
has_length_iff (some m) n = ground (arith, ==_iff m n)

has_sha_iff : (o : Option Text) (t : Text) → (has_sha o t ≡ true) ↔ (o ≡ some t)
has_sha_iff none t = ground arith
has_sha_iff (some u) t = ground (arith, text_eq_iff u t)

module _ {W : Type 0} (s : S3Sender W) where
  put_object-stored :
      (i : RawReplayStorageInput) (w : W)
      → (put_object s i w).1.status ≡ RawReplayStorageStatus.stored
      → ((s.put (record { key = i.object_key; body = i.bytes; sha256 = i.checksum }) w).1 ≡ ok tt)
        × ((put_object s i w).0
            ≡ (s.put (record { key = i.object_key; body = i.bytes; sha256 = i.checksum }) w).0)
  unfolding to_evidence
  put_object-stored i w h = ground arith

  found_again :
      (i : RawReplayStorageInput) (w : W)
      → IsObjectStore s
      → (put_object s i w).1.status ≡ RawReplayStorageStatus.stored
      → (after_head s i (s.head i.object_key (put_object s i w).0)).1
        ≡ to_evidence s.bucket i RawReplayStorageStatus.skipped none
  found_again i w law h =
      let (put, same) = put_object-stored i w h in
      let found =
        law.head_after_put (record { key = i.object_key; body = i.bytes; sha256 = i.checksum }) w
          put in
      ground (arith, found, same, is_same_object-put i)

  after_head_missing :
      (i : RawReplayStorageInput) (w : W) (e : S3Error)
      → is_not_found e ≡ true
      → after_head s i (w, err e) ≡ put_object s i w
  after_head_missing i w e missing = rw missing refl

  after_head-twice :
      (i : RawReplayStorageInput) (answer : W × Result S3Error Head)
      → IsObjectStore s
      → (after_head s i answer).1.status ≡ RawReplayStorageStatus.stored
      → (after_head s i (s.head i.object_key (after_head s i answer).0)).1
        ≡ to_evidence s.bucket i RawReplayStorageStatus.skipped none
  unfolding to_evidence
  after_head-twice i (w, ok found) law h = ground arith
  after_head-twice i (w, err e) law h = elim (Bool-cases (is_not_found e)) [
    | inl missing ↦
        let puts = after_head_missing i w e missing in
        simp puts (found_again i w law (ground (arith, puts, h)))
    | inr present ↦ ground (arith, present, h)
  ]

  -- Over a store whose HEAD answers, after a PUT that succeeded, with what was put: where a replay was
  -- stored, storing the same input again is skipped, with the evidence of the same object.
  pub store_twice :
      (i : RawReplayStorageInput) (w : W)
      → IsObjectStore s
      → (s3_store_raw_replay s i w).1.status ≡ RawReplayStorageStatus.stored
      → (s3_store_raw_replay s i (s3_store_raw_replay s i w).0).1
        ≡ to_evidence s.bucket i RawReplayStorageStatus.skipped none
  unfolding s3_store_raw_replay
  store_twice i w law h = after_head-twice i (s.head i.object_key w) law h

  -- Where HEAD finds an object, nothing is put: the outcome is skipped exactly if the object has the
  -- length and the checksum of the input, and otherwise it is a conflict.
  pub store_status :
      (i : RawReplayStorageInput) (w w' : W) (found : Head)
      → s.head i.object_key w ≡ (w', ok found)
      → let (after, e) = s3_store_raw_replay s i w in
        (after ≡ w')
        × ((e.status ≡ RawReplayStorageStatus.skipped)
            ↔ ((found.content_length ≡ some (length i.bytes)) × (found.sha256 ≡ some i.checksum)))
        × ((e.status ≡ RawReplayStorageStatus.skipped)
            ⊎ (e.status ≡ RawReplayStorageStatus.conflict))
  unfolding s3_store_raw_replay is_same_object to_evidence
  store_status i w w' found h = ground (
    arith,
    has_length_iff found.content_length (length i.bytes),
    has_sha_iff found.sha256 i.checksum,
  )
