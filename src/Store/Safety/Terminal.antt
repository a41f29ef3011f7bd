-- ===== src/Store/Safety/Terminal.antt =====
-- States of a store that no call leaves: retirement, and the state after a failed write.
use avangard.Prelude.{
  ℕ, suc, ◌+◌, ◌≡◌, refl, ap, true, List, [], ◌∷◌, ◌++◌, take, length, arith, inl, inr,
  Result-cases, ok, err, ◌≢◌,
}
use avangard.Store.Types.{
  Digest, WalStore, Io, done, failed, retired, poisoned_wal, append_failed, persisted,
  kind_activate, kind_vote, kind_apply, kind_retire,
}
use avangard.Store.Codec.{encode_snapshot}
use avangard.Store.Record.{append_record, record_bytes}
use avangard.Store.Append.{append, ensure_active}
use avangard.Store.Activate.{activate_commit, activate_payload}
use avangard.Store.Votes.{vote_commit, vote_payload}
use avangard.Store.Apply.{apply_commit, apply_payload}
use avangard.Store.Retire.{retire_commit, retire_active, retire_payload}
use avangard.Store.Activate
use avangard.Store.Votes
use avangard.Store.Apply
use avangard.Store.Retire
use avangard.Store.Calls.{Call, activate, persist_vote, apply_verified, retire, call, run}

take_past : (n : ℕ) (xs ys : List ℕ) → take (length xs + n) (xs ++ ys) ≡ xs ++ take n ys
take_past n [] ys = ap (λ m. take m ys) (omega arith)
take_past n (x ∷ xs) ys =
    let past : length (x ∷ xs) + n ≡ suc (length xs + n) = omega arith in
    rw past (ap (λ t. x ∷ t) (take_past n xs ys))

module _ (blake3 : List ℕ → Digest) where
  call_retired :
      (io : Io) (c : Call) (s : WalStore)
      → s.lifecycle ≡ retired
      → ((call blake3 io c s).1 ≡ s) × ((call blake3 io c s).0 ≢ ok persisted)
  unfolding call Activate.activate Votes.persist_vote ensure_active Apply.apply_verified
      apply_commit Retire.retire
  call_retired io (activate handoff snapshot) s h = ground arith
  call_retired io (persist_vote conflict_key round phase digest) s h = ground arith
  call_retired io (apply_verified tx certificate next) s h = ground arith
  call_retired io (retire handoff next_committee next_epoch root) s h = ground arith

  -- Retirement is terminal: no run of calls changes a retired store or its file, and no call of it
  -- persists anything.
  pub retired_is_terminal :
      (calls : List (Io × Call)) (io : Io) (c : Call) (s : WalStore)
      → s.lifecycle ≡ retired
      → (run blake3 calls s ≡ s) × ((call blake3 io c (run blake3 calls s)).0 ≢ ok persisted)
  unfolding run
  retired_is_terminal [] io c s h = (refl, (call_retired io c s h).1)
  retired_is_terminal ((io', c') ∷ rest) io c s h =
      rw (call_retired io' c' s h).0 (retired_is_terminal rest io c s h)

  call_poisoned :
      (io : Io) (c : Call) (s : WalStore)
      → s.poisoned ≡ true
      → call blake3 io c s ≡ (err poisoned_wal, s)
  unfolding call Activate.activate Votes.persist_vote ensure_active Apply.apply_verified
      Retire.retire
  call_poisoned io (activate handoff snapshot) s h = ground arith
  call_poisoned io (persist_vote conflict_key round phase digest) s h = ground arith
  call_poisoned io (apply_verified tx certificate next) s h = ground arith
  call_poisoned io (retire handoff next_committee next_epoch root) s h = ground arith

  run_poisoned :
      (calls : List (Io × Call)) (s : WalStore) → s.poisoned ≡ true → run blake3 calls s ≡ s
  unfolding run
  run_poisoned [] s h = refl
  run_poisoned ((io, c) ∷ rest) s h = rw (call_poisoned io c s h) (run_poisoned rest s h)

  -- The store as it was, but for the part of the next file that reached the disk, and poisoned.
  abbrev pub cut_off : ℕ → WalStore → WalStore → WalStore
  cut_off n s next = record s { file = take (length s.file + n) next.file; poisoned = true }

  call-cut_off :
      (n : ℕ) (c : Call) (s : WalStore)
      → (call blake3 done c s).0 ≡ ok persisted
      → call blake3 (failed n) c s ≡ (err append_failed, cut_off n s (call blake3 done c s).1)
  unfolding call Activate.activate activate_commit Votes.persist_vote vote_commit ensure_active
      Apply.apply_verified apply_commit Retire.retire retire_active retire_commit append
      append_record
  call-cut_off n (activate handoff snapshot) s h = elim (Result-cases (encode_snapshot snapshot)) [
    | inr (x, refused) ↦ absurd (ground arith)
    | inl (bytes, encoded) ↦ ground (
      arith,
      take_past n s.file
          (record_bytes blake3 s.next_sequence kind_activate (activate_payload handoff bytes)),
    )
  ]
  call-cut_off n (persist_vote conflict_key round phase digest) s h = ground (
    arith,
    take_past n s.file (
        record_bytes blake3 s.next_sequence kind_vote
          (vote_payload conflict_key round phase digest)),
  )
  call-cut_off n (apply_verified tx certificate next) s h =
      elim (Result-cases (encode_snapshot next)) [
        | inr (x, refused) ↦ absurd (ground arith)
        | inl (bytes, encoded) ↦ ground (
          arith,
          take_past n s.file (
              record_bytes blake3 s.next_sequence kind_apply
                (apply_payload tx certificate s.current_snapshot.state_root bytes)),
        )
      ]
  call-cut_off n (retire handoff next_committee next_epoch root) s h =
      elim (Result-cases (encode_snapshot s.current_snapshot)) [
        | inr (x, refused) ↦ absurd (ground arith)
        | inl (bytes, encoded) ↦ ground (
          arith,
          take_past n s.file (
              record_bytes blake3 s.next_sequence kind_retire
                (retire_payload handoff next_committee next_epoch bytes)),
        )
      ]

  -- A call that would persist its decision, but whose write fails after some bytes, reports the failed
  -- write and keeps everything of the store in memory but its health; the file is that of the
  -- successful call, cut off behind these bytes. From then on no run of calls changes the store or its
  -- file, and every call is refused, whatever the disk does.
  pub failed_write_is_terminal :
      (n : ℕ) (c : Call) (s : WalStore) (calls : List (Io × Call)) (io : Io) (c' : Call)
      → (call blake3 done c s).0 ≡ ok persisted
      → let left = cut_off n s (call blake3 done c s).1 in
        (call blake3 (failed n) c s ≡ (err append_failed, left))
        × (run blake3 calls left ≡ left)
        × (call blake3 io c' (run blake3 calls left) ≡ (err poisoned_wal, left))
  failed_write_is_terminal n c s calls io c' h =
      let left = cut_off n s (call blake3 done c s).1 in
      (
        call-cut_off n c s h,
        run_poisoned calls left refl,
        rw (run_poisoned calls left refl) (call_poisoned io c' left refl),
      )
