-- ===== src/Store/Calls/Unchanged.antt =====
-- What no method of `WalStore` changes, whatever it returns and however its write goes.
use avangard.Prelude.{ℕ, ◌+◌, ◌≤◌, ◌≡◌, List, arith}
use avangard.Store.Types.{Digest, WalStore, Io}
use avangard.Store.Append.{append, ensure_active}
use avangard.Store.Activate.{activate_by, activate_commit}
use avangard.Store.Votes.{vote_by, vote_commit}
use avangard.Store.Apply.{apply_by, apply_commit}
use avangard.Store.Retire.{retire_by, retire_commit, retire_active}
use avangard.Store.Activate
use avangard.Store.Votes
use avangard.Store.Apply
use avangard.Store.Retire
use avangard.Store.Calls.{Call, activate, persist_vote, apply_verified, retire, call}

-- The identity of a store stays, and the sequence number grows by one at most.
pub record SameStore (s t : WalStore) : Type 0 where
  pub committee_hash : t.committee_hash ≡ s.committee_hash
  pub epoch : t.epoch ≡ s.epoch
  pub initial_snapshot : t.initial_snapshot ≡ s.initial_snapshot
  pub sequence_from : s.next_sequence ≤ t.next_sequence
  pub sequence : t.next_sequence ≤ s.next_sequence + 1

module _ (blake3 : List ℕ → Digest) where
  -- A call, whatever it returns, leaves the committee, the epoch and the initial snapshot of the store,
  -- and its next sequence number stays or grows by one.
  pub call-SameStore : (io : Io) (c : Call) (s : WalStore) → SameStore s (call blake3 io c s).1
  unfolding call Activate.activate activate_commit Votes.persist_vote vote_commit ensure_active
      Apply.apply_verified apply_commit Retire.retire retire_active retire_commit append
  call-SameStore io (activate handoff snapshot) s = ground arith
  call-SameStore io (persist_vote conflict_key round phase digest) s = ground arith
  call-SameStore io (apply_verified tx certificate next) s = ground arith
  call-SameStore io (retire handoff next_committee next_epoch root) s = ground arith
