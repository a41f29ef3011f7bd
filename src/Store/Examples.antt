-- ===== src/Store/Examples.antt =====
-- Concrete runs of the store, and its theorems at concrete inputs. The hash here is a stand-in.
mod Records
use avangard.Prelude.{
  ℕ, ◌%◌, ◌≡◌, ◌≢◌, refl, arith, true, none, some, List, [], ◌∷◌, length, replicate, bytes_eq, ok,
}
use avangard.Prelude.Assoc.{lookup, bytes_has_eq}
use avangard.Store.Types.{
  Digest, Snapshot, done, failed, persisted, already_present, kind_initialize, vote_key_has_eq,
  retired, WalStore, snapshot_eq,
}
use avangard.Store.Codec.{validate_snapshot, validate_phase, encode_snapshot}
use avangard.Store.Codec.RoundTrip.{IsWide, snapshot_bytes}
use avangard.Store.Record.{record_bytes, append_record}
use avangard.Store.Replay.{check_lock}
use avangard.Store.Append.{append, ensure_active}
use avangard.Store.Activate.{activate_commit}
use avangard.Store.Votes.{vote_commit, vote_by}
use avangard.Store.Activate
use avangard.Store.Votes
use avangard.Store.Record.Framing.{IsHash}
use avangard.Store.Open.{contents, open_wal, fresh_store}
use avangard.Store.Calls.{Call, activate, persist_vote, call, run}
use avangard.Store.Recovery.{IsDurable}
use avangard.Store.Recovery.Runs.{succeeding, open_fresh, fresh-IsDurable, reopen_after_run}
use avangard.Store.Recovery.Crash.{crash_recovery}
use avangard.Store.Recovery.Torn.{Restart}
use avangard.Store.Safety.Votes.{key, no_equivocation}
use avangard.Store.Safety.Locks.{Covers, precommits_agree}
use avangard.Store.Safety.Terminal.{retired_is_terminal}
use avangard.Prelude.Assoc.{insert}

abbrev pub toy_hash : List ℕ → Digest
toy_hash bytes = length bytes % 256 ∷ replicate 31 7

pub toy_hash-IsHash : IsHash toy_hash
toy_hash-IsHash bytes = refl

abbrev committee : Digest
committee = replicate 32 1

abbrev pub genesis : Snapshot
genesis = record {
  committee_hash = committee;
  epoch = 100;
  state_root = replicate 32 2;
  bytes = 7 ∷ [];
}

pub genesis-IsWide : IsWide genesis
genesis-IsWide = omega arith

genesis_valid : validate_snapshot genesis committee 100 ≡ ok tt
unfolding validate_snapshot bytes_eq
genesis_valid = refl

abbrev pub provisioned : WalStore
provisioned =
    fresh_store (record_bytes toy_hash 0 kind_initialize (snapshot_bytes genesis)) committee 100
      genesis

abbrev pub calls : List Call
calls =
    activate (replicate 32 9) genesis
    ∷ persist_vote (replicate 32 5) 1 1 (replicate 32 6)
    ∷ persist_vote (replicate 32 5) 1 2 (replicate 32 6)
    ∷ persist_vote (replicate 32 5) 2 2 (replicate 32 8)
    ∷ []

reopen_after_run_example :
    let t = run toy_hash (succeeding calls) provisioned in
    (open_wal toy_hash done true (contents t.file) true committee 100 none
      ≡ (ok t, contents t.file))
    × (open_wal toy_hash done true (contents t.file) true committee 100 (some genesis)
        ≡ (ok t, contents t.file))
reopen_after_run_example =
    reopen_after_run toy_hash toy_hash-IsHash committee 100 genesis calls done (omega arith)
      (omega arith) (omega arith)
      (open_fresh toy_hash toy_hash-IsHash committee 100 genesis genesis-IsWide genesis_valid)

provisioned-IsDurable : IsDurable toy_hash provisioned
provisioned-IsDurable =
    fresh-IsDurable toy_hash toy_hash-IsHash committee 100 genesis genesis-IsWide genesis_valid

-- The disk takes 60 bytes of the activation record, and no more.
crash_recovery_example :
    ((call toy_hash (failed 60) (activate (replicate 32 9) genesis) provisioned).0 ≢ ok persisted)
    × Restart toy_hash committee 100 provisioned.file
        (call toy_hash done (activate (replicate 32 9) genesis) provisioned).1.file
        (call toy_hash (failed 60) (activate (replicate 32 9) genesis) provisioned).1.file
crash_recovery_example =
    crash_recovery toy_hash toy_hash-IsHash 60 provisioned provisioned-IsDurable (omega arith)
      (activate (replicate 32 9) genesis) (omega arith)

abbrev final : WalStore
final = run toy_hash (succeeding calls) provisioned

-- The two votes of round 1 are there; the precommit of another digest in round 2 is not.
final_votes :
    (lookup (key (replicate 32 5) 1 1) final.votes ≡ some (replicate 32 6))
    × (lookup (key (replicate 32 5) 1 2) final.votes ≡ some (replicate 32 6))
    × (lookup (key (replicate 32 5) 2 2) final.votes ≡ none)
unfolding run call Activate.activate activate_commit Votes.persist_vote vote_commit ensure_active
    append append_record lookup insert check_lock validate_snapshot validate_phase encode_snapshot
    bytes_eq snapshot_eq
final_votes = (refl, refl, refl)

precommits_agree_example :
    (◌≡◌ {A = Digest} (replicate 32 6) (replicate 32 6))
    × Covers (lookup (replicate 32 5) final.locks) 1 (replicate 32 6)
precommits_agree_example =
    precommits_agree toy_hash (succeeding calls) provisioned (replicate 32 5) 1 1 (replicate 32 6)
      (replicate 32 6) refl final_votes.1 final_votes.1

-- The same vote again, on a full disk, is accepted with nothing to write.
again :
    (Votes.persist_vote toy_hash (failed 0) (replicate 32 5) 1 2 (replicate 32 6) final).0
    ≡ ok already_present
unfolding run call Activate.activate activate_commit Votes.persist_vote vote_commit ensure_active
    append append_record lookup insert check_lock validate_snapshot validate_phase encode_snapshot
    bytes_eq snapshot_eq
again = refl

again_after :
    (Votes.persist_vote toy_hash (failed 0) (replicate 32 5) 1 2 (replicate 32 6) (
      run toy_hash []
        (Votes.persist_vote toy_hash (failed 0) (replicate 32 5) 1 2 (replicate 32 6) final).1)).0
    ≡ ok already_present
unfolding run call Activate.activate activate_commit Votes.persist_vote vote_commit ensure_active
    append append_record lookup insert check_lock validate_snapshot validate_phase encode_snapshot
    bytes_eq snapshot_eq
again_after = refl

no_equivocation_example : ◌≡◌ {A = Digest} (replicate 32 6) (replicate 32 6)
no_equivocation_example =
    no_equivocation toy_hash (failed 0) (failed 0) final [] (replicate 32 5) 1 2 (replicate 32 6)
      (replicate 32 6) again again_after

abbrev retired_store : WalStore
retired_store = record provisioned { lifecycle = retired }

retired_is_terminal_example :
    (run toy_hash (succeeding calls) retired_store ≡ retired_store)
    × ((call toy_hash done
          (activate (replicate 32 9) genesis)
          (run toy_hash (succeeding calls) retired_store)).0
        ≢ ok persisted)
retired_is_terminal_example =
    retired_is_terminal toy_hash (succeeding calls) done (activate (replicate 32 9) genesis)
      retired_store refl
