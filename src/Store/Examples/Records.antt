-- ===== src/Store/Examples/Records.antt =====
-- The theorems on records, payloads, replay and calls at concrete inputs.
use avangard.Prelude.{
  ℕ, ◌≡◌, refl, arith, none, [], ◌∷◌, ◌++◌, replicate, bytes_eq, take, ok, err, some, Option,
  Result,
}
use avangard.Store.Types.{
  Error, ReplayState, done, failed, incomplete_record, poisoned_wal, append_failed, persisted,
  kind_vote, snapshot_eq,
}
use avangard.Store.Codec.{decode_snapshot, encode_snapshot, validate_snapshot}
use avangard.Store.Codec.RoundTrip.{encode_snapshot-IsWide, decode-encode_snapshot, snapshot_bytes}
use avangard.Store.Record.{record_bytes, read_record, append_record}
use avangard.Store.Record.Framing.{read_record-bytes, read_record-torn}
use avangard.Store.Replay.{replay_loop}
use avangard.Store.Replay.Loop.{replay_loop_total}
use avangard.Store.Calls.{call, run, activate, persist_vote}
use avangard.Store.Activate
use avangard.Store.Activate.{activate_commit}
use avangard.Store.Append.{append}
use avangard.Store.Safety.Terminal.{cut_off, failed_write_is_terminal}
use avangard.Store.Examples.{toy_hash, toy_hash-IsHash, genesis, genesis-IsWide, provisioned}

decode-encode_snapshot_example :
    decode_snapshot (snapshot_bytes genesis ++ (1 ∷ 2 ∷ [])) ≡ ok (genesis, 1 ∷ 2 ∷ [])
decode-encode_snapshot_example =
    decode-encode_snapshot genesis (snapshot_bytes genesis) (1 ∷ 2 ∷ []) genesis-IsWide
      (encode_snapshot-IsWide genesis genesis-IsWide)

read_record-bytes_example :
    read_record toy_hash 3 (record_bytes toy_hash 3 kind_vote (5 ∷ 6 ∷ []) ++ (8 ∷ []))
    ≡ ok (record { kind = 3; payload = 5 ∷ 6 ∷ []; rest = 8 ∷ [] })
read_record-bytes_example =
    read_record-bytes toy_hash toy_hash-IsHash 3 kind_vote (5 ∷ 6 ∷ []) (8 ∷ []) (omega arith)
      (omega arith)

read_record-torn_example :
    read_record toy_hash 3 (take 57 (record_bytes toy_hash 3 kind_vote (5 ∷ 6 ∷ [])))
    ≡ err incomplete_record
read_record-torn_example =
    read_record-torn toy_hash toy_hash-IsHash 3 kind_vote (5 ∷ 6 ∷ []) 57 (omega arith)
      (omega arith) (omega arith)

replay_loop_total_example :
    (r : Result Error (ℕ × Option ReplayState)) × (replay_loop toy_hash genesis.committee_hash 100 4
        0 none
        (9 ∷ 9 ∷ [])
      ≡ some r)
replay_loop_total_example =
    replay_loop_total toy_hash genesis.committee_hash 100 4 0 none (9 ∷ 9 ∷ []) (omega arith)

handoff_written :
    (call toy_hash done (activate (replicate 32 9) genesis) provisioned).0 ≡ ok persisted
unfolding call Activate.activate activate_commit append append_record validate_snapshot
    encode_snapshot bytes_eq snapshot_eq
handoff_written = refl

-- The disk takes 60 bytes of the activation record; then a vote, and the activation again.
failed_write_is_terminal_example :
    let left =
      cut_off toy_hash 60 provisioned
        (call toy_hash done (activate (replicate 32 9) genesis) provisioned).1 in
    (call toy_hash (failed 60) (activate (replicate 32 9) genesis) provisioned
      ≡ (err append_failed, left))
    × (run toy_hash ((done, persist_vote (replicate 32 5) 1 1 (replicate 32 6)) ∷ []) left ≡ left)
    × (call toy_hash done
          (activate (replicate 32 9) genesis)
          (run toy_hash ((done, persist_vote (replicate 32 5) 1 1 (replicate 32 6)) ∷ []) left)
        ≡ (err poisoned_wal, left))
failed_write_is_terminal_example =
    failed_write_is_terminal toy_hash 60 (activate (replicate 32 9) genesis) provisioned
      ((done, persist_vote (replicate 32 5) 1 1 (replicate 32 6)) ∷ []) done
      (activate (replicate 32 9) genesis) handoff_written
