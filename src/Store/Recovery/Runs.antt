-- ===== src/Store/Recovery/Runs.antt =====
-- A store that is opened again from its file is the store that wrote the file.
use avangard.Prelude.{
  ℕ, ◌+◌, ◌≤◌, ◌<◌, ◌≡◌, refl, ◌∙◌, true, Option, none, some, List, [], ◌∷◌, length, All, ok, arith,
}
use avangard.Store.Types.{
  Digest, Snapshot, WalStore, ReplayState, Io, u64_max, done, kind_initialize, snapshot_eq_refl,
}
use avangard.Store.Codec.{validate_snapshot}
use avangard.Store.Codec.RoundTrip.{
  IsWide, snapshot_bytes, encode_snapshot-IsWide, length-snapshot_bytes,
  decode_snapshot_exact-bytes,
}
use avangard.Store.Record.{record_bytes, append_record}
use avangard.Store.Record.Framing.{IsHash}
use avangard.Store.Replay.{replay_frame, replay_loop, replay_wal, fresh_replay}
use avangard.Store.Open.{
  Disk, contents, not_found, fresh_store, check_genesis, initialize, open_empty, open_existing,
  open_bytes, open_wal,
}
use avangard.Store.Calls.Unchanged.{call-SameStore}
use avangard.Store.Calls.{Call, activate, persist_vote, apply_verified, retire, IsTyped, call, run}
use avangard.Store.Recovery.{HasWidths, validated-IsWide, IsDurable, replay-append_record}
use avangard.Store.Recovery.Activate.{activate-IsDurable}
use avangard.Store.Recovery.Votes.{persist_vote-IsDurable}
use avangard.Store.Recovery.Apply.{apply_verified-IsDurable}
use avangard.Store.Recovery.Retire.{retire-IsDurable}

-- The calls of a run whose writes all reach the disk.
abbrev pub succeeding : List Call → List (Io × Call)
succeeding [] = []
succeeding (c ∷ cs) = (done, c) ∷ succeeding cs

module _ (blake3 : List ℕ → Digest) (hash : IsHash blake3) where
  call-IsDurable :
      (c : Call) (s : WalStore)
      → IsDurable blake3 s
      → IsTyped c
      → s.next_sequence < u64_max
      → IsDurable blake3 (call blake3 done c s).1
  unfolding call
  call-IsDurable (activate handoff snapshot) s d t h =
      activate-IsDurable blake3 hash s handoff snapshot d t.0 t.1 h
  call-IsDurable (persist_vote conflict_key round phase digest) s d t h =
      persist_vote-IsDurable blake3 hash s conflict_key round phase digest d t.0 t.1 t.2 h
  call-IsDurable (apply_verified tx certificate next) s d t h =
      apply_verified-IsDurable blake3 hash s tx certificate next d t.0 t.1 t.2 h
  call-IsDurable (retire handoff next_committee next_epoch root) s d t h =
      retire-IsDurable blake3 hash s handoff next_committee next_epoch root d t.0 t.1 h

  -- The initialization record replays to the fresh state.
  replay-initialize :
      (committee : Digest) (epoch : ℕ) (snapshot : Snapshot)
      → IsWide snapshot
      → validate_snapshot snapshot committee epoch ≡ ok tt
      → replay_frame committee epoch 0 none kind_initialize (snapshot_bytes snapshot)
        ≡ ok (fresh_replay snapshot)
  unfolding replay_frame
  replay-initialize committee epoch snapshot hw hv =
      rw (decode_snapshot_exact-bytes snapshot hw, hv)

  -- What a first `open` writes and returns.
  pub open_fresh :
      (committee : Digest) (epoch : ℕ) (snapshot : Snapshot)
      → IsWide snapshot
      → validate_snapshot snapshot committee epoch ≡ ok tt
      → let file = record_bytes blake3 0 kind_initialize (snapshot_bytes snapshot) in
        open_wal blake3 done true not_found true committee epoch (some snapshot)
        ≡ (ok (fresh_store file committee epoch snapshot), contents file)
  unfolding open_wal open_bytes open_empty initialize append_record
  open_fresh committee epoch snapshot hw hv =
      rw (hv, encode_snapshot-IsWide snapshot hw)
        (ground (arith, length-snapshot_bytes snapshot hw))

  pub fresh-IsDurable :
      (committee : Digest) (epoch : ℕ) (snapshot : Snapshot)
      → IsWide snapshot
      → validate_snapshot snapshot committee epoch ≡ ok tt
      → IsDurable blake3 (
          fresh_store
            (record_bytes blake3 0 kind_initialize (snapshot_bytes snapshot))
            committee
            epoch
            snapshot)
  fresh-IsDurable committee epoch snapshot hw hv = record {
    replays =
        replay-append_record blake3 hash committee epoch 0 (fresh_replay snapshot)
          (fresh_replay snapshot) [] none kind_initialize (snapshot_bytes snapshot)
          (unfold replay_loop in refl) (replay-initialize committee epoch snapshot hw hv)
          (omega (arith, length-snapshot_bytes snapshot hw)) (omega arith);
    sequence = omega arith;
    wide = hw;
    healthy = refl;
    provisioned = hv;
    unactivated = λ e. refl;
  }

  open_bytes-replayed :
      (io : Io) (committee : Digest) (epoch : ℕ) (genesis : Option Snapshot) (file : List ℕ)
      {sequence : ℕ} {view : ReplayState}
      → replay_loop blake3 committee epoch (length file) 0 none file
        ≡ some (ok (sequence, some view))
      → open_bytes blake3 io committee epoch genesis file
        ≡ (open_existing blake3 io committee epoch genesis file, file)
  unfolding open_bytes
  open_bytes-replayed io committee epoch genesis [] h = unfold replay_loop in cc
  open_bytes-replayed io committee epoch genesis (b ∷ bs) h = refl

  open_existing-IsDurable :
      (io : Io) (s : WalStore) (genesis : Option Snapshot)
      → IsDurable blake3 s
      → check_genesis genesis s.committee_hash s.epoch s.initial_snapshot ≡ ok tt
      → open_existing blake3 io s.committee_hash s.epoch genesis s.file ≡ ok s
  unfolding open_existing replay_wal
  open_existing-IsDurable io s genesis d hg = rw (d.replays, hg) (ground arith)

  genesis_accepted :
      (s : WalStore)
      → IsDurable blake3 s
      → check_genesis (some s.initial_snapshot) s.committee_hash s.epoch s.initial_snapshot ≡ ok tt
  unfolding check_genesis
  genesis_accepted s d = rw (d.provisioned, snapshot_eq_refl)

  open_durable :
      (io : Io) (s : WalStore) (genesis : Option Snapshot)
      → IsDurable blake3 s
      → check_genesis genesis s.committee_hash s.epoch s.initial_snapshot ≡ ok tt
      → open_wal blake3 io true (contents s.file) true s.committee_hash s.epoch genesis
        ≡ (ok s, contents s.file)
  unfolding open_wal
  open_durable io s genesis d hg = rw (
    open_bytes-replayed io s.committee_hash s.epoch genesis s.file d.replays,
    open_existing-IsDurable io s genesis d hg,
  )

  run-IsDurable :
      (calls : List Call) (s : WalStore)
      → IsDurable blake3 s
      → All IsTyped calls
      → s.next_sequence + length calls ≤ u64_max
      → IsDurable blake3 (run blake3 (succeeding calls) s)
  unfolding run
  run-IsDurable [] s d t h = d
  run-IsDurable (c ∷ cs) s d t h =
      run-IsDurable cs (call blake3 done c s).1 (call-IsDurable c s d t.0 (omega arith)) t.1
        (omega (arith, (call-SameStore blake3 done c s).sequence))

  run_identity :
      (calls : List (Io × Call)) (s : WalStore)
      → ((run blake3 calls s).committee_hash ≡ s.committee_hash)
        × ((run blake3 calls s).epoch ≡ s.epoch)
        × ((run blake3 calls s).initial_snapshot ≡ s.initial_snapshot)
  unfolding run
  run_identity [] s = (refl, refl, refl)
  run_identity ((io, c) ∷ cs) s =
      let same = call-SameStore blake3 io c s in
      let (a, b, e) = run_identity cs (call blake3 io c s).1 in
      (a ∙ same.committee_hash, b ∙ same.epoch, e ∙ same.initial_snapshot)

  -- A first `open` that succeeds has validated its snapshot.
  pub open_validates :
      (committee : Digest) (epoch : ℕ) (snapshot : Snapshot) {s : WalStore} {disk : Disk}
      → open_wal blake3 done true not_found true committee epoch (some snapshot) ≡ (ok s, disk)
      → validate_snapshot snapshot committee epoch ≡ ok tt
  unfolding open_wal open_bytes open_empty initialize
  open_validates committee epoch snapshot h = ground arith

  pub open_durable_as :
      (io : Io) (t : WalStore) (committee : Digest) (epoch : ℕ) (snapshot : Snapshot)
      → IsDurable blake3 t
      → t.committee_hash ≡ committee
      → t.epoch ≡ epoch
      → t.initial_snapshot ≡ snapshot
      → (open_wal blake3 io true (contents t.file) true committee epoch none
          ≡ (ok t, contents t.file))
        × (open_wal blake3 io true (contents t.file) true committee epoch (some snapshot)
            ≡ (ok t, contents t.file))
  open_durable_as io t committee epoch snapshot d hc he hi =
      rw (← hc, ← he, ← hi)
        (
          open_durable io t none d (unfold check_genesis in refl),
          open_durable io t (some t.initial_snapshot) d (genesis_accepted t d),
        )

  -- Provision a store where no file was, with a snapshot whose fields have their widths, and call
  -- fewer than 2^64 - 1 methods with arguments of their widths, in any order, with results of any
  -- kind, whose writes reach the disk: opening the file again, with the same snapshot or none, gives
  -- the same store, field for field. The hash has 32 bytes.
  pub reopen_after_run :
      (committee : Digest) (epoch : ℕ) (snapshot : Snapshot) (calls : List Call) (io : Io)
      {s : WalStore} {disk : Disk}
      → HasWidths snapshot
      → All IsTyped calls
      → length calls < u64_max
      → open_wal blake3 done true not_found true committee epoch (some snapshot) ≡ (ok s, disk)
      → let t = run blake3 (succeeding calls) s in
        (open_wal blake3 io true (contents t.file) true committee epoch none
          ≡ (ok t, contents t.file))
        × (open_wal blake3 io true (contents t.file) true committee epoch (some snapshot)
            ≡ (ok t, contents t.file))
  reopen_after_run committee epoch snapshot calls io {s} {disk} w typed fits opened =
      let hv = open_validates committee epoch snapshot opened in
      let wide = validated-IsWide snapshot committee epoch w hv in
      let fresh =
        fresh_store (record_bytes blake3 0 kind_initialize (snapshot_bytes snapshot)) committee
          epoch snapshot in
      let same : s ≡ fresh = ground (arith, open_fresh committee epoch snapshot wide hv) in
      let (sc, se, si) = run_identity (succeeding calls) fresh in
      rw same (
        open_durable_as io (run blake3 (succeeding calls) fresh) committee epoch snapshot
          (run-IsDurable calls fresh (fresh-IsDurable committee epoch snapshot wide hv) typed
            (omega arith))
          sc se si)
