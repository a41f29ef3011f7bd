-- ===== src/Store/Open.antt =====
-- `WalStore::open` of integration001/src/store.rs.
use avangard.Prelude.{
  ℕ, Bool, false, not, Option, none, some, List, [], ◌∷◌, Result, ok, err, ◌>>=◌, ◌>>◌, reject_if,
}
use avangard.Store.Types.{
  Digest, Snapshot, initialized, WalStore, ReplayState, Io, Error, snapshot_eq, kind_initialize,
  create_directory, read_failed, open_failed, missing_genesis, provisioning_conflict,
}
use avangard.Store.Codec.{encode_snapshot, validate_snapshot}
use avangard.Store.Record.{append_record}
use avangard.Store.Replay.{replay_wal}

-- What `fs::read` finds at the path.
pub data Disk : Type 0 where
  contents : List ℕ → Disk
  not_found : Disk
  unreadable : Disk

unfoldable pub read_disk : Disk → Result Error (List ℕ)
read_disk (contents bytes) = ok bytes
read_disk not_found = ok []
read_disk unreadable = err read_failed

abbrev pub fresh_store : List ℕ → Digest → ℕ → Snapshot → WalStore
fresh_store file committee epoch snapshot = record {
  file = file;
  committee_hash = committee;
  epoch = epoch;
  initial_snapshot = snapshot;
  lifecycle = initialized;
  current_snapshot = snapshot;
  activation = none;
  retirement = none;
  votes = [];
  locks = [];
  applied = [];
  next_sequence = 1;
  poisoned = false;
}

abbrev pub replayed_store : List ℕ → Digest → ℕ → ReplayState → WalStore
replayed_store file committee epoch replay = record {
  file = file;
  committee_hash = committee;
  epoch = epoch;
  initial_snapshot = replay.initial_snapshot;
  lifecycle = replay.lifecycle;
  current_snapshot = replay.current_snapshot;
  activation = replay.activation;
  retirement = replay.retirement;
  votes = replay.votes;
  locks = replay.locks;
  applied = replay.applied;
  next_sequence = replay.next_sequence;
  poisoned = false;
}

-- The check of a supplied initialization snapshot against the log.
unfoldable pub check_genesis : Option Snapshot → Digest → ℕ → Snapshot → Result Error (Unit {0})
check_genesis none committee epoch initial = ok tt
check_genesis (some provided) committee epoch initial = do
  validate_snapshot provided committee epoch
  reject_if (not (snapshot_eq provided initial)) provisioning_conflict

-- An error of the write leaves no store; the file that it leaves is the second part.
unfoldable pub created :
    Result Error (Unit {0}) × List ℕ → Digest → ℕ → Snapshot → Result Error WalStore × List ℕ
created (ok _, file) committee epoch snapshot =
    (ok (fresh_store file committee epoch snapshot), file)
created (err e, file) committee epoch snapshot = (err e, file)

module _ (blake3 : List ℕ → Digest) (io : Io) where
  unfoldable pub initialize :
      Digest → ℕ → Snapshot → Result Error (List ℕ) → Result Error WalStore × List ℕ
  unfolding created
  initialize committee epoch snapshot (ok payload) =
      created (append_record blake3 io [] 0 kind_initialize payload) committee epoch snapshot
  initialize committee epoch snapshot (err e) = (err e, [])

  -- the branch of an empty file
  unfoldable pub open_empty : Digest → ℕ → Option Snapshot → Result Error WalStore × List ℕ
  unfolding initialize
  open_empty committee epoch none = (err missing_genesis, [])
  open_empty committee epoch (some snapshot) =
      initialize committee epoch snapshot
        (do validate_snapshot snapshot committee epoch; encode_snapshot snapshot)

  -- the branch of a file with a log
  unfoldable pub open_existing : Digest → ℕ → Option Snapshot → List ℕ → Result Error WalStore
  unfolding check_genesis
  open_existing committee epoch genesis file = do
    replay ← replay_wal blake3 committee epoch file
    check_genesis genesis committee epoch replay.initial_snapshot
    ok (replayed_store file committee epoch replay)

  unfoldable pub open_bytes : Digest → ℕ → Option Snapshot → List ℕ → Result Error WalStore × List ℕ
  unfolding open_empty open_existing
  open_bytes committee epoch genesis [] = open_empty committee epoch genesis
  open_bytes committee epoch genesis (b ∷ bs) =
      (open_existing committee epoch genesis (b ∷ bs), b ∷ bs)

  unfoldable pub open_found :
      Disk → Digest → ℕ → Option Snapshot → Result Error (List ℕ) → Result Error WalStore × Disk
  unfolding open_bytes
  open_found before committee epoch genesis (err e) = (err e, before)
  open_found before committee epoch genesis (ok bytes) =
      let (result, file) = open_bytes committee epoch genesis bytes in (result, contents file)

  -- `directory` and `handle` say whether the parent directory and the append handle could be made.
  unfoldable pub open_wal :
      Bool → Disk → Bool → Digest → ℕ → Option Snapshot → Result Error WalStore × Disk
  unfolding open_found read_disk
  open_wal directory disk handle committee epoch genesis =
      open_found disk committee epoch genesis (do
        reject_if (not directory) create_directory
        bytes ← read_disk disk
        reject_if (not handle) open_failed
        ok bytes)
