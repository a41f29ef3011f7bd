-- ===== src/Store/Queries.antt =====
-- The accessors of `WalStore` in integration001/src/store.rs that look something up or measure it.
use avangard.Prelude.{ℕ, Option, length}
use avangard.Prelude.Assoc.{lookup, bytes_has_eq}
use avangard.Store.Types.{Digest, PrecommitLock, AppliedRecord, WalStore, vote_key_has_eq}

unfoldable pub vote_digest : WalStore → Digest → ℕ → ℕ → Option Digest
vote_digest store conflict_key round phase =
    lookup (record { conflict_key = conflict_key; round = round; phase = phase }) store.votes

unfoldable pub precommit_lock : WalStore → Digest → Option PrecommitLock
precommit_lock store conflict_key = lookup conflict_key store.locks

unfoldable pub applied_record : WalStore → Digest → Option AppliedRecord
applied_record store tx_digest = lookup tx_digest store.applied

unfoldable pub applied_count : WalStore → ℕ
applied_count store = length store.applied

unfoldable wal_records : WalStore → ℕ
wal_records store = store.next_sequence

-- The length in the metadata of the file, where reading it succeeds.
unfoldable pub wal_bytes : WalStore → ℕ
wal_bytes store = length store.file
