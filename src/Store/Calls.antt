-- ===== src/Store/Calls.antt =====
-- The four mutating methods of `WalStore` (integration001/src/store.rs) as one type of calls, and runs of
-- them. Each call of a run says how its write to the disk goes.
pub mod Unchanged
use avangard.Prelude.{ℕ, ◌+◌, Result, List, [], ◌∷◌}
use avangard.Store.Types.{Digest, Snapshot, PersistOutcome, WalStore, Io, Error}
use avangard.Store.Codec.RoundTrip.{IsDigest, IsU64}
use avangard.Store.Recovery.{HasWidths}
use avangard.Store.Activate
use avangard.Store.Votes
use avangard.Store.Apply
use avangard.Store.Retire

pub data Call : Type 0 where
  activate : Digest → Snapshot → Call
  persist_vote : Digest → ℕ → ℕ → Digest → Call
  apply_verified : Digest → Digest → Snapshot → Call
  retire : Digest → Digest → ℕ → Digest → Call

-- What the Rust types of the arguments say.
abbrev pub IsTyped : Call → Type 0
IsTyped (activate handoff snapshot) = IsDigest handoff × HasWidths snapshot
IsTyped (persist_vote conflict_key round phase digest) =
    IsDigest conflict_key × IsU64 round × IsDigest digest
IsTyped (apply_verified tx certificate next) = IsDigest tx × IsDigest certificate × HasWidths next
IsTyped (retire handoff next_committee next_epoch root) = IsDigest handoff × IsDigest next_committee

module _ (blake3 : List ℕ → Digest) where
  unfoldable pub call : Io → Call → WalStore → Result Error PersistOutcome × WalStore
  call io (activate handoff snapshot) s = Activate.activate blake3 io handoff snapshot s
  call io (persist_vote conflict_key round phase digest) s =
      Votes.persist_vote blake3 io conflict_key round phase digest s
  call io (apply_verified tx certificate next) s =
      Apply.apply_verified blake3 io tx certificate next s
  call io (retire handoff next_committee next_epoch root) s =
      Retire.retire blake3 io handoff next_committee next_epoch root s

  -- A caller that goes on whatever the calls return.
  unfoldable pub run : List (Io × Call) → WalStore → WalStore
  run [] s = s
  run ((io, c) ∷ rest) s = run rest (call io c s).1
