-- ===== src/Store/Recovery.antt =====
-- The log and the memory of a store agree: what `replay_wal` reads from the file is what the store
-- holds, from the initialization on and through every method.
pub mod Activate
pub mod Votes
pub mod Apply
pub mod Retire
pub mod Runs
pub mod Torn
pub mod Crash
use mathlib.Core.List.{append-nil}
use avangard.Prelude.{
  ℕ, zero, suc, ◌+◌, ◌^◌, ◌≤◌, ◌<◌, ◌≡◌, refl, sym, ap, ◌∙◌, Bool, true, false, ◌⊎◌, inl, inr,
  Option, none, some, List, [], ◌∷◌, ◌++◌, length, length-append, Result, Result-cases, ok, err,
  arith,
}
use avangard.Store.Types.{
  Digest, Snapshot, Lifecycle, initialized, active, retired, WalStore, ReplayState, Error, u64_max,
  max_payload_bytes, done,
}
use avangard.Store.Codec.{validate_snapshot}
use avangard.Store.Codec.RoundTrip.{IsDigest, IsU64, IsWide}
use avangard.Store.Record.{record_bytes, read_record, append_record, write_record}
use avangard.Store.Record.Framing.{IsHash, length-record_bytes, read_record-bytes}
use avangard.Store.Replay.{replay_frame, replay_step, replay_loop}
use avangard.Store.Replay.Loop.{replay_loop-append, last_round}
use avangard.Store.Append.{append, after_append}

-- The widths that the Rust types give a snapshot.
pub record HasWidths (s : Snapshot) : Type 0 where
  pub committee_hash : IsDigest s.committee_hash
  pub epoch : IsU64 s.epoch
  pub state_root : IsDigest s.state_root

pub validated-IsWide :
    (s : Snapshot) (committee : Digest) (epoch : ℕ)
    → HasWidths s
    → validate_snapshot s committee epoch ≡ ok tt
    → IsWide s
unfolding validate_snapshot
validated-IsWide s committee epoch w h = ground arith

-- The part of a store that its log determines, as the loop of `replay_wal` carries it.
abbrev pub log_view : WalStore → ReplayState
log_view s = record {
  initial_snapshot = s.initial_snapshot;
  lifecycle = s.lifecycle;
  current_snapshot = s.current_snapshot;
  activation = s.activation;
  retirement = s.retirement;
  votes = s.votes;
  locks = s.locks;
  applied = s.applied;
  next_sequence = 1;
}

module _ (blake3 : List ℕ → Digest) where
  pub record IsDurable (s : WalStore) : Type 0 where
    pub replays :
        replay_loop blake3 s.committee_hash s.epoch (length s.file) 0 none s.file
        ≡ some (ok (s.next_sequence, some (log_view s)))
    pub sequence : s.next_sequence ≤ u64_max
    pub wide : IsWide s.current_snapshot
    pub healthy : s.poisoned ≡ false
    pub provisioned : validate_snapshot s.initial_snapshot s.committee_hash s.epoch ≡ ok tt
    pub unactivated : s.lifecycle ≡ initialized → s.activation ≡ none

module _ (blake3 : List ℕ → Digest) (hash : IsHash blake3) where
  -- One more record at the end of a log.
  pub replay-append_record :
      (committee : Digest) (epoch sequence : ℕ) (state next : ReplayState) (file : List ℕ)
      (before : Option ReplayState) (kind : ℕ) (payload : List ℕ)
      → replay_loop blake3 committee epoch (length file) 0 none file ≡ some (ok (sequence, before))
      → replay_frame committee epoch sequence before kind payload ≡ ok next
      → length payload ≤ max_payload_bytes
      → sequence < u64_max
      → replay_loop blake3 committee epoch
          (length (file ++ record_bytes blake3 sequence kind payload))
          0
          none
          (file ++ record_bytes blake3 sequence kind payload)
        ≡ some (ok (sequence + 1, some next))
  unfolding replay_step
  replay-append_record committee epoch sequence state next file before kind payload h hn hp hs =
      let bytes = record_bytes blake3 sequence kind payload in
      let size : length bytes ≡ length payload + 56 =
        length-record_bytes blake3 hash sequence kind payload in
      let framed =
        rw (append-nil bytes) at
          (read_record-bytes blake3 hash sequence kind payload [] (omega arith) hp) in
      replay_loop-append blake3 committee epoch (length file) (length (file ++ bytes)) 0 none file
        bytes sequence before h (omega arith) (omega arith)
      ∙ last_round blake3 committee epoch (length (file ++ bytes)) sequence before bytes
          (rw (framed, hn) (ground arith)) (omega arith) (omega (arith, length-append file bytes))

  -- An append that succeeds.
  pub append_done :
      (kind : ℕ) (payload : List ℕ) (s : WalStore)
      → length payload ≤ max_payload_bytes
      → s.next_sequence < u64_max
      → append blake3 done kind payload s ≡ (
        ok tt,
        record s {
          file = s.file ++ record_bytes blake3 s.next_sequence kind payload;
          next_sequence = s.next_sequence + 1;
        },
      )
  unfolding append append_record
  append_done kind payload s hp hs = ground arith
