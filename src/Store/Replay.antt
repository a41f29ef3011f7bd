-- ===== src/Store/Replay.antt =====
-- `replay_wal` and `replay_record` of integration001/src/store.rs: the state that a log stands for.
pub mod Loop
use avangard.Prelude.{
  ℕ, zero, suc, ◌+◌, ◌==◌, Bool, true, false, not, ◌||◌, Option, none, some, List, [], ◌∷◌, ltb,
  bytes_eq, length, Result, ok, err, ◌>>=◌, ◌>>◌, reject_if, ok_or, if◌then◌else◌,
}
use avangard.Prelude.Assoc.{lookup, insert, bytes_has_eq}
use avangard.Store.Types.{
  Digest, Snapshot, Lifecycle, initialized, active, retired, PrecommitLock, AppliedRecord,
  ReplayState, Error, vote_key_has_eq, snapshot_eq, phase_precommit, u64_max, kind_initialize,
  kind_activate, kind_vote, kind_apply, kind_retire, misplaced_initialization,
  no_leading_initialization, sequence_overflow, no_initialization, follows_retirement,
  misplaced_activation, activation_changed, record_while_inactive, durable_conflicting_vote,
  duplicate_vote, durable_below_lock, durable_conflicts_lock, durable_zero_digest,
  duplicate_applied, lineage_mismatch, durable_not_advanced, durable_zero_handoff,
  durable_same_committee, durable_epoch_overflow, durable_skips_epoch, retirement_differs,
  duplicate_initialization, unknown_kind, out_of_fuel,
}
use avangard.Store.Codec.{
  take_u8, take_u64, take_digest, finish, decode_snapshot, decode_snapshot_exact, validate_snapshot,
  validate_phase, is_zero,
}
use avangard.Store.Record.{read_record}

abbrev pub lifecycle_eq : Lifecycle → Lifecycle → Bool
lifecycle_eq initialized initialized = true
lifecycle_eq active active = true
lifecycle_eq retired retired = true
lifecycle_eq _ _ = false

abbrev pub is_some {ℓ} : {A : Type ℓ} → Option A → Bool
is_some none = false
is_some (some a) = true

unfoldable pub require_active : ReplayState → Result Error (Unit {0})
require_active state =
    if lifecycle_eq state.lifecycle active then ok tt else err record_while_inactive

-- The lookup of a lock, and the two rejections behind it.
unfoldable pub check_lock :
    Option PrecommitLock → ℕ → Digest → Error → Error → Result Error (Unit {0})
check_lock none round digest below differs = ok tt
check_lock (some lock) round digest below differs = do
  reject_if (ltb round lock.round) below
  reject_if (not (bytes_eq digest lock.digest)) differs
  ok tt

-- The lookup of an earlier vote under the same key.
unfoldable pub check_fresh_vote : Option Digest → Digest → Result Error (Unit {0})
check_fresh_vote none digest = ok tt
check_fresh_vote (some old) digest = do
  reject_if (not (bytes_eq old digest)) durable_conflicting_vote
  err duplicate_vote

-- The effects of the four records.
abbrev pub activated : ReplayState → Digest → Snapshot → ReplayState
activated state handoff_hash snapshot = record state {
  lifecycle = active;
  current_snapshot = snapshot;
  activation = some (record { handoff_hash = handoff_hash; snapshot = snapshot });
}

abbrev pub voted : ReplayState → Digest → ℕ → ℕ → Digest → ReplayState
voted state conflict_key round phase digest = record state {
  votes =
      insert (record { conflict_key = conflict_key; round = round; phase = phase }) digest
        state.votes;
  locks =
      if phase == phase_precommit
      then insert conflict_key (record { round = round; digest = digest }) state.locks
      else state.locks;
}

abbrev pub applied_by : ReplayState → AppliedRecord → ReplayState
applied_by state entry = record state {
  applied = insert entry.tx_digest entry state.applied;
  current_snapshot = entry.next_snapshot;
}

abbrev pub retired_by : ReplayState → Digest → Digest → ℕ → Snapshot → ReplayState
retired_by state handoff_hash next_committee next_epoch snapshot = record state {
  lifecycle = retired;
  retirement = some (record {
    handoff_hash = handoff_hash;
    next_committee = next_committee;
    next_epoch = next_epoch;
    snapshot = snapshot;
  });
}

-- The four arms of `replay_record`.
module _ (committee : Digest) (epoch : ℕ) (state : ReplayState) (payload : List ℕ) where
  unfoldable pub replay_activate : Result Error ReplayState
  replay_activate = do
    reject_if (not (lifecycle_eq state.lifecycle initialized) || is_some state.activation)
        misplaced_activation
    (handoff_hash, input) ← take_digest payload
    (snapshot, rest) ← decode_snapshot input
    finish rest
    validate_snapshot snapshot committee epoch
    reject_if (not (snapshot_eq snapshot state.current_snapshot)) activation_changed
    ok (activated state handoff_hash snapshot)

  unfoldable pub replay_vote : Result Error ReplayState
  unfolding require_active
  replay_vote = do
    require_active state
    (conflict_key, input₁) ← take_digest payload
    (round, input₂) ← take_u64 input₁
    (phase, input₃) ← take_u8 input₂
    (digest, rest) ← take_digest input₃
    finish rest
    validate_phase phase
    check_fresh_vote
        (lookup (record { conflict_key = conflict_key; round = round; phase = phase }) state.votes)
        digest
    check_lock (lookup conflict_key state.locks) round digest durable_below_lock
        durable_conflicts_lock
    ok (voted state conflict_key round phase digest)

  unfoldable pub replay_apply : Result Error ReplayState
  unfolding require_active
  replay_apply = do
    require_active state
    (tx_digest, input₁) ← take_digest payload
    (certificate_digest, input₂) ← take_digest input₁
    (prior_state_root, input₃) ← take_digest input₂
    (next_snapshot, rest) ← decode_snapshot input₃
    finish rest
    validate_snapshot next_snapshot committee epoch
    reject_if (is_zero tx_digest || is_zero certificate_digest) durable_zero_digest
    reject_if (is_some (lookup tx_digest state.applied)) duplicate_applied
    reject_if (not (bytes_eq prior_state_root state.current_snapshot.state_root)) lineage_mismatch
    reject_if (bytes_eq next_snapshot.state_root prior_state_root) durable_not_advanced
    ok (
        applied_by state (record {
          tx_digest = tx_digest;
          certificate_digest = certificate_digest;
          prior_state_root = prior_state_root;
          next_snapshot = next_snapshot;
        }))

  unfoldable pub replay_retire : Result Error ReplayState
  unfolding require_active
  replay_retire = do
    require_active state
    (handoff_hash, input₁) ← take_digest payload
    (next_committee, input₂) ← take_digest input₁
    (next_epoch, input₃) ← take_u64 input₂
    (snapshot, rest) ← decode_snapshot input₃
    finish rest
    reject_if (is_zero handoff_hash) durable_zero_handoff
    reject_if (bytes_eq next_committee committee) durable_same_committee
    reject_if (ltb u64_max (epoch + 1)) durable_epoch_overflow
    reject_if (not (next_epoch == epoch + 1)) durable_skips_epoch
    reject_if (not (snapshot_eq snapshot state.current_snapshot)) retirement_differs
    ok (retired_by state handoff_hash next_committee next_epoch snapshot)

-- `match kind`
unfoldable pub replay_arm : Digest → ℕ → ReplayState → ℕ → List ℕ → Result Error ReplayState
replay_arm committee epoch state kind payload =
    if kind == kind_activate
    then replay_activate committee epoch state payload
    else if kind == kind_vote
    then replay_vote committee epoch state payload
    else if kind == kind_apply
    then replay_apply committee epoch state payload
    else if kind == kind_retire
    then replay_retire committee epoch state payload
    else if kind == kind_initialize
    then err duplicate_initialization
    else err unknown_kind

unfoldable pub replay_record : Digest → ℕ → ReplayState → ℕ → List ℕ → Result Error ReplayState
replay_record committee epoch state kind payload = do
  reject_if (lifecycle_eq state.lifecycle retired) follows_retirement
  replay_arm committee epoch state kind payload

abbrev pub fresh_replay : Snapshot → ReplayState
fresh_replay snapshot = record {
  initial_snapshot = snapshot;
  lifecycle = initialized;
  current_snapshot = snapshot;
  activation = none;
  retirement = none;
  votes = [];
  locks = [];
  applied = [];
  next_sequence = 1;
}

-- The end of the loop's body: the record goes into the state.
unfoldable pub replay_frame :
    Digest → ℕ → ℕ → Option ReplayState → ℕ → List ℕ → Result Error ReplayState
replay_frame committee epoch sequence state kind payload =
    if kind == kind_initialize
    then (do
      reject_if (not (sequence == 0) || is_some state) misplaced_initialization
      snapshot ← decode_snapshot_exact payload
      validate_snapshot snapshot committee epoch
      ok (fresh_replay snapshot))
    else (do
      replay ← ok_or state no_leading_initialization
      replay_record committee epoch replay kind payload)

module _ (blake3 : List ℕ → Digest) (committee : Digest) (epoch : ℕ) where
  -- One round of the loop: the next state, and the bytes that are left.
  unfoldable pub replay_step : ℕ → Option ReplayState → List ℕ → Result Error (ReplayState × List ℕ)
  replay_step sequence state bytes = do
    frame ← read_record blake3 sequence bytes
    next ← replay_frame committee epoch sequence state frame.kind frame.payload
    reject_if (ltb u64_max (sequence + 1)) sequence_overflow
    ok (next, frame.rest)

  -- The loop, on fuel: the sequence number and the state at the end of the bytes, or `none` if the
  -- fuel runs out.
  unfoldable pub replay_loop :
      ℕ → ℕ → Option ReplayState → List ℕ → Option (Result Error (ℕ × Option ReplayState))
  replay_loop fuel sequence state [] = some (ok (sequence, state))
  replay_loop zero sequence state (b ∷ bs) = none
  replay_loop (suc fuel) sequence state (b ∷ bs) = elim (replay_step sequence state (b ∷ bs)) [
    | err e ↦ some (err e)
    | ok (next, rest) ↦ replay_loop fuel (sequence + 1) (some next) rest
  ]

  unfoldable pub replay_end :
      Option (Result Error (ℕ × Option ReplayState)) → Result Error ReplayState
  replay_end none = err out_of_fuel
  replay_end (some outcome) = do
    (sequence, end) ← outcome
    state ← ok_or end no_initialization
    ok (record state { next_sequence = sequence })

  -- Each round takes at least a header and a checksum, so a round for each byte is enough.
  unfoldable pub replay_wal : List ℕ → Result Error ReplayState
  unfolding replay_end
  replay_wal bytes = replay_end (replay_loop (length bytes) 0 none bytes)
