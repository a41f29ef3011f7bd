-- ===== src/Store/Types.antt =====
-- The data of integration001/src/store.rs: constants, records, errors and the store itself.
use avangard.Prelude.{
  ℕ, ◌+◌, ◌-◌, ◌*◌, ◌^◌, ◌≡◌, ◌↔◌, Bool, true, ◌&&◌, Option, List, [], ◌∷◌, arith, ◌==◌, bytes_eq,
  bytes_eq_refl, eq_of_bytes_eq,
}
use avangard.Prelude.Assoc.{Eq, Map}

-- `[u8; 32]`, as its bytes.
abbrev pub Digest : Type 0
Digest = List ℕ

abbrev pub digest_len : ℕ
digest_len = 32

abbrev pub phase_prevote : ℕ
phase_prevote = 1

abbrev pub phase_precommit : ℕ
phase_precommit = 2

abbrev pub u32_max : ℕ
u32_max = 2 ^ 32 - 1

abbrev pub u64_max : ℕ
u64_max = 2 ^ 64 - 1

-- `CALINT1W`
abbrev pub wal_magic : List ℕ
wal_magic = 67 ∷ 65 ∷ 76 ∷ 73 ∷ 78 ∷ 84 ∷ 49 ∷ 87 ∷ []

abbrev pub wal_version : ℕ
wal_version = 1

abbrev pub header_len : ℕ
header_len = 24

abbrev pub checksum_len : ℕ
checksum_len = 32

abbrev pub max_snapshot_bytes : ℕ
max_snapshot_bytes = 8 * 1024 * 1024

abbrev pub max_payload_bytes : ℕ
max_payload_bytes = max_snapshot_bytes + 512

abbrev pub kind_initialize : ℕ
kind_initialize = 1

abbrev pub kind_activate : ℕ
kind_activate = 2

abbrev pub kind_vote : ℕ
kind_vote = 3

abbrev pub kind_apply : ℕ
kind_apply = 4

abbrev pub kind_retire : ℕ
kind_retire = 5

pub data Lifecycle : Type 0 where
  initialized active retired : Lifecycle

pub data PersistOutcome : Type 0 where
  persisted already_present : PersistOutcome

-- One constructor for each message that the file returns in `Err`.
pub data Error : Type 0 where
  -- open
  create_directory read_failed open_failed missing_genesis provisioning_conflict : Error
  -- the methods
  poisoned_wal not_yet_active committee_retired sequence_exhausted : Error
  activation_differs missing_activation conflicting_activation resurrection : Error
  conflicting_vote below_lock_round conflicts_with_lock : Error
  zero_apply_digest applied_differently apply_while_inactive root_not_advanced : Error
  missing_retirement conflicting_retirement retire_while_inactive epoch_overflow : Error
  skips_next_epoch same_committee root_mismatch zero_handoff : Error
  -- records and snapshots
  payload_too_large append_failed snapshot_too_large : Error
  snapshot_committee snapshot_epoch unknown_phase truncated_payload trailing_payload : Error
  -- replay
  incomplete_record bad_magic unsupported_version nonzero_reserved payload_limit : Error
  non_contiguous_sequence record_len_overflow checksum_mismatch : Error
  misplaced_initialization no_leading_initialization sequence_overflow no_initialization : Error
  follows_retirement misplaced_activation activation_changed record_while_inactive : Error
  durable_conflicting_vote duplicate_vote durable_below_lock durable_conflicts_lock : Error
  durable_zero_digest duplicate_applied lineage_mismatch durable_not_advanced : Error
  durable_zero_handoff durable_same_committee durable_epoch_overflow durable_skips_epoch : Error
  retirement_differs duplicate_initialization unknown_kind : Error
  -- the model's own: the replay loop ran out of fuel
  out_of_fuel : Error

pub record Snapshot : Type 0 where
  pub committee_hash : Digest
  pub epoch : ℕ
  pub state_root : Digest
  pub bytes : List ℕ

-- the derived `==`
unfoldable pub snapshot_eq : Snapshot → Snapshot → Bool
snapshot_eq a b =
    bytes_eq a.committee_hash b.committee_hash
    && a.epoch == b.epoch
    && bytes_eq a.state_root b.state_root
    && bytes_eq a.bytes b.bytes

pub snapshot_eq_refl : (a : Snapshot) → snapshot_eq a a ≡ true
unfolding snapshot_eq
snapshot_eq_refl a =
    ground
      (arith, bytes_eq_refl a.committee_hash, bytes_eq_refl a.state_root, bytes_eq_refl a.bytes)

pub eq_of_snapshot_eq : (a b : Snapshot) → snapshot_eq a b ≡ true → a ≡ b
unfolding snapshot_eq
eq_of_snapshot_eq a b h = ground (
  arith,
  eq_of_bytes_eq a.committee_hash b.committee_hash,
  eq_of_bytes_eq a.state_root b.state_root,
  eq_of_bytes_eq a.bytes b.bytes,
)

pub record ActivationRecord : Type 0 where
  pub handoff_hash : Digest
  pub snapshot : Snapshot

pub record RetirementRecord : Type 0 where
  pub handoff_hash : Digest
  pub next_committee : Digest
  pub next_epoch : ℕ
  pub snapshot : Snapshot

pub record PrecommitLock : Type 0 where
  pub round : ℕ
  pub digest : Digest

pub record AppliedRecord : Type 0 where
  pub tx_digest : Digest
  pub certificate_digest : Digest
  pub prior_state_root : Digest
  pub next_snapshot : Snapshot

pub record VoteKey : Type 0 where
  pub conflict_key : Digest
  pub round : ℕ
  pub phase : ℕ

abbrev pub vote_key_eq : VoteKey → VoteKey → Bool
vote_key_eq a b = bytes_eq a.conflict_key b.conflict_key && a.round == b.round && a.phase == b.phase

pub vote_key_eq_iff : (a b : VoteKey) → (vote_key_eq a b ≡ true) ↔ (a ≡ b)
vote_key_eq_iff a b = (
  (λ h. ground (arith, eq_of_bytes_eq a.conflict_key b.conflict_key)),
  (λ h. ground (arith, bytes_eq_refl a.conflict_key)),
)

instance abbrev pub vote_key_has_eq : Eq VoteKey
vote_key_has_eq = record { beq = vote_key_eq; beq_iff = vote_key_eq_iff }

-- `file` is what the append handle has written so far.
pub record WalStore : Type 0 where
  pub file : List ℕ
  pub committee_hash : Digest
  pub epoch : ℕ
  pub initial_snapshot : Snapshot
  pub lifecycle : Lifecycle
  pub current_snapshot : Snapshot
  pub activation : Option ActivationRecord
  pub retirement : Option RetirementRecord
  pub votes : Map VoteKey Digest
  pub locks : Map Digest PrecommitLock
  pub applied : Map Digest AppliedRecord
  pub next_sequence : ℕ
  pub poisoned : Bool

pub record ReplayState : Type 0 where
  pub initial_snapshot : Snapshot
  pub lifecycle : Lifecycle
  pub current_snapshot : Snapshot
  pub activation : Option ActivationRecord
  pub retirement : Option RetirementRecord
  pub votes : Map VoteKey Digest
  pub locks : Map Digest PrecommitLock
  pub applied : Map Digest AppliedRecord
  pub next_sequence : ℕ

-- What a failing disk leaves behind: `failed n` wrote the first `n` bytes of the record, and a
-- failed sync all of them.
pub data Io : Type 0 where
  done : Io
  failed : ℕ → Io
