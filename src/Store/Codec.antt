-- ===== src/Store/Codec.antt =====
-- Payloads of WAL records: `encode_snapshot`, `decode_snapshot`, the `take_*` readers, which return
-- what was read with the input that is left, and the checks on snapshots, phases and digests.
pub mod RoundTrip
use avangard.Prelude.{
  ℕ, ◌==◌, Bool, not, ◌||◌, List, [], ◌∷◌, ◌++◌, ltb, bytes_eq, length, take, drop, get_or, all,
  Result, ok, err, ◌>>=◌, ◌>>◌, reject_if, if◌then◌else◌,
}
use avangard.Prelude.Bytes.{le_bytes, le_value}
use avangard.Store.Types.{
  Digest, Snapshot, Error, digest_len, u32_max, max_snapshot_bytes, phase_prevote, phase_precommit,
  snapshot_too_large, snapshot_committee, snapshot_epoch, unknown_phase, truncated_payload,
  trailing_payload,
}

abbrev pub put_u64 : ℕ → List ℕ
put_u64 value = le_bytes 8 value

abbrev pub put_u32 : ℕ → List ℕ
put_u32 value = le_bytes 4 value

unfoldable pub encode_snapshot : Snapshot → Result Error (List ℕ)
encode_snapshot snapshot = do
  reject_if (ltb max_snapshot_bytes (length snapshot.bytes) || ltb u32_max (length snapshot.bytes))
      snapshot_too_large
  ok (
      snapshot.committee_hash
      ++ (put_u64 snapshot.epoch
          ++ (snapshot.state_root ++ (put_u32 (length snapshot.bytes) ++ snapshot.bytes))))

-- `take`
unfoldable pub take_bytes : ℕ → List ℕ → Result Error (List ℕ × List ℕ)
take_bytes len input =
    if ltb (length input) len then err truncated_payload else ok (take len input, drop len input)

unfoldable pub take_u8 : List ℕ → Result Error (ℕ × List ℕ)
unfolding take_bytes
take_u8 input = do (raw, rest) ← take_bytes 1 input; ok (get_or raw 0 0, rest)

unfoldable pub take_u32 : List ℕ → Result Error (ℕ × List ℕ)
unfolding take_bytes
take_u32 input = do (raw, rest) ← take_bytes 4 input; ok (le_value raw, rest)

unfoldable pub take_u64 : List ℕ → Result Error (ℕ × List ℕ)
unfolding take_bytes
take_u64 input = do (raw, rest) ← take_bytes 8 input; ok (le_value raw, rest)

unfoldable pub take_digest : List ℕ → Result Error (Digest × List ℕ)
unfolding take_bytes
take_digest input = take_bytes digest_len input

unfoldable pub finish : List ℕ → Result Error (Unit {0})
finish [] = ok tt
finish (b ∷ bs) = err trailing_payload

unfoldable pub decode_snapshot : List ℕ → Result Error (Snapshot × List ℕ)
decode_snapshot input = do
  (committee_hash, input₁) ← take_digest input
  (epoch, input₂) ← take_u64 input₁
  (state_root, input₃) ← take_digest input₂
  (len, input₄) ← take_u32 input₃
  reject_if (ltb max_snapshot_bytes len) snapshot_too_large
  (bytes, rest) ← take_bytes len input₄
  ok (
    record {
      committee_hash = committee_hash;
      epoch = epoch;
      state_root = state_root;
      bytes = bytes;
    },
    rest,
  )

unfoldable pub decode_snapshot_exact : List ℕ → Result Error Snapshot
decode_snapshot_exact payload = do
  (snapshot, rest) ← decode_snapshot payload
  finish rest
  ok snapshot

unfoldable pub validate_snapshot : Snapshot → Digest → ℕ → Result Error (Unit {0})
validate_snapshot snapshot committee epoch = do
  reject_if (not (bytes_eq snapshot.committee_hash committee)) snapshot_committee
  reject_if (not (snapshot.epoch == epoch)) snapshot_epoch
  reject_if (ltb max_snapshot_bytes (length snapshot.bytes)) snapshot_too_large
  ok tt

unfoldable pub validate_phase : ℕ → Result Error (Unit {0})
validate_phase phase =
    if phase == phase_prevote || phase == phase_precommit then ok tt else err unknown_phase

unfoldable pub is_zero : Digest → Bool
is_zero digest = all (λ byte. byte == 0) digest
