-- ===== src/Store/Recovery/Torn.antt =====
-- A crash in the middle of a write: what the next `open` finds in the file.
use mathlib.Core.List.{append-nil}
use native.Mathlib.Decide.{dec_lt}
use avangard.Prelude.{
  ℕ, zero, suc, ◌+◌, ◌≤◌, ◌<◌, ◌≡◌, refl, ap, ◌∙◌, true, ◌⊎◌, inl, inr, none, some, List, [], ◌∷◌,
  ◌++◌, length, length-append, take, length-take_le, err, arith,
}
use avangard.Store.Types.{
  Digest, WalStore, u64_max, max_payload_bytes, failed, append_failed, incomplete_record,
}
use avangard.Store.Record.{record_bytes, append_record, read_record}
use avangard.Store.Record.Framing.{IsHash, read_record-torn, length-record_bytes}
use avangard.Store.Replay.{replay_step, replay_end, replay_wal}
use avangard.Store.Replay.Loop.{replay_loop-append, last_error}
use avangard.Store.Append.{append}
use avangard.Store.Recovery.{IsDurable, log_view}

take_all : (n : ℕ) (xs : List ℕ) → length xs ≤ n → take n xs ≡ xs
take_all zero [] h = refl
take_all zero (x ∷ xs) h = absurd (omega arith)
take_all (suc n) [] h = refl
take_all (suc n) (x ∷ xs) h = ap (λ t. x ∷ t) (take_all n xs (omega arith))

module _ (blake3 : List ℕ → Digest) where
  -- What a restart makes of a file that a crash left, between the file before the call and the file
  -- that the call meant to write: the state before, the state after, or a refusal.
  abbrev pub Restart : Digest → ℕ → List ℕ → List ℕ → List ℕ → Type 0
  Restart committee epoch before after left =
      (replay_wal blake3 committee epoch left ≡ replay_wal blake3 committee epoch before)
      ⊎ ((replay_wal blake3 committee epoch left ≡ err incomplete_record)
          ⊎ (replay_wal blake3 committee epoch left ≡ replay_wal blake3 committee epoch after))

module _ (blake3 : List ℕ → Digest) (hash : IsHash blake3) where
  pub append_cut :
      (n kind : ℕ) (payload : List ℕ) (s : WalStore)
      → length payload ≤ max_payload_bytes
      → append blake3 (failed n) kind payload s ≡ (
        err append_failed,
        record s {
          file = s.file ++ take n (record_bytes blake3 s.next_sequence kind payload);
          poisoned = true;
        },
      )
  unfolding append append_record
  append_cut n kind payload s hp = ground arith

  torn_replay :
      (s : WalStore) (kind : ℕ) (payload torn : List ℕ)
      → IsDurable blake3 s
      → 0 < length torn
      → read_record blake3 s.next_sequence torn ≡ err incomplete_record
      → replay_wal blake3 s.committee_hash s.epoch (s.file ++ torn) ≡ err incomplete_record
  unfolding replay_wal replay_step
  torn_replay s kind payload torn d hn hr =
      let whole = s.file ++ torn in
      ap (replay_end blake3 s.committee_hash s.epoch) (
        replay_loop-append blake3 s.committee_hash s.epoch (length s.file) (length whole) 0 none
          s.file torn s.next_sequence (some (log_view s)) d.replays (omega arith) (omega arith)
        ∙ last_error blake3 s.committee_hash s.epoch (length whole) s.next_sequence
            (some (log_view s)) torn (rw hr refl) hn (omega (arith, length-append s.file torn)))

  pub reopen_after_cut :
      (n : ℕ) (s : WalStore) (kind : ℕ) (payload : List ℕ)
      → IsDurable blake3 s
      → s.next_sequence < u64_max
      → length payload ≤ max_payload_bytes
      → Restart blake3 s.committee_hash s.epoch s.file
          (s.file ++ record_bytes blake3 s.next_sequence kind payload)
          (s.file ++ take n (record_bytes blake3 s.next_sequence kind payload))
  reopen_after_cut zero s kind payload d hs hp = inl (rw (append-nil s.file))
  reopen_after_cut (suc n) s kind payload d hs hp =
      let bytes = record_bytes blake3 s.next_sequence kind payload in
      let size : length bytes ≡ length payload + 56 =
        length-record_bytes blake3 hash s.next_sequence kind payload in
      elim (dec_lt (suc n) (length payload + 56)) [
        | yes p ↦ inr (
            inl (
              torn_replay s kind payload (take (suc n) bytes) d
                (omega (arith, length-take_le (suc n) bytes (omega arith)))
                (read_record-torn blake3 hash s.next_sequence kind payload (suc n) (omega arith) hp
                  p)))
        | no p ↦ inr (inr (rw (take_all (suc n) bytes (omega arith))))
      ]
