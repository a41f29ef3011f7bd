-- ===== src/Store/Append.antt =====
-- `ensure_healthy`, `ensure_active` and `append` of `WalStore` in integration001/src/store.rs. `io`
-- says how the append of a call goes, if it comes to one.
use avangard.Prelude.{ℕ, ◌+◌, true, List, ltb, Result, ok, err, reject_if, if◌then◌else◌}
use avangard.Store.Types.{
  Digest, Lifecycle, initialized, active, retired, Io, Error, u64_max, poisoned_wal, not_yet_active,
  committee_retired, sequence_exhausted,
}
use avangard.Store.Record.{append_record}
use avangard.Store.Method.{Method, lift, gets, ◌>>=◌, ◌>>◌}

unfoldable pub ensure_healthy : Method (Unit {0})
ensure_healthy store = (reject_if store.poisoned poisoned_wal, store)

abbrev active_or_reject : Lifecycle → Result Error (Unit {0})
active_or_reject active = ok tt
active_or_reject initialized = err not_yet_active
active_or_reject retired = err committee_retired

unfoldable pub ensure_active : Method (Unit {0})
unfolding ensure_healthy
ensure_active = do
  ensure_healthy
  lifecycle ← gets (λ s. s.lifecycle)
  lift (active_or_reject lifecycle)

-- The in-memory side of `append`, behind the write.
unfoldable pub after_append : Result Error (Unit {0}) × List ℕ → Method (Unit {0})
after_append (ok _, file) store =
    if ltb u64_max (store.next_sequence + 1)
    then (err sequence_exhausted, record store { file = file })
    else (ok tt, record store { file = file; next_sequence = store.next_sequence + 1 })
after_append (err e, file) store = (err e, record store { file = file; poisoned = true })

module _ (blake3 : List ℕ → Digest) (io : Io) where
  unfoldable pub append : ℕ → List ℕ → Method (Unit {0})
  unfolding after_append
  append kind payload store =
      after_append (append_record blake3 io store.file store.next_sequence kind payload) store
