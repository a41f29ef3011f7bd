-- ===== src/Store/Record.antt =====
-- One WAL record on disk: `append_record` and `wal_checksum` of integration001/src/store.rs, and
-- the framing checks at the head of the loop of `replay_wal`. `blake3` is the hash function, from
-- the bytes of all its `update` calls, in order, to the digest.
pub mod Framing
use avangard.Prelude.{
  ℕ, ◌+◌, ◌==◌, not, ◌||◌, List, ◌∷◌, ◌++◌, ltb, bytes_eq, length, take, drop, get_or, Result, ok,
  err, ◌>>=◌, ◌>>◌, reject_if, if◌then◌else◌,
}
use avangard.Prelude.Bytes.{le_bytes, le_value, codes}
use avangard.Store.Types.{
  Digest, Error, Io, done, failed, u32_max, u64_max, wal_magic, wal_version, header_len,
  checksum_len, max_payload_bytes, payload_too_large, append_failed, incomplete_record, bad_magic,
  unsupported_version, nonzero_reserved, payload_limit, non_contiguous_sequence,
  record_len_overflow, checksum_mismatch,
}

unfoldable pub checksum_domain : List ℕ
checksum_domain = codes "CALIBRE_INTEGRATION001_APPEND_ONLY_WAL_CHECKSUM_V1"

unfoldable pub record_header : ℕ → ℕ → ℕ → List ℕ
record_header sequence kind payload_len =
    wal_magic ++ le_bytes 2 wal_version ++ kind ∷ 0 ∷ le_bytes 4 payload_len ++ le_bytes 8 sequence

-- What `write_all` and `sync_all` add to the file, and whether they succeed.
unfoldable pub write_record : Io → List ℕ → List ℕ → Result Error (Unit {0}) × List ℕ
write_record done file bytes = (ok tt, file ++ bytes)
write_record (failed n) file bytes = (err append_failed, file ++ take n bytes)

-- The parts of a record that the loop of `replay_wal` goes on with: the kind, the payload, and the
-- bytes after the record.
pub record Frame : Type 0 where
  pub kind : ℕ
  pub payload : List ℕ
  pub rest : List ℕ

-- The checks on a header: its kind and the length of the payload.
unfoldable pub check_header : ℕ → List ℕ → Result Error (ℕ × ℕ)
check_header sequence header = do
  reject_if (not (bytes_eq (take 8 header) wal_magic)) bad_magic
  reject_if (not (le_value (take 2 (drop 8 header)) == wal_version)) unsupported_version
  reject_if (not (get_or header 11 0 == 0)) nonzero_reserved
  let payload_len = le_value (take 4 (drop 12 header))
  reject_if (ltb max_payload_bytes payload_len) payload_limit
  reject_if (not (le_value (take 8 (drop 16 header)) == sequence)) non_contiguous_sequence
  ok (get_or header 10 0, payload_len)

module _ (blake3 : List ℕ → Digest) where
  unfoldable pub wal_checksum : List ℕ → List ℕ → Digest
  wal_checksum header payload = blake3 (checksum_domain ++ (header ++ payload))

  abbrev pub record_bytes : ℕ → ℕ → List ℕ → List ℕ
  record_bytes sequence kind payload =
      let header = record_header sequence kind (length payload) in
      header ++ (payload ++ wal_checksum header payload)

  unfoldable pub append_record : Io → List ℕ → ℕ → ℕ → List ℕ → Result Error (Unit {0}) × List ℕ
  unfolding write_record
  append_record io file sequence kind payload =
      if ltb max_payload_bytes (length payload) || ltb u32_max (length payload)
      then (err payload_too_large, file)
      else write_record io file (record_bytes sequence kind payload)

  -- `bytes` are those from the loop's offset to the end of the file.
  unfoldable pub read_record : ℕ → List ℕ → Result Error Frame
  read_record sequence bytes = do
    let remaining = length bytes
    reject_if (ltb remaining (header_len + checksum_len)) incomplete_record
    let header = take header_len bytes
    (kind, payload_len) ← check_header sequence header
    let record_len = header_len + payload_len + checksum_len
    reject_if (ltb u64_max record_len) record_len_overflow
    reject_if (ltb remaining record_len) incomplete_record
    let payload = take payload_len (drop header_len bytes)
    let tail = drop payload_len (drop header_len bytes)
    reject_if (not (bytes_eq (take checksum_len tail) (wal_checksum header payload)))
        checksum_mismatch
    ok (record { kind = kind; payload = payload; rest = drop checksum_len tail })
