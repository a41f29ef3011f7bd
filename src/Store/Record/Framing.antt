-- ===== src/Store/Record/Framing.antt =====
-- A record that `append_record` wrote is read back by the framing checks of `replay_wal`; a torn one
-- is refused.
use mathlib.Core.List.{append_assoc}
use native.Mathlib.Decide.{dec_lt}
use avangard.Prelude.{
  ℕ, ◌+◌, ◌≤◌, ◌<◌, ◌≡◌, refl, List, ◌++◌, length, take, drop, length-append, take-append_eq,
  drop-append_eq, take-append_le, drop-append_le, length-drop, length-take_le, take-take_le, ok,
  err, arith, bytes_eq_refl, bytes_eq, Result-cases, ◌-◌, inl, inr,
}
use avangard.Prelude.Bytes.{le_value-le_bytes}
use avangard.Store.Types.{Digest, max_payload_bytes, incomplete_record}
use avangard.Store.Codec.RoundTrip.{IsDigest, IsU64}
use avangard.Store.Record.{
  Frame, record_header, record_bytes, wal_checksum, read_record, check_header,
}

-- BLAKE3 returns 32 bytes.
abbrev pub IsHash : (List ℕ → Digest) → Type 0
IsHash blake3 = (bytes : List ℕ) → IsDigest (blake3 bytes)

length-record_header : (sequence kind len : ℕ) → length (record_header sequence kind len) ≡ 24
unfolding record_header
length-record_header sequence kind len = refl

check_header-record_header :
    (sequence kind len : ℕ)
    → IsU64 sequence
    → len ≤ max_payload_bytes
    → check_header sequence (record_header sequence kind len) ≡ ok (kind, len)
unfolding check_header record_header bytes_eq
check_header-record_header sequence kind len hs hl =
    ground (arith, le_value-le_bytes 4 len, le_value-le_bytes 8 sequence)

module _ (blake3 : List ℕ → Digest) (hash : IsHash blake3) where
  length-wal_checksum : (header payload : List ℕ) → length (wal_checksum blake3 header payload) ≡ 32
  unfolding wal_checksum
  length-wal_checksum header payload = hash _

  pub length-record_bytes :
      (sequence kind : ℕ) (payload : List ℕ)
      → length (record_bytes blake3 sequence kind payload) ≡ length payload + 56
  length-record_bytes sequence kind payload = omega (
    arith,
    length-append (record_header sequence kind (length payload))
        (payload ++ wal_checksum blake3 (record_header sequence kind (length payload)) payload),
    length-append payload
        (wal_checksum blake3 (record_header sequence kind (length payload)) payload),
    length-wal_checksum (record_header sequence kind (length payload)) payload,
    length-record_header sequence kind (length payload),
  )

  -- The four parts of what is on disk from the record on.
  read_parts :
      (sequence kind : ℕ) (header payload checksum rest : List ℕ)
      → length header ≡ 24
      → check_header sequence header ≡ ok (kind, length payload)
      → length payload ≤ max_payload_bytes
      → length checksum ≡ 32
      → wal_checksum blake3 header payload ≡ checksum
      → read_record blake3 sequence (header ++ (payload ++ (checksum ++ rest)))
        ≡ ok (record { kind = kind; payload = payload; rest = rest })
  unfolding read_record
  read_parts sequence kind header payload checksum rest h24 hc hp h32 hw =
      rw
        (
          take-append_eq 24 header (payload ++ (checksum ++ rest)) h24,
          drop-append_eq 24 header (payload ++ (checksum ++ rest)) h24,
          hc,
          take-append_eq (length payload) payload (checksum ++ rest) refl,
          drop-append_eq (length payload) payload (checksum ++ rest) refl,
          take-append_eq 32 checksum rest h32,
          drop-append_eq 32 checksum rest h32,
          hw,
        )
        (ground (
          arith,
          bytes_eq_refl checksum,
          length-append header (payload ++ (checksum ++ rest)),
          length-append payload (checksum ++ rest),
          length-append checksum rest,
        ))

  -- A written record, of a 64-bit sequence number and a payload within the limit, is read back at that
  -- number with its kind and payload, and with the bytes that follow it, if the hash has 32 bytes.
  pub read_record-bytes :
      (sequence kind : ℕ) (payload rest : List ℕ)
      → IsU64 sequence
      → length payload ≤ max_payload_bytes
      → read_record blake3 sequence (record_bytes blake3 sequence kind payload ++ rest)
        ≡ ok (record { kind = kind; payload = payload; rest = rest })
  read_record-bytes sequence kind payload rest hs hp =
      let header = record_header sequence kind (length payload) in
      rw (append_assoc header _ rest, append_assoc payload _ rest)
        (read_parts sequence kind header payload (wal_checksum blake3 header payload) rest
          (length-record_header sequence kind (length payload))
          (check_header-record_header sequence kind (length payload) hs hp) hp
          (length-wal_checksum header payload) refl)

  -- What a write cut short leaves of a record: its header is whole, or less than a header is there.
  torn_short :
      (sequence : ℕ) (bytes : List ℕ)
      → length bytes < 56
      → read_record blake3 sequence bytes ≡ err incomplete_record
  unfolding read_record
  torn_short sequence bytes h = ground arith

  torn_long :
      (sequence kind len : ℕ) (bytes : List ℕ)
      → 56 ≤ length bytes
      → length bytes < len + 56
      → check_header sequence (take 24 bytes) ≡ ok (kind, len)
      → len ≤ max_payload_bytes
      → read_record blake3 sequence bytes ≡ err incomplete_record
  unfolding read_record
  torn_long sequence kind len bytes h k hc hl = ground arith

  -- A record cut short at any byte, of a 64-bit sequence number and a payload within the limit, is
  -- read as an incomplete record, if the hash has 32 bytes.
  pub read_record-torn :
      (sequence kind : ℕ) (payload : List ℕ) (n : ℕ)
      → IsU64 sequence
      → length payload ≤ max_payload_bytes
      → n < length payload + 56
      → read_record blake3 sequence (take n (record_bytes blake3 sequence kind payload))
        ≡ err incomplete_record
  read_record-torn sequence kind payload n hs hp hn =
      let whole = record_bytes blake3 sequence kind payload in
      let header = record_header sequence kind (length payload) in
      let size : length (take n whole) ≡ n =
        length-take_le n whole (omega (arith, length-record_bytes sequence kind payload)) in
      elim (dec_lt n 56) [
        | yes p ↦ torn_short sequence (take n whole) (omega (arith, size))
        | no p ↦
            torn_long sequence kind (length payload) (take n whole) (omega (arith, size))
              (omega (arith, size))
              (rw
                (
                  take-take_le 24 n whole (omega arith),
                  take-append_eq 24 header (payload ++ wal_checksum blake3 header payload)
                      (length-record_header sequence kind (length payload)),
                )
                (check_header-record_header sequence kind (length payload) hs hp))
              hp
      ]

module _ (blake3 : List ℕ → Digest) (sequence : ℕ) (bytes : List ℕ) {frame : Frame} where
  -- A record that was read fits the bytes, with its header and checksum.
  read_record_fits :
      read_record blake3 sequence bytes ≡ ok frame
      → (len : ℕ) × (check_header sequence (take 24 bytes) ≡ ok (frame.kind, len))
        × (len + 56 ≤ length bytes)
        × (frame.rest ≡ drop 32 (drop len (drop 24 bytes)))
  unfolding read_record
  read_record_fits h = elim (Result-cases (check_header sequence (take 24 bytes))) [
    | inl ((kind, len), e) ↦ (len, ground arith, ground arith, ground arith)
    | inr (e, r) ↦ absurd (ground arith)
  ]

  -- A record that was read leaves fewer bytes than there were.
  pub read_record_shortens :
      read_record blake3 sequence bytes ≡ ok frame → length frame.rest < length bytes
  read_record_shortens h =
      let (len, header, fits, rest) = read_record_fits h in
      rw rest (
        omega (
          arith,
          length-drop 24 bytes,
          length-drop len (drop 24 bytes),
          length-drop 32 (drop len (drop 24 bytes)),
        ))

  -- Bytes behind a record that was read join the rest.
  pub read_record-append :
      (more : List ℕ)
      → read_record blake3 sequence bytes ≡ ok frame
      → read_record blake3 sequence (bytes ++ more)
        ≡ ok (record { kind = frame.kind; payload = frame.payload; rest = frame.rest ++ more })
  unfolding read_record
  read_record-append more h =
      let (len, header, fits, rest) = read_record_fits h in
      let body : length (drop 24 bytes) ≡ length bytes - 24 = length-drop 24 bytes in
      let tail : length (drop len (drop 24 bytes)) ≡ length bytes - 24 - len =
        omega (arith, length-drop len (drop 24 bytes), body) in
      rw
        (
          take-append_le 24 bytes more (omega arith),
          drop-append_le 24 bytes more (omega arith),
          header,
          take-append_le len (drop 24 bytes) more (omega arith),
          drop-append_le len (drop 24 bytes) more (omega arith),
          take-append_le 32 (drop len (drop 24 bytes)) more (omega arith),
          drop-append_le 32 (drop len (drop 24 bytes)) more (omega arith),
        )
        (ground (arith, length-append bytes more))
