-- ===== src/Store/Codec/RoundTrip.antt =====
-- What the `take_*` readers and `decode_snapshot` of integration001/src/store.rs read back from what
-- the writers wrote, whatever follows.
use mathlib.Core.List.{append_assoc, append-nil}
use avangard.Prelude.{
  ℕ, ◌+◌, ◌^◌, ◌≤◌, ◌<◌, ◌≡◌, refl, List, [], ◌∷◌, ◌++◌, length, length-append, take-append_length,
  drop-append_length, ok, arith,
}
use avangard.Prelude.Bytes.{le_value-le_bytes}
use avangard.Store.Types.{Digest, Snapshot, max_snapshot_bytes, digest_len}
use avangard.Store.Codec.{
  put_u64, put_u32, encode_snapshot, take_bytes, take_u8, take_u32, take_u64, take_digest, finish,
  decode_snapshot, decode_snapshot_exact,
}

abbrev pub IsDigest : Digest → Type 0
IsDigest d = length d ≡ digest_len

abbrev pub IsU64 : ℕ → Type 0
IsU64 n = n < 2 ^ 64

-- What the Rust types say of a snapshot, and the size that `encode_snapshot` accepts.
pub record IsWide (s : Snapshot) : Type 0 where
  pub committee_hash : IsDigest s.committee_hash
  pub epoch : IsU64 s.epoch
  pub state_root : IsDigest s.state_root
  pub bytes : length s.bytes ≤ max_snapshot_bytes

pub take_bytes-append :
    (n : ℕ) (xs rest : List ℕ) → length xs ≡ n → take_bytes n (xs ++ rest) ≡ ok (xs, rest)
unfolding take_bytes
take_bytes-append n xs rest h =
    rw (← h) (
      ground (arith, length-append xs rest, take-append_length xs rest, drop-append_length xs rest))

pub take_digest-append : (d rest : List ℕ) → IsDigest d → take_digest (d ++ rest) ≡ ok (d, rest)
unfolding take_digest
take_digest-append d rest h = take_bytes-append 32 d rest h

pub take_u64-append :
    (n : ℕ) (rest : List ℕ) → IsU64 n → take_u64 (put_u64 n ++ rest) ≡ ok (n, rest)
unfolding take_u64
take_u64-append n rest h = ground (arith, le_value-le_bytes 8 n)

pub take_u32-append :
    (n : ℕ) (rest : List ℕ) → n < 2 ^ 32 → take_u32 (put_u32 n ++ rest) ≡ ok (n, rest)
unfolding take_u32
take_u32-append n rest h = ground (arith, le_value-le_bytes 4 n)

pub take_u8-cons : (n : ℕ) (rest : List ℕ) → take_u8 (n ∷ rest) ≡ ok (n, rest)
unfolding take_u8
take_u8-cons n rest = ground arith

-- The bytes of a snapshot, field by field.
abbrev pub snapshot_bytes : Snapshot → List ℕ
snapshot_bytes s =
    s.committee_hash ++ (put_u64 s.epoch ++ (s.state_root ++ (put_u32 (length s.bytes) ++ s.bytes)))

pub encode_snapshot-IsWide : (s : Snapshot) → IsWide s → encode_snapshot s ≡ ok (snapshot_bytes s)
unfolding encode_snapshot
encode_snapshot-IsWide s w = ground arith

pub length-snapshot_bytes :
    (s : Snapshot) → IsWide s → length (snapshot_bytes s) ≡ 76 + length s.bytes
length-snapshot_bytes s w = simp length-append (omega arith)

pub decode_snapshot-append :
    (s : Snapshot) (rest : List ℕ)
    → IsWide s
    → decode_snapshot (snapshot_bytes s ++ rest) ≡ ok (s, rest)
unfolding decode_snapshot
decode_snapshot-append s rest w =
    rw
      (
        append_assoc s.committee_hash,
        take_digest-append s.committee_hash _ w.committee_hash,
        append_assoc (put_u64 s.epoch),
        take_u64-append s.epoch _ w.epoch,
        append_assoc,
        take_digest-append s.state_root _ w.state_root,
        append_assoc,
        take_u32-append (length s.bytes) _ (omega arith),
      )
      (ground (arith, take_bytes-append (length s.bytes) s.bytes rest refl))

-- A snapshot of accepted size, whose fields have their widths, comes back from its encoding, with
-- whatever follows it.
pub decode-encode_snapshot :
    (s : Snapshot) (encoded rest : List ℕ)
    → IsWide s
    → encode_snapshot s ≡ ok encoded
    → decode_snapshot (encoded ++ rest) ≡ ok (s, rest)
decode-encode_snapshot s encoded rest w e =
    ground (arith, encode_snapshot-IsWide s w, decode_snapshot-append s rest w)

pub decode_snapshot_exact-bytes :
    (s : Snapshot) → IsWide s → decode_snapshot_exact (snapshot_bytes s) ≡ ok s
unfolding decode_snapshot_exact finish
decode_snapshot_exact-bytes s w =
    ground (arith, append-nil (snapshot_bytes s), decode_snapshot-append s [] w)

-- The same at the end of a payload.
pub take_digest_all : (d : List ℕ) → IsDigest d → take_digest d ≡ ok (d, [])
take_digest_all d h = rw (append-nil d) at (take_digest-append d [] h)

pub decode_snapshot_all :
    (s : Snapshot) → IsWide s → decode_snapshot (snapshot_bytes s) ≡ ok (s, [])
decode_snapshot_all s w = rw (append-nil (snapshot_bytes s)) at (decode_snapshot-append s [] w)
