-- ===== src/Wire/Frames.antt =====
-- Frames of integration001/src/wire.rs: a payload behind its length. A stream is the bytes that pass
-- through it; `Io` says how much of a write it takes.
pub mod Laws
use avangard.Prelude.{
  ℕ, ◌+◌, ◌*◌, ◌/◌, ◌%◌, ◌^◌, List, [], ◌∷◌, ◌++◌, ltb, length, take, drop, get_or, Result, ok, err,
  ◌>>=◌, ◌>>◌, reject_if, if◌then◌else◌,
}
use avangard.Store.Types.{Io, done, failed, u32_max}
use avangard.Wire.Codec.{WireError, payload_exceeds_frame, max_frame_len, write_failed, read_failed}

-- `u32::to_be_bytes` and `u32::from_be_bytes`
abbrev pub be_bytes : ℕ → List ℕ
be_bytes len = len / 2 ^ 24 % 256 ∷ len / 2 ^ 16 % 256 ∷ len / 2 ^ 8 % 256 ∷ len % 256 ∷ []

abbrev pub be_value : List ℕ → ℕ
be_value header =
    ((get_or header 0 0 * 256 + get_or header 1 0) * 256 + get_or header 2 0) * 256
    + get_or header 3 0

abbrev pub frame : List ℕ → List ℕ
frame payload = be_bytes (length payload) ++ payload

-- `write_all` twice, and `flush`
unfoldable pub write_bytes : Io → List ℕ → List ℕ → Result WireError (Unit {0}) × List ℕ
write_bytes done stream bytes = (ok tt, stream ++ bytes)
write_bytes (failed n) stream bytes = (err write_failed, stream ++ take n bytes)

unfoldable pub write_frame : Io → List ℕ → List ℕ → Result WireError (Unit {0}) × List ℕ
unfolding write_bytes
write_frame io stream payload =
    if ltb max_frame_len (length payload)
    then (err payload_exceeds_frame, stream)
    else if ltb u32_max (length payload)
    then (err payload_exceeds_frame, stream)
    else write_bytes io stream (frame payload)

-- The payload, and what is left of the stream.
unfoldable pub read_frame : List ℕ → Result WireError (List ℕ × List ℕ)
read_frame stream = do
  reject_if (ltb (length stream) 4) read_failed
  let len = be_value (take 4 stream)
  reject_if (ltb max_frame_len len) payload_exceeds_frame
  let rest = drop 4 stream
  reject_if (ltb (length rest) len) read_failed
  ok (take len rest, drop len rest)
