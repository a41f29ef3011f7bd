-- ===== src/Wire/Codec.antt =====
-- `Encoder` and `Decoder` of integration001/src/wire.rs. What is encoded is the bytes that are
-- appended; a reader returns what it read with the bytes that are left, those from `offset` on.
use avangard.Prelude.{
  ℕ, zero, suc, ◌*◌, ◌==◌, Bool, true, false, List, [], ◌∷◌, ◌++◌, ltb, length, take, drop, get_or,
  Result, ok, err, ◌>>=◌, ◌>>◌, reject_if, if◌then◌else◌,
}
use avangard.Prelude.Bytes.{le_bytes, le_value}
use avangard.Store.Types.{u32_max}

-- The messages that the file returns in `Err`, without their labels.
pub data WireError : Type 0 where
  -- readers
  truncated invalid_boolean trailing_bytes : WireError
  -- sizes
  count_exceeds_bound payload_exceeds_frame : WireError
  -- messages
  invalid_vote_phase empty_qc_votes empty_outputs duplicate_member_index : WireError
  live_key_mismatch applied_key_mismatch : WireError
  duplicate_live duplicate_spent duplicate_known_id duplicate_applied : WireError
  duplicate_snapshot_cell : WireError
  invalid_request_tag invalid_response_tag invalid_lifecycle : WireError
  -- frames
  write_failed read_failed : WireError

abbrev pub max_frame_len : ℕ
max_frame_len = 1024 * 1024

abbrev pub max_collection_len : ℕ
max_collection_len = 2048

-- What goes on with the bytes that are left.
abbrev pub Take {ℓ} : Type ℓ → Type ℓ
Take A = List ℕ → Result WireError (A × List ℕ)

infixl 5 ◌then_take◌
unfoldable pub ◌then_take◌ {ℓ κ} : {A : Type ℓ} {B : Type κ} → Take A → (A → Take B) → Take B
◌then_take◌ m k input = do (a, rest) ← m input; k a rest

unfoldable pub pure_take {ℓ} : {A : Type ℓ} → A → Take A
pure_take a input = ok (a, input)

unfoldable pub fail_take {ℓ} : {A : Type ℓ} → WireError → Take A
fail_take e input = err e

-- `Encoder`
abbrev pub put_u16 : ℕ → List ℕ
put_u16 value = le_bytes 2 value

abbrev pub put_u32 : ℕ → List ℕ
put_u32 value = le_bytes 4 value

abbrev pub put_u64 : ℕ → List ℕ
put_u64 value = le_bytes 8 value

abbrev pub put_u8 : ℕ → List ℕ
put_u8 value = value ∷ []

abbrev pub put_bool : Bool → List ℕ
put_bool true = 1 ∷ []
put_bool false = 0 ∷ []

unfoldable pub put_bounded_count : ℕ → ℕ → Result WireError (List ℕ)
put_bounded_count count max = do
  reject_if (ltb max count) count_exceeds_bound
  reject_if (ltb u32_max count) count_exceeds_bound
  ok (put_u32 count)

-- `for value in values`, with what is appended for each
abbrev pub concat_map {ℓ} : {A : Type ℓ} → (A → List ℕ) → List A → List ℕ
concat_map put [] = []
concat_map put (a ∷ values) = put a ++ concat_map put values

-- the same, where what is appended may fail
unfoldable pub put_all {ℓ} :
    {A : Type ℓ} → (A → Result WireError (List ℕ)) → List A → Result WireError (List ℕ)
put_all put [] = ok []
put_all put (a ∷ values) = do bytes ← put a; rest ← put_all put values; ok (bytes ++ rest)

-- `Encoder::finish`, behind what was appended
unfoldable pub finish_encoder : Result WireError (List ℕ) → Result WireError (List ℕ)
finish_encoder encoded = do
  bytes ← encoded
  reject_if (ltb max_frame_len (length bytes)) payload_exceeds_frame
  ok bytes

-- `Decoder::take`
unfoldable pub take_raw : ℕ → Take (List ℕ)
take_raw len input = do
  reject_if (ltb (length input) len) truncated
  ok (take len input, drop len input)

unfoldable pub take_u8 : Take ℕ
unfolding take_raw
take_u8 input = do (raw, rest) ← take_raw 1 input; ok (get_or raw 0 0, rest)

unfoldable pub take_bool : Take Bool
unfolding take_u8
take_bool input = do
  (value, rest) ← take_u8 input
  if value == 0
      then ok (false, rest)
      else if value == 1
      then ok (true, rest)
      else err invalid_boolean

-- The integers of `width` bytes.
unfoldable pub take_le : ℕ → Take ℕ
unfolding take_raw
take_le width input = do (raw, rest) ← take_raw width input; ok (le_value raw, rest)

abbrev pub take_u16 : Take ℕ
take_u16 = take_le 2

abbrev pub take_u32 : Take ℕ
take_u32 = take_le 4

abbrev pub take_u64 : Take ℕ
take_u64 = take_le 8

unfoldable pub check_count : ℕ → ℕ → Take ℕ
check_count max count input = if ltb max count then err count_exceeds_bound else ok (count, input)

unfoldable pub take_bounded_count : ℕ → Take ℕ
take_bounded_count max = take_u32 then_take check_count max

-- `for _ in 0..count`
unfoldable pub take_many {ℓ} : {A : Type ℓ} → Take A → ℕ → Take (List A)
take_many item zero = pure_take []
take_many item (suc count) =
    item then_take λ a. take_many item count then_take λ rest. pure_take (a ∷ rest)

-- `Decoder::new`, a reader, and `Decoder::finish`
unfoldable pub decode_exact {ℓ} : {A : Type ℓ} → Take A → List ℕ → Result WireError A
decode_exact item bytes = do
  reject_if (ltb max_frame_len (length bytes)) payload_exceeds_frame
  (a, rest) ← item bytes
  reject_if (ltb 0 (length rest)) trailing_bytes
  ok a
