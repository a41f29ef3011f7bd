-- ===== src/Wire/Reads.antt =====
-- Readers that take back what was written: `Decoder` against `Encoder` of integration001/src/wire.rs.
use avangard.Prelude.{
  ℕ, ◌^◌, ◌≤◌, ◌<◌, ◌≡◌, refl, Bool, true, false, List, [], ◌∷◌, ◌++◌, length, All, Result, ok, err,
  arith, length-append, take-append_eq, drop-append_eq, inl, inr, Result-cases, subst,
}
use mathlib.Core.List.{append_assoc, append-nil}
use avangard.Prelude.Bytes.{le_bytes, le_value-le_bytes, length-le_bytes}
use avangard.Store.Types.{u32_max}
use avangard.Wire.Codec.{
  WireError, Take, max_frame_len, ◌then_take◌, pure_take, put_u8, put_bool, put_u16, put_u32,
  put_u64, put_bounded_count, finish_encoder, take_raw, take_u8, take_bool, take_le, take_u16,
  take_u32, take_u64, check_count, take_bounded_count, take_many, decode_exact, concat_map,
  trailing_bytes,
}

-- The reader takes the value off these bytes, whatever follows them.
pub record Reads {ℓ} {A : Type ℓ} (item : Take A) (bytes : List ℕ) (a : A) : Type ℓ where
  pub off : (rest : List ℕ) → item (bytes ++ rest) ≡ ok (a, rest)

module _ {ℓ κ} {A : Type ℓ} {B : Type κ} where
  pub Reads-then :
      {m : Take A} (k : A → Take B) {xs ys : List ℕ} {a : A} {b : B}
      → Reads m xs a
      → Reads (k a) ys b
      → Reads (m then_take k) (xs ++ ys) b
  unfolding ◌then_take◌
  Reads-then {m} k {xs} {ys} {a} {b} h h' = record {
    off = λ rest. rw (append_assoc xs ys rest, h.off (ys ++ rest)) (h'.off rest);
  }

  pub Reads-last :
      {m : Take A} (k : A → Take B) {xs : List ℕ} {a : A} {b : B}
      → Reads m xs a
      → Reads (k a) [] b
      → Reads (m then_take k) xs b
  unfolding ◌then_take◌
  Reads-last {m} k {xs} {a} {b} h h' = record { off = λ rest. rw (h.off rest) (h'.off rest) }

pub Reads-pure {ℓ} : {A : Type ℓ} {a : A} → Reads (pure_take a) [] a
unfolding pure_take
Reads-pure = record { off = λ rest. refl }

pub Reads-raw : (len : ℕ) (bytes : List ℕ) → length bytes ≡ len → Reads (take_raw len) bytes bytes
unfolding take_raw
Reads-raw len bytes h = record {
  off = λ rest. ground (
    arith,
    length-append bytes rest,
    take-append_eq len bytes rest h,
    drop-append_eq len bytes rest h,
  );
}

pub Reads-u8 : (n : ℕ) → Reads take_u8 (put_u8 n) n
unfolding take_u8 take_raw
Reads-u8 n = record { off = λ rest. ground arith }

pub Reads-bool : (b : Bool) → Reads take_bool (put_bool b) b
unfolding take_bool take_u8 take_raw
Reads-bool true = record { off = λ rest. ground arith }
Reads-bool false = record { off = λ rest. ground arith }

Reads-le : (width n : ℕ) → n < 256 ^ width → Reads (take_le width) (le_bytes width n) n
unfolding take_le
Reads-le width n h = record {
  off = λ rest.
      rw
        (
          (Reads-raw width (le_bytes width n) (length-le_bytes width n)).off rest,
          le_value-le_bytes width n h,
        )
        refl;
}

pub Reads-u16 : (n : ℕ) → n < 2 ^ 16 → Reads take_u16 (put_u16 n) n
Reads-u16 n h = Reads-le 2 n (omega arith)

pub Reads-u32 : (n : ℕ) → n < 2 ^ 32 → Reads take_u32 (put_u32 n) n
Reads-u32 n h = Reads-le 4 n (omega arith)

pub Reads-u64 : (n : ℕ) → n < 2 ^ 64 → Reads take_u64 (put_u64 n) n
Reads-u64 n h = Reads-le 8 n (omega arith)

Reads-check : (max count : ℕ) → count ≤ max → Reads (check_count max count) [] count
unfolding check_count
Reads-check max count h = record { off = λ rest. ground arith }

pub Reads-bounded_count :
    (max count : ℕ) {bytes : List ℕ}
    → put_bounded_count count max ≡ ok bytes
    → Reads (take_bounded_count max) bytes count
unfolding put_bounded_count take_bounded_count
Reads-bounded_count max count {bytes} h =
    let fits : count ≤ max = ground arith in
    let small : count ≤ u32_max = ground arith in
    let same : put_u32 count ≡ bytes = ground arith in
    subst (λ t. Reads (take_bounded_count max) t count) same
      (Reads-last _ (Reads-u32 count (omega arith)) (Reads-check max count fits))

-- A value behind the decoder's two checks.
pub decode_exact-Reads {ℓ} :
    {A : Type ℓ} (item : Take A) (written : Result WireError (List ℕ)) (a : A) {bytes : List ℕ}
    → ((xs : List ℕ) → written ≡ ok xs → Reads item xs a)
    → finish_encoder written ≡ ok bytes
    → decode_exact item bytes ≡ ok a
unfolding finish_encoder decode_exact
decode_exact-Reads item written a {bytes} h e = elim (Result-cases written) [
  | inr (x, refused) ↦ absurd (ground arith)
  | inl (xs, put) ↦
      let size : length xs ≤ max_frame_len = ground arith in
      let same : xs ≡ bytes = ground arith in
      let read : item xs ≡ ok (a, []) = rw (append-nil xs) at ((h xs put).off []) in
      ground (arith, read)
]

-- A value behind which bytes are left over.
pub decode_exact_trailing {ℓ} :
    {A : Type ℓ} (item : Take A) (bytes extra : List ℕ) (a : A)
    → Reads item bytes a
    → length (bytes ++ extra) ≤ max_frame_len
    → 0 < length extra
    → decode_exact item (bytes ++ extra) ≡ err trailing_bytes
unfolding decode_exact
decode_exact_trailing item bytes extra a h fits more =
    let read : item (bytes ++ extra) ≡ ok (a, extra) = h.off extra in ground (arith, read)

pub Reads-many {ℓ} :
    {A : Type ℓ} (item : Take A) (put : A → List ℕ) (values : List A)
    → All (λ a. Reads item (put a) a) values
    → Reads (take_many item (length values)) (concat_map put values) values
unfolding take_many
Reads-many item put [] all = Reads-pure
Reads-many item put (a ∷ values) (h, all) =
    Reads-then _ h (Reads-last _ (Reads-many item put values all) Reads-pure)
