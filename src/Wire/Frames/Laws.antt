-- ===== src/Wire/Frames/Laws.antt =====
-- What `read_frame` of integration001/src/wire.rs makes of whole, torn and oversized frames.
use avangard.Prelude.{
  ℕ, zero, suc, ◌+◌, ◌*◌, ◌^◌, ◌≤◌, ◌<◌, ◌≡◌, refl, ap, sym, subst, ◌∙◌, List, [], ◌∷◌, ◌++◌,
  length, take, drop, All, ok, err, arith, length-append, length-take_le, take-append_length,
  drop-append_length,
}
use avangard.Store.Types.{done}
use avangard.Wire.Codec.{max_frame_len, read_failed}
use avangard.Wire.Frames.{be_bytes, be_value, frame, write_bytes, write_frame, read_frame}

be_value-be_bytes : (len : ℕ) → len < 2 ^ 32 → be_value (be_bytes len) ≡ len
be_value-be_bytes len h = omega arith

pub read_frame-frame :
    (payload rest : List ℕ)
    → length payload ≤ max_frame_len
    → read_frame (frame payload ++ rest) ≡ ok (payload, rest)
unfolding read_frame
read_frame-frame payload rest h =
    let len : be_value (be_bytes (length payload)) ≡ length payload =
      be_value-be_bytes (length payload) (omega arith) in
    rw len (
      ground (
        arith,
        length-append payload rest,
        take-append_length payload rest,
        drop-append_length payload rest,
      ))

take-append-drop : (n : ℕ) (xs : List ℕ) → take n xs ++ drop n xs ≡ xs
take-append-drop zero xs = refl
take-append-drop (suc n) [] = refl
take-append-drop (suc n) (x ∷ xs) = ap (λ t. x ∷ t) (take-append-drop n xs)

be_bytes-be_value :
    (a b c d : ℕ)
    → a < 256
    → b < 256
    → c < 256
    → d < 256
    → be_bytes (((a * 256 + b) * 256 + c) * 256 + d) ≡ a ∷ b ∷ c ∷ d ∷ []
be_bytes-be_value a b c d ha hb hc hd = ground arith

-- What is read was framed.
pub read_frame_sound :
    (stream payload rest : List ℕ)
    → All (λ b. b < 256) stream
    → read_frame stream ≡ ok (payload, rest)
    → (length payload ≤ max_frame_len) × (stream ≡ frame payload ++ rest)
unfolding read_frame
read_frame_sound [] payload rest bytes h = absurd (ground arith)
read_frame_sound (a ∷ []) payload rest bytes h = absurd (ground arith)
read_frame_sound (a ∷ b ∷ []) payload rest bytes h = absurd (ground arith)
read_frame_sound (a ∷ b ∷ c ∷ []) payload rest bytes h = absurd (ground arith)
read_frame_sound (a ∷ b ∷ c ∷ d ∷ tail) payload rest (ha, (hb, (hc, (hd, bytes)))) h =
    let len = ((a * 256 + b) * 256 + c) * 256 + d in
    let header = be_bytes-be_value a b c d ha hb hc hd in
    let size = length-take_le len tail in
    let whole = take-append-drop len tail in
    let taken : take len tail ≡ payload = ground arith in
    let left : drop len tail ≡ rest = ground arith in
    let counted : length payload ≡ len = ground (arith, size) in
    let written : be_bytes (length payload) ≡ a ∷ b ∷ c ∷ d ∷ [] = ap be_bytes counted ∙ header in
    (
      ground (arith, size),
      subst (λ first. a ∷ b ∷ c ∷ d ∷ tail ≡ first ++ (payload ++ rest)) (sym written)
          (rw (← taken, ← left, whole) refl),
    )

-- A payload that was written to an empty stream is the first that is read from it, whatever is written
-- behind it.
pub read_frame-write_frame :
    (payload rest stream : List ℕ)
    → write_frame done [] payload ≡ (ok tt, stream)
    → read_frame (stream ++ rest) ≡ ok (payload, rest)
unfolding write_frame write_bytes
read_frame-write_frame payload rest stream h =
    let fits : length payload ≤ max_frame_len = ground arith in
    let same : stream ≡ frame payload = ground arith in rw same (read_frame-frame payload rest fits)

-- A frame that is cut short anywhere is not read.
pub read_frame-torn :
    (payload : List ℕ) (k : ℕ)
    → length payload ≤ max_frame_len
    → k < length payload + 4
    → read_frame (take k (frame payload)) ≡ err read_failed
unfolding read_frame
read_frame-torn payload zero fits cut = refl
read_frame-torn payload (suc zero) fits cut = refl
read_frame-torn payload (suc (suc zero)) fits cut = refl
read_frame-torn payload (suc (suc (suc zero))) fits cut = refl
read_frame-torn payload (suc (suc (suc (suc k)))) fits cut =
    let size : length (take k payload) ≡ k = length-take_le k payload (omega arith) in
    let len : be_value (be_bytes (length payload)) ≡ length payload =
      be_value-be_bytes (length payload) (omega arith) in
    rw len (ground (arith, size))
