-- ===== src/Model/Root/Certificates.antt =====
-- `state_root` of integration001/src/model.rs and the certificates that a validator happened to see.
use avangard.Prelude.{suc, ◌≡◌, refl, ap, [], ◌∷◌, length}
use avangard.Prelude.Assoc.{Map}
use avangard.Store.Types.{Digest}
use avangard.Model.Types.{ApplyReceipt, State, Keys}
use avangard.Model.Root.{applied_bytes, state_root}

-- The receipts with other certificate digests.
abbrev pub recertify : (Digest → Digest) → Map Digest ApplyReceipt → Map Digest ApplyReceipt
recertify other [] = []
recertify other ((intent, receipt) ∷ entries) =
    (intent, record receipt { certificate_digest = other intent }) ∷ recertify other entries

length-recertify :
    (other : Digest → Digest) (entries : Map Digest ApplyReceipt)
    → length (recertify other entries) ≡ length entries
length-recertify other [] = refl
length-recertify other ((intent, receipt) ∷ entries) = ap suc (length-recertify other entries)

applied_bytes-recertify :
    (other : Digest → Digest) (entries : Map Digest ApplyReceipt)
    → applied_bytes (recertify other entries) ≡ applied_bytes entries
unfolding applied_bytes
applied_bytes-recertify other [] = refl
applied_bytes-recertify other ((intent, receipt) ∷ entries) =
    rw (applied_bytes-recertify other entries) refl

-- States that differ in the certificate digests of their receipts only, in any of them, have the
-- same root.
pub state_root-recertify :
    (keys : Keys) (other : Digest → Digest) (state : State)
    → state_root keys (record state { applied = recertify other state.applied })
      ≡ state_root keys state
unfolding state_root
state_root-recertify keys other state =
    rw (length-recertify other state.applied, applied_bytes-recertify other state.applied) refl
