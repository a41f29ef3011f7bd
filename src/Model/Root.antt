-- ===== src/Model/Root.antt =====
-- `state_root` of integration001/src/model.rs.
pub mod Certificates
use avangard.Prelude.{ℕ, List, [], ◌∷◌, ◌++◌, length}
use avangard.Prelude.Assoc.{Map}
use avangard.Store.Types.{Digest}
use avangard.Model.Types.{
  CellRef, Cell, ApplyReceipt, State, Keys, protocol_version, put_u16, put_u32, put_u64,
  hash_domain,
}
use avangard.Model.Transaction.{reference_bytes}

unfoldable pub live_bytes : Map CellRef Cell → List ℕ
live_bytes [] = []
live_bytes ((reference, cell) ∷ live) =
    reference_bytes reference
    ++ (put_u64 cell.amount
        ++ (cell.owner ++ (cell.predecessor ++ (cell.state_digest ++ live_bytes live))))

unfoldable pub spent_bytes : Map CellRef Digest → List ℕ
spent_bytes [] = []
spent_bytes ((reference, intent) ∷ spent_by) =
    reference_bytes reference ++ (intent ++ spent_bytes spent_by)

unfoldable pub id_bytes : Map Digest (Unit {0}) → List ℕ
id_bytes [] = []
id_bytes ((id, _) ∷ known_ids) = id ++ id_bytes known_ids

unfoldable pub refs_bytes : List CellRef → List ℕ
refs_bytes [] = []
refs_bytes (reference ∷ refs) = reference_bytes reference ++ refs_bytes refs

unfoldable pub applied_bytes : Map Digest ApplyReceipt → List ℕ
applied_bytes [] = []
applied_bytes ((intent, receipt) ∷ entries) =
    intent
    ++ (put_u32 (length receipt.output_refs)
        ++ (refs_bytes receipt.output_refs ++ applied_bytes entries))

unfoldable pub state_root : Keys → State → Digest
state_root keys state = hash_domain keys "CALIBRE_INTEGRATION001_STATE_ROOT_V1" (
    put_u16 protocol_version
    ++ (put_u32 (length state.live)
        ++ (live_bytes state.live
            ++ (put_u32 (length state.spent_by)
                ++ (spent_bytes state.spent_by
                    ++ (put_u32 (length state.known_ids)
                        ++ (id_bytes state.known_ids
                            ++ (put_u32 (length state.applied)
                                ++ applied_bytes state.applied))))))))
