-- ===== src/Node/Examples/Ledger.antt =====
-- The ledger of a server through requests, at concrete inputs.
use avangard.Model.Transaction.{
  compute_cell_digest, genesis_reference, make_genesis_cell, reference_bytes, validate_cell,
}
use avangard.Prelude.Tree.{contains, place, tree_insert}
use avangard.Model.Manifest.{lab_user_key}
use avangard.Prelude.{◌≡◌, refl, true, Bool, List, [], ◌∷◌, ok, bytes_eq}
use avangard.Prelude.Assoc.{lookup, insert, bytes_has_eq}
use avangard.Store.Types.{Io, done, failed}
use avangard.Model.Types.{hash_domain}
use avangard.Model.Ledger.{total_value, fold_value, from_cells, add_genesis}
use avangard.Model.Ledger.Invariant.{IsLedger, from_cells-IsLedger}
use avangard.Model.Examples.{toy_keys, input, tx, prevote_qc, precommit_qc, start}
use avangard.Wire.Requests.{Request, query_state}
use avangard.Wire.Requests
use avangard.Node.Ledger.{serve_all, serve_all-conserves}
use avangard.Node.Examples.{server, proposal, auth}

start_made : from_cells toy_keys (input ∷ []) ≡ ok start
unfolding hash_domain lab_user_key reference_bytes compute_cell_digest genesis_reference
    make_genesis_cell validate_cell contains tree_insert place insert lookup bytes_eq add_genesis
    from_cells
start_made = refl

start_total : total_value start ≡ ok 100
unfolding hash_domain lab_user_key reference_bytes compute_cell_digest genesis_reference
    make_genesis_cell validate_cell contains tree_insert place insert lookup bytes_eq add_genesis
    from_cells total_value fold_value
start_total = refl

-- A vote, an application whose record is cut short, the application again, and a query.
abbrev requests : List (Io × Bool × Request)
requests =
    (done, true, Requests.prevote proposal)
    ∷ (failed 7, true, Requests.apply tx auth prevote_qc precommit_qc)
    ∷ (done, true, Requests.apply tx auth prevote_qc precommit_qc)
    ∷ (done, true, query_state)
    ∷ []

serve_all-conserves_example :
    IsLedger (serve_all toy_keys requests server).state
    × (total_value (serve_all toy_keys requests server).state ≡ ok 100)
serve_all-conserves_example =
    serve_all-conserves toy_keys requests server 100
      (from_cells-IsLedger toy_keys (input ∷ []) start_made) start_total
