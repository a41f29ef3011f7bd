-- ===== src/Node/Restart/Receipts.antt =====
-- `reconcile_state_with_wal` of integration001/src/node.rs: the receipts of a state and the
-- applications of a store.
use avangard.Prelude.{
  suc, ◌≡◌, refl, ap, sym, ◌∙◌, none, some, [], ◌∷◌, length, All, ok, arith, bytes_eq_refl,
}
use avangard.Prelude.Assoc.{Map, lookup, insert, lookup-insert, lookup-insert_self, bytes_has_eq}
use avangard.Prelude.Tree.{tree_insert, bytes_has_lt}
use avangard.Prelude.Tree.Order.{All-tree_insert}
use avangard.Prelude.Tree.Laws.{
  lookup-tree_insert, contains-of_none, length-tree_insert, length-insert,
}
use avangard.Store.Types.{Digest, AppliedRecord, WalStore}
use avangard.Store.Queries.{applied_record, applied_count}
use avangard.Model.Types.{ApplyReceipt, State}
use avangard.Wire.Messages.RoundTrip.{All-map}
use avangard.Node.Shape.{reconcile_receipts, reconcile_state_with_wal}

-- The receipt has a record with its certificate.
pub record IsRecorded (applied : Map Digest AppliedRecord) (intent : Digest)
    (receipt : ApplyReceipt) : Type 0 where
  pub entry : AppliedRecord
  pub found : lookup intent applied ≡ some entry
  pub certificate : entry.certificate_digest ≡ receipt.certificate_digest

-- The receipts and the applications are of the same intents, with the same certificates.
pub record IsReconciled (receipts : Map Digest ApplyReceipt) (applied : Map Digest AppliedRecord)
    : Type 0 where
  pub count : length receipts ≡ length applied
  pub recorded : All (λ (intent, receipt). IsRecorded applied intent receipt) receipts
  pub complete : (intent : Digest) → lookup intent receipts ≡ none → lookup intent applied ≡ none

reconcile_receipts-recorded :
    (store : WalStore) (receipts : Map Digest ApplyReceipt)
    → All (λ (intent, receipt). IsRecorded store.applied intent receipt) receipts
    → reconcile_receipts store receipts ≡ ok tt
unfolding reconcile_receipts applied_record
reconcile_receipts-recorded store [] all = refl
reconcile_receipts-recorded store ((intent, receipt) ∷ receipts) (p, all) =
    rw (p.found, p.certificate, bytes_eq_refl receipt.certificate_digest)
      (reconcile_receipts-recorded store receipts all)

pub reconcile-IsReconciled :
    (state : State) (store : WalStore)
    → IsReconciled state.applied store.applied
    → reconcile_state_with_wal state store ≡ ok tt
unfolding reconcile_state_with_wal applied_count
reconcile-IsReconciled state store r =
    ground (arith, r.count, reconcile_receipts-recorded store state.applied r.recorded)

pub IsReconciled-empty : IsReconciled [] []
IsReconciled-empty = record {
  count = refl;
  recorded = tt;
  complete = λ intent h. unfold lookup in refl;
}

-- A new intent, in both.
pub insert-IsReconciled :
    (intent : Digest) (receipt : ApplyReceipt) (entry : AppliedRecord)
    (receipts : Map Digest ApplyReceipt) (applied : Map Digest AppliedRecord)
    → lookup intent receipts ≡ none
    → entry.certificate_digest ≡ receipt.certificate_digest
    → IsReconciled receipts applied
    → IsReconciled (tree_insert intent receipt receipts) (insert intent entry applied)
insert-IsReconciled intent receipt entry receipts applied new same r =
    let absent = r.complete intent new in
    record {
      count =
          length-tree_insert intent receipt receipts (contains-of_none intent receipts new)
          ∙ ap suc r.count
          ∙ sym (length-insert intent entry applied (contains-of_none intent applied absent));
      recorded =
          All-tree_insert _ intent receipt receipts
            (record {
              entry = entry;
              found = lookup-insert_self intent entry applied;
              certificate = same;
            })
            (All-map receipts
              (λ (i, old) p. record {
                entry = p.entry;
                found = ground (
                  arith,
                  lookup-insert intent i entry applied,
                  bytes_has_eq.beq_iff intent i,
                  p.found,
                  absent,
                );
                certificate = p.certificate;
              })
              r.recorded);
      complete = λ i h. ground (
        arith,
        lookup-tree_insert intent i receipt receipts,
        lookup-insert intent i entry applied,
        r.complete i,
      );
    }
