-- ===== src/Transaction/Status.antt =====
-- Statuses and types of a transaction (src/transaction/enums) and the two views of a status
-- (src/transaction/helpers/transaction-status.helper.ts).
use api_payment.Common.{◌≡◌, ◌↔◌, arith, List, [], ◌∷◌}
use api_payment.Common.Lists.{AnyOf}

pub data TransactionStatus : Type 0 where
  created pending in_process done undone canceled failed : TransactionStatus
  refund_pending refunded reproved : TransactionStatus

pub data TransactionSemanticStatus : Type 0 where
  processing success failed refunded : TransactionSemanticStatus

pub data TransactionType : Type 0 where
  pix_cash_in pix_cash_out pix_refund boleto_cash_in bill_payment ted_in ted_out : TransactionType

-- `getSemanticStatus`; the `default` of its switch is reached by no status.
unfoldable pub get_semantic_status : TransactionStatus → TransactionSemanticStatus
get_semantic_status created = processing
get_semantic_status pending = processing
get_semantic_status in_process = processing
get_semantic_status refund_pending = processing
get_semantic_status done = success
get_semantic_status undone = TransactionSemanticStatus.failed
get_semantic_status canceled = TransactionSemanticStatus.failed
get_semantic_status TransactionStatus.failed = TransactionSemanticStatus.failed
get_semantic_status reproved = TransactionSemanticStatus.failed
get_semantic_status TransactionStatus.refunded = TransactionSemanticStatus.refunded

-- `getDetailedStatuses`
unfoldable pub get_detailed_statuses : TransactionSemanticStatus → List TransactionStatus
get_detailed_statuses processing = created ∷ pending ∷ in_process ∷ refund_pending ∷ []
get_detailed_statuses success = done ∷ []
get_detailed_statuses TransactionSemanticStatus.failed =
    undone ∷ canceled ∷ TransactionStatus.failed ∷ reproved ∷ []
get_detailed_statuses TransactionSemanticStatus.refunded = TransactionStatus.refunded ∷ []

-- The filter of the statement agrees with what a statement shows: a detailed status is on the
-- list of a semantic status exactly when it is shown as that one.
pub detailed_iff_semantic :
    (d : TransactionStatus) (s : TransactionSemanticStatus)
    → AnyOf d (get_detailed_statuses s) ↔ (get_semantic_status d ≡ s)
unfolding get_semantic_status get_detailed_statuses
detailed_iff_semantic created s = ground arith
detailed_iff_semantic _ s = ground arith
