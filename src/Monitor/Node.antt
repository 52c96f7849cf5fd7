-- ===== src/Monitor/Node.antt =====
-- What the monitor asks of other code: the transaction in its serialised form, and the node.
use minotari_cli.Base.{
  Bool, Option, Result, decoding, false, if◌then◌else◌, missing_field, network, none, ok, or_fail,
  some, true, ℕ, ◌>>=◌, ◌||◌,
}
use minotari_cli.Db.Tables.{CompletedTransaction}
use minotari_cli.Models.{RejectReason, broadcast_failed, deserialization_failed, rejected_by_node}

-- the node's answer to a transaction, and to the question where a kernel is
pub record SubmitResponse : Type 0 where
  pub accepted : Bool
  pub rejection_reason : ℕ

pub record QueryResponse : Type 0 where
  pub is_mined : Bool
  pub mined_height : Option ℕ
  pub mined_header_hash : Option ℕ

-- `serde_json::from_slice`, the signature of the first kernel, and the HTTP client; `none` where the
-- call fails.
pub record Network : Type 0 where
  pub from_slice : ℕ → Option ℕ
  pub first_kernel : ℕ → Option ℕ
  pub submit_transaction : ℕ → Option SubmitResponse
  pub transaction_query : ℕ → Option QueryResponse
  pub is_already_mined : ℕ → Bool

-- the verdict on the node's answer
abbrev accepted_or : Network → SubmitResponse → Option RejectReason
accepted_or net r =
    if r.accepted || net.is_already_mined r.rejection_reason
    then none
    else some (rejected_by_node r.rejection_reason)

-- `none` where the broadcast succeeds, else the reason of its failure
unfoldable pub broadcast_transaction : Network → CompletedTransaction → Option RejectReason
broadcast_transaction net t = elim (net.from_slice t.serialized_transaction) [
  | none ↦ some deserialization_failed
  | some transaction ↦ elim (net.submit_transaction transaction) [
    | none ↦ some broadcast_failed
    | some response ↦ accepted_or net response
  ]
]

-- the height and the hash of the block that has the kernel
abbrev mined_at : QueryResponse → Result (Option (ℕ × ℕ))
mined_at r = elim r.is_mined [
  | false ↦ ok none
  | true ↦ do
    height ← or_fail r.mined_height missing_field
    hash ← or_fail r.mined_header_hash missing_field
    ok (some (height, hash))
]

unfoldable pub find_kernel_on_chain : Network → CompletedTransaction → Result (Option (ℕ × ℕ))
find_kernel_on_chain net t = do
  transaction ← or_fail (net.from_slice t.serialized_transaction) decoding
  kernel ← or_fail (net.first_kernel transaction) missing_field
  response ← or_fail (net.transaction_query kernel) network
  mined_at response
