-- ===== src/Examples/Locking.antt =====
-- The theorems on locks and on the texts of statuses, applied.
use minotari_cli.Models.OutputStatus
use minotari_cli.Models.PendingTransactionStatus
use minotari_cli.Models.CompletedTransactionStatus
use minotari_cli.Base.{
  List, Result, [], err, false, none, ok, refl, some, true, update_where, ℕ, ◌*◌, ◌+◌, ◌∷◌, ◌≡◌,
  ◌⊎◌,
}
use minotari_cli.Db.Outputs.{
  fetch_unspent_outputs, get_total_unspent_balance, lock_output, row_locked, row_unlocked,
  unlock_outputs_for_request,
}
use minotari_cli.Db.PendingTransactions.{
  LockFundsResult, create_pending_transaction, find_expired_pending_transactions,
  find_pending_transaction_by_idempotency_key,
  find_pending_transaction_locked_funds_by_idempotency_key, member, set_pending_status,
}
use minotari_cli.Db.ScannedTipBlocks.{get_latest_scanned_tip_block_by_account}
use minotari_cli.Db.Tables.{Db}
use minotari_cli.Examples.Wallets.{first_locks, wallet}
use minotari_cli.Funds.Locker.{
  LockRequest, find_existing, lock, lock_all, lock_new, unlock_expired_transactions,
}
use minotari_cli.Funds.Selector.{Wallet, fetch_unspent, selection_of}
use minotari_cli.Locks.Again.{lock-again}
use minotari_cli.Locks.Locking.{is_selected, lock_all-rows, unlock-lock_all}
use minotari_cli.Locks.Release.{is_held_by, unlock_expired_transactions-rows}
use minotari_cli.Locks.Replay.{IsNewLock, lock-new_or_replay}
use minotari_cli.Models.CompletedTransactionStatus.{CompletedTransactionStatus}
use minotari_cli.Models.OutputStatus.{OutputStatus}
use minotari_cli.Models.PendingTransactionStatus.{PendingTransactionStatus}

-- a search that takes the first output there is
abbrev services : Wallet
services = record {
  calculate = λ per_gram kernels inputs outputs size. per_gram * (kernels + inputs + outputs);
  search = λ r. elim r.utxos [
    | [] ↦ ok none
    | u ∷ us ↦ ok (
        some (record {
          current_value = u.output.value;
          has_change = true;
          final_fee = 2;
          selected_utxos = u ∷ [];
        }))
  ];
  default_size = ok 10;
}

abbrev request : LockRequest
request = record {
  account_id = 1;
  amount = 5;
  num_outputs = 1;
  fee_per_gram = 1;
  estimated_output_size = none;
  idempotency_key = some 77;
  seconds_to_lock_utxos = 60;
  confirmation_window = 1;
}

abbrev or_wallet {ℓ} : {A : Type ℓ} → A → Result (A × Db) → A × Db
or_wallet a (ok r) = r
or_wallet a (err e) = (a, wallet)

abbrev no_funds : LockFundsResult
no_funds = record {
  utxos = [];
  requires_change_output = false;
  total_value = 0;
  fee_without_change = 0;
  fee_with_change = 0;
}

abbrev lock_outcome : LockFundsResult × Db
lock_outcome = or_wallet no_funds (lock services 4000 900 901 request wallet)

lock-new_or_replay_example :
    ((find_existing (some 77) 1 wallet ≡ some lock_outcome.0) × (lock_outcome.1 ≡ wallet))
    ⊎ IsNewLock services 4000 900 901 request wallet lock_outcome.0 lock_outcome.1
unfolding lock lock_new fetch_unspent find_pending_transaction_locked_funds_by_idempotency_key
    get_total_unspent_balance fetch_unspent_outputs get_latest_scanned_tip_block_by_account
    create_pending_transaction
lock-new_or_replay_example =
    lock-new_or_replay services 4000 900 901 request wallet lock_outcome.1 lock_outcome.0 refl

lock_all-rows_example :
    (lock_all 900 4060 (first_locks ∷ []) wallet).outputs
    ≡ update_where (is_selected (first_locks ∷ [])) (row_locked 900 4060) wallet.outputs
lock_all-rows_example = lock_all-rows 900 4060 (first_locks ∷ []) wallet

unlock-lock_all_example :
    (unlock_outputs_for_request 900 (lock_all 900 4060 (first_locks ∷ []) wallet)).outputs
    ≡ wallet.outputs
unlock-lock_all_example = unlock-lock_all 900 4060 (first_locks ∷ []) wallet ((refl, refl), tt)

abbrev expired : List ℕ
expired = find_expired_pending_transactions 5000 lock_outcome.1

unlock_expired_transactions-rows_example :
    ((unlock_expired_transactions 5000 lock_outcome.1).outputs
      ≡ update_where (is_held_by expired) row_unlocked lock_outcome.1.outputs)
    × ((unlock_expired_transactions 5000 lock_outcome.1).pending_transactions
        ≡ update_where
            (λ p. member p.id expired)
            (set_pending_status PendingTransactionStatus.expired)
            lock_outcome.1.pending_transactions)
unlock_expired_transactions-rows_example = unlock_expired_transactions-rows 5000 lock_outcome.1

output_from_str_iff_example :
    (OutputStatus.from_str "LOCKED" ≡ some OutputStatus.locked
      → OutputStatus.to_string OutputStatus.locked ≡ "LOCKED")
    × (OutputStatus.to_string OutputStatus.locked ≡ "LOCKED"
        → OutputStatus.from_str "LOCKED" ≡ some OutputStatus.locked)
output_from_str_iff_example = OutputStatus.output_from_str_iff "LOCKED" OutputStatus.locked

pending_from_str_iff_example :
    (PendingTransactionStatus.from_str "PENDING" ≡ some PendingTransactionStatus.pending
      → PendingTransactionStatus.to_string PendingTransactionStatus.pending ≡ "PENDING")
    × (PendingTransactionStatus.to_string PendingTransactionStatus.pending ≡ "PENDING"
        → PendingTransactionStatus.from_str "PENDING" ≡ some PendingTransactionStatus.pending)
pending_from_str_iff_example =
    PendingTransactionStatus.pending_from_str_iff "PENDING" PendingTransactionStatus.pending

completed_from_str_iff_example :
    (CompletedTransactionStatus.from_str "mined_confirmed"
        ≡ some CompletedTransactionStatus.mined_confirmed
      → CompletedTransactionStatus.to_string CompletedTransactionStatus.mined_confirmed
        ≡ "mined_confirmed")
    × (CompletedTransactionStatus.to_string CompletedTransactionStatus.mined_confirmed
          ≡ "mined_confirmed"
        → CompletedTransactionStatus.from_str "mined_confirmed"
          ≡ some CompletedTransactionStatus.mined_confirmed)
completed_from_str_iff_example =
    CompletedTransactionStatus.completed_from_str_iff "mined_confirmed"
      CompletedTransactionStatus.mined_confirmed

-- the database after the lock, had its outputs gone since
abbrev emptied : Db
emptied = record (lock_outcome.1) { outputs = [] }

lock-again_example :
    (r' : LockFundsResult) × (lock services 4100 902 903 request emptied ≡ ok (r', emptied))
    × (r'.requires_change_output ≡ true)
    × (r'.total_value ≡ 50)
    × (r'.fee_without_change ≡ 2)
    × (r'.fee_with_change ≡ 3)
unfolding lock lock_new fetch_unspent find_pending_transaction_locked_funds_by_idempotency_key
    get_total_unspent_balance fetch_unspent_outputs get_latest_scanned_tip_block_by_account
    create_pending_transaction selection_of lock_output find_pending_transaction_by_idempotency_key
lock-again_example =
    lock-again services services 4000 900 901 77 4100 902 903 request wallet lock_outcome.1 emptied
      lock_outcome.0 refl refl refl
