-- ===== src/BlockProducer/Budget.antt =====
-- The budgets of crates/block-producer/src/mempool/mod.rs, and the limits of lib.rs.
use miden_node.Prelude.{ℕ, ◌-◌, ◌+◌, ◌≡◌, ◌||◌, ◌==◌, ltb, if◌then◌else◌, arith, ◌⊎◌}
use miden_node.BlockProducer.Transaction
use miden_node.BlockProducer.Transaction.{AuthenticatedTransaction}

pub record BatchBudget : Type 0 where
  pub transactions : ℕ
  pub input_notes : ℕ
  pub output_notes : ℕ
  pub accounts : ℕ

pub record BlockBudget : Type 0 where
  pub batches : ℕ

pub data BudgetStatus : Type 0 where
  within_scope exceeded : BudgetStatus

abbrev pub server_max_txs_per_batch : ℕ
server_max_txs_per_batch = 8

abbrev pub server_max_batches_per_block : ℕ
server_max_batches_per_block = 8

-- The protocol's limits are constants of another crate.
unfoldable pub default_batch_budget : ℕ → ℕ → ℕ → BatchBudget
default_batch_budget max_input_notes max_output_notes max_accounts = record {
  transactions = server_max_txs_per_batch;
  input_notes = max_input_notes;
  output_notes = max_output_notes;
  accounts = max_accounts;
}

unfoldable pub default_block_budget : BlockBudget
default_block_budget = record { batches = server_max_batches_per_block }

abbrev pub account_updates_per_tx : ℕ
account_updates_per_tx = 1

-- `BatchBudget::check_then_subtract`
unfoldable pub check_then_subtract :
    BatchBudget → AuthenticatedTransaction → BatchBudget × BudgetStatus
check_then_subtract b tx =
    if b.transactions == 0
      || (ltb b.accounts account_updates_per_tx
          || (ltb b.input_notes (Transaction.input_note_count tx)
              || ltb b.output_notes (Transaction.output_note_count tx)))
    then (b, exceeded)
    else (
      record {
        transactions = b.transactions - 1;
        accounts = b.accounts - account_updates_per_tx;
        input_notes = b.input_notes - Transaction.input_note_count tx;
        output_notes = b.output_notes - Transaction.output_note_count tx;
      },
      within_scope,
    )

-- `BlockBudget::check_then_subtract`
unfoldable pub check_then_subtract_block : BlockBudget → BlockBudget × BudgetStatus
check_then_subtract_block b =
    if b.batches == 0 then (b, exceeded) else (record { batches = b.batches - 1 }, within_scope)

-- What a transaction takes from the budget is exactly what is missing afterwards, and it fits;
-- otherwise the budget is left as it was.
pub check_then_subtract_lem :
    (b : BatchBudget) (tx : AuthenticatedTransaction)
    → ((check_then_subtract b tx).1 ≡ within_scope)
        × ((check_then_subtract b tx).0.transactions + 1 ≡ b.transactions)
        × ((check_then_subtract b tx).0.accounts + 1 ≡ b.accounts)
        × ((check_then_subtract b tx).0.input_notes + Transaction.input_note_count tx
            ≡ b.input_notes)
        × ((check_then_subtract b tx).0.output_notes + Transaction.output_note_count tx
            ≡ b.output_notes)
      ⊎ (check_then_subtract b tx ≡ (b, exceeded))
unfolding check_then_subtract
check_then_subtract_lem b tx = ground arith
