-- ===== src/NtxBuilder/Events.antt =====
-- The events of the mempool, `State::mempool_update` of crates/ntx-builder/src/state/mod.rs. `none` is
-- a panic.
pub mod Reach
use miden_node.Prelude.{ℕ, Option, none, some, List, [], ◌∷◌, Result, ok}
use miden_node.NtxBuilder.Outside.{Outside}
use miden_node.NtxBuilder.Account.{AccountUpdateDetails}
use miden_node.NtxBuilder.State.{State, Store, UpdateError}
use miden_node.NtxBuilder.Added.{add_transaction}
use miden_node.NtxBuilder.Settled.{commit_transaction, revert_transaction}

module _ (O : Outside) (StoreError : Type 0) where
  -- `MempoolEvent`; the header of a committed block is not used.
  pub data MempoolEvent : Type 0 where
    transaction_added :
        ℕ → List ℕ → List O.NetworkNote → Option (AccountUpdateDetails O) → MempoolEvent
    block_committed : List ℕ → MempoolEvent
    transactions_reverted : List ℕ → MempoolEvent

  -- A loop over the transactions of an event.
  unfoldable pub for_each :
      (ℕ → State O StoreError → Option (State O StoreError))
      → List ℕ
      → State O StoreError
      → Option (State O StoreError)
  for_each handle [] s = some s
  for_each handle (tx ∷ txs) s = elim (handle tx s) [
    | none ↦ none
    | some s' ↦ for_each handle txs s'
  ]

  unfoldable pub mempool_update :
      Store O StoreError
      → MempoolEvent
      → State O StoreError
      → Option (State O StoreError × Result (Unit {0}) (UpdateError StoreError))
  mempool_update store (transaction_added id nullifiers network_notes account_delta) s =
      add_transaction O StoreError store id nullifiers network_notes account_delta s
  mempool_update store (block_committed txs) s =
      elim (for_each (commit_transaction O StoreError) txs s) [
        | none ↦ none
        | some s' ↦ some (s', ok tt)
      ]
  mempool_update store (transactions_reverted txs) s =
      elim (for_each (revert_transaction O StoreError) txs s) [
        | none ↦ none
        | some s' ↦ some (s', ok tt)
      ]
