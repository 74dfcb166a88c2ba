-- ===== src/BlockProducer/Expirations.antt =====
-- The expiration index of crates/block-producer/src/mempool/transaction_expiration.rs, with the
-- method names of `TransactionExpirations`. `none` is the panic of `remove`.
pub mod Consistent
use miden_node.Prelude.{
  ℕ, ◌==◌, ◌≡◌, Bool, true, false, Option, none, some, List, [], ◌∷◌, if◌then◌else◌, is_empty,
}
use miden_node.Collections.BTreeSet
use miden_node.Collections.BTreeSet.{BTreeSet, contains}
use miden_node.Collections.BTreeMap
use miden_node.Collections.BTreeMap.{BTreeMap}
use miden_node.BlockProducer.Graph.{or_default}

pub record TransactionExpirations : Type 0 where
  pub by_tx : BTreeMap ℕ
  pub by_block : BTreeMap BTreeSet

unfoldable pub default : TransactionExpirations
default = record { by_tx = []; by_block = [] }

unfoldable pub insert : TransactionExpirations → ℕ → ℕ → TransactionExpirations
insert e tx block = record {
  by_tx = BTreeMap.insert tx block e.by_tx;
  by_block =
      BTreeMap.insert block (BTreeSet.insert tx (or_default (BTreeMap.get block e.by_block)))
        e.by_block;
}

abbrev pub get : TransactionExpirations → ℕ → BTreeSet
get e block = or_default (BTreeMap.get block e.by_block)

-- The body of `remove` for a transaction that is tracked at `block`.
unfoldable pub remove_at : TransactionExpirations → ℕ → ℕ → Option TransactionExpirations
remove_at e tx block = elim (BTreeMap.get block e.by_block) [
  | none ↦ none
  | some s ↦
      let left = BTreeSet.remove tx s in
      some (record {
        by_tx = BTreeMap.remove tx e.by_tx;
        by_block =
            if is_empty left
            then BTreeMap.remove block e.by_block
            else BTreeMap.insert block left e.by_block;
      })
]

unfoldable pub remove_one : TransactionExpirations → ℕ → Option TransactionExpirations
remove_one e tx = elim (BTreeMap.get tx e.by_tx) [
  | none ↦ some e
  | some block ↦ remove_at e tx block
]

unfoldable pub remove : TransactionExpirations → List ℕ → Option TransactionExpirations
remove e [] = some e
remove e (tx ∷ txs) = elim (remove_one e tx) [ none ↦ none | some e' ↦ remove e' txs ]
