-- ===== src/BlockProducer/Graph/Descends.antt =====
-- The nodes that the loops of `revert_subgraphs` and `purge_subgraphs` are meant to reach.
use miden_node.Prelude.{ℕ, ◌≡◌, Bool, true}
use miden_node.Collections.BTreeSet.{BTreeSet, contains}
use miden_node.BlockProducer.Graph.{DependencyGraph, children_of}

-- The given nodes, and the children of such nodes that `follow` lets through.
pub data Descends {ℓ} {V : Type ℓ} (g : DependencyGraph V) (follow : ℕ → Bool) (keys : BTreeSet)
    : ℕ → Type ℓ where
  given : {k : ℕ} → contains k keys ≡ true → Descends g follow keys k
  child :
      {p k : ℕ}
      → Descends g follow keys p
      → contains k (children_of g p) ≡ true
      → follow k ≡ true
      → Descends g follow keys k
