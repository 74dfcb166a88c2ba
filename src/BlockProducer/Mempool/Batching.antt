-- ===== src/BlockProducer/Mempool/Batching.antt =====
-- The transaction graph beside the batch graph in `Mempool`, and `select_batch` on the two.
use miden_node.Prelude.{
  ℕ, ◌≡◌, ◌∙◌, refl, ap, true, false, ◌||◌, none, some, List, [], ◌∷◌, map, is_empty, arith, ◌==◌,
  inl, inr, Bool-cases, Option-cases, ◌⊎◌,
}
use miden_node.Collections.BTreeSet
use miden_node.Collections.BTreeSet.{BTreeSet, contains}
use miden_node.Collections.BTreeMap
use miden_node.Collections.BTreeMap.{BTreeMap, contains_key}
use miden_node.BlockProducer.Graph.{ok, contains_node, or_default}
use miden_node.BlockProducer.Graph.WellFormed.{IsWellFormed}
use miden_node.BlockProducer.Outside.{Outside, Channel}
use miden_node.BlockProducer.Transaction
use miden_node.BlockProducer.Transaction.{AuthenticatedTransaction}
use miden_node.BlockProducer.TransactionGraph.{TransactionGraph}
use miden_node.BlockProducer.TransactionGraph.Select.{
  IsKeyed, IsOrdered, IsWithin, Selects, all_parents, select_batch-Selects,
}
use miden_node.BlockProducer.BatchGraph
use miden_node.BlockProducer.BatchGraph.{BatchGraph, ids, without, get_transactions}
use miden_node.BlockProducer.BatchGraph.Insert.{insert_lem, outer_batches, batches_of}
use miden_node.BlockProducer.Subscription.{MempoolEvent}
use miden_node.BlockProducer.Mempool.{Mempool, select_batch}

-- The pairs that are handed to the batch graph.
abbrev pub pairs : List AuthenticatedTransaction → List (ℕ × ℕ)
pairs = map (λ tx. (Transaction.id tx, Transaction.account_id tx))

ids-pairs : (txs : List AuthenticatedTransaction) → ids (pairs txs) ≡ map Transaction.id txs
ids-pairs [] = refl
ids-pairs (tx ∷ txs) = ap (λ rest. Transaction.id tx ∷ rest) (ids-pairs txs)

pairs-is_empty : (txs : List AuthenticatedTransaction) → is_empty (pairs txs) ≡ is_empty txs
pairs-is_empty [] = refl
pairs-is_empty (tx ∷ txs) = refl

none_selected :
    (txs : List AuthenticatedTransaction) (t : ℕ)
    → is_empty txs ≡ true
    → contains t (map Transaction.id txs) ≡ false
none_selected [] t e = BTreeSet.contains-nil t
none_selected (tx ∷ txs) t e = absurd (ground arith)

-- The transactions of an execution order were not done.
IsOrdered-fresh :
    (parents : BTreeMap BTreeSet) (done : BTreeSet) (txs : List AuthenticatedTransaction)
    → IsOrdered parents done txs
    → (t : ℕ) → contains t (map Transaction.id txs) ≡ true
    → contains t done ≡ false
IsOrdered-fresh parents done [] o t h = absurd (ground (arith, BTreeSet.contains-nil t))
IsOrdered-fresh parents done (tx ∷ txs) o t h =
    let id = Transaction.id tx in
    let rest = IsOrdered-fresh parents (BTreeSet.insert id done) txs o.2 t in
    ground (
      arith,
      o.0,
      rest,
      BTreeSet.contains-insert t id done,
      BTreeSet.contains-cons t id (map Transaction.id txs),
    )

-- Their parents are done, or stand in it.
IsOrdered-parents :
    (parents : BTreeMap BTreeSet) (done : BTreeSet) (txs : List AuthenticatedTransaction)
    → IsOrdered parents done txs
    → (p : ℕ) → contains p (all_parents parents txs) ≡ true
    → (contains p done || contains p (map Transaction.id txs)) ≡ true
IsOrdered-parents parents done [] o p h = absurd (ground (arith, BTreeSet.contains-nil p))
IsOrdered-parents parents done (tx ∷ txs) o p h =
    let id = Transaction.id tx in
    let rest = IsOrdered-parents parents (BTreeSet.insert id done) txs o.2 p in
    ground (
      arith,
      o.1 p,
      rest,
      BTreeSet.contains-insert p id done,
      BTreeSet.contains-cons p id (map Transaction.id txs),
      BTreeSet.contains-append p (or_default (BTreeMap.get id parents)) (all_parents parents txs),
    )

batches_of_sound :
    (m : BTreeMap ℕ) (txs : List ℕ) (b : ℕ)
    → contains b (batches_of m txs) ≡ true
    → (t : ℕ) × (BTreeMap.get t m ≡ some b)
batches_of_sound m [] b h = absurd (ground (arith, BTreeSet.contains-nil b))
batches_of_sound m (x ∷ txs) b h = elim (Option-cases (BTreeMap.get x m)) [
  | inl gone ↦ batches_of_sound m txs b (ground arith)
  | inr (c, e) ↦ elim (Bool-cases (b == c)) [
    | inl same ↦ (x, ground arith)
    | inr other ↦
        batches_of_sound m txs b (ground (arith, BTreeSet.contains-cons b c (batches_of m txs)))
  ]
]

module _ {O : Outside} {C : Channel (MempoolEvent O)} where
  -- The processed transactions are those in batches, and their batches are in the batch graph.
  pub record IsBatched (m : Mempool C) : Type 0 where
    pub graph : IsWellFormed m.transactions
    pub keyed : IsKeyed m.transactions
    pub inner : IsWellFormed m.batches.inner
    pub members :
        (t : ℕ) → contains t m.transactions.processed ≡ contains_key t m.batches.transactions
    pub nodes :
        (t b : ℕ)
        → BTreeMap.get t m.batches.transactions ≡ some b
        → contains_node m.batches.inner b ≡ true

  module _ (m : Mempool C) (l : IsBatched m) (g' : TransactionGraph)
      (txs : List AuthenticatedTransaction) (parents : BTreeSet)
      (s : Selects m.transactions m.batch_budget [] g' txs parents) where
    fresh_transactions :
        (t : ℕ)
        → contains t (ids (pairs txs)) ≡ true
        → contains_key t m.batches.transactions ≡ false
    fresh_transactions t h =
        let done =
          IsOrdered-fresh m.transactions.parents m.transactions.processed txs s.ordered t
            (rw (← ids-pairs txs) h) in
        ground (arith, done, l.members t)

    batched_parents :
        (t : ℕ)
        → contains t parents ≡ true
        → contains t (ids (pairs txs)) ≡ false
        → contains_key t m.batches.transactions ≡ true
    batched_parents t h outer =
        let done =
          IsOrdered-parents m.transactions.parents m.transactions.processed txs s.ordered t in
        ground (arith, done, l.members t, s.parents_eq t, BTreeSet.contains-nil t, ids-pairs txs)

    parent_nodes :
        (b : ℕ)
        → contains b (outer_batches O.from_ids m.batches (pairs txs) parents) ≡ true
        → contains_node m.batches.inner b ≡ true
    parent_nodes b h =
        let outside = without (ids (pairs txs)) parents in
        let (t, e) = batches_of_sound m.batches.transactions outside b (
          ground (
            arith,
            BTreeSet.contains-extend b [] (batches_of m.batches.transactions outside),
            BTreeSet.contains-nil b,
          )) in
        l.nodes t b e

    IsKeyed-after : IsKeyed g'
    IsKeyed-after k tx e = l.keyed k tx (ground (arith, s.vertices))

    -- An empty selection processes nothing.
    nothing_inserted : is_empty txs ≡ true → IsBatched (record m { transactions = g' })
    nothing_inserted e = record {
      graph = s.well_formed;
      keyed = IsKeyed-after;
      inner = l.inner;
      members = λ t. ground (arith, s.processed t, l.members t, none_selected txs t e);
      nodes = l.nodes;
    }

    -- The batch graph takes the selection.
    batch_inserted :
        is_empty txs ≡ false
        → contains_node m.batches.inner (O.from_ids (pairs txs)) ≡ false
        → (batches : BatchGraph O.ProvenBatch) × (BatchGraph.insert O.from_ids m.batches
              (pairs txs)
              parents
            ≡ (batches, ok (O.from_ids (pairs txs))))
          × IsBatched (record m { transactions = g'; batches = batches })
          × (get_transactions batches (O.from_ids (pairs txs)) ≡ some (map Transaction.id txs))
    batch_inserted some_tx new_name =
        let (batches, run, w, _, _, nodes, stored, lookup) =
          insert_lem O.from_ids m.batches (pairs txs) parents l.inner fresh_transactions
            batched_parents new_name parent_nodes in
        (
          batches,
          run,
          record {
            graph = s.well_formed;
            keyed = IsKeyed-after;
            inner = w;
            members = λ t. ground (arith, s.processed t, lookup t, l.members t, ids-pairs txs);
            nodes = λ t b e. ground (arith, lookup t, nodes b, l.nodes t b);
          },
          stored ∙ ap (λ x. some x) (ids-pairs txs),
        )

  -- The identifier that a batch of unbatched transactions gets is not in use.
  abbrev pub HasFreshNames : Mempool C → Type 0
  HasFreshNames m =
      (txs : List (ℕ × ℕ))
      → is_empty txs ≡ false
      → ((t : ℕ) → contains t (ids txs) ≡ true → contains_key t m.batches.transactions ≡ false)
      → contains_node m.batches.inner (O.from_ids txs) ≡ false

  -- On a mempool whose two graphs have their invariant and whose batched transactions are exactly
  -- the processed ones, and where a batch of other transactions gets a new identifier,
  -- `select_batch` does not panic, and the graphs and the batched transactions are again so. The
  -- selected transactions were not processed, each comes behind its parents, together they fit the
  -- budget, and if there are any they are returned as a batch that is stored with them.
  pub select_batch-IsBatched :
      (m : Mempool C)
      → IsBatched m
      → HasFreshNames m
      → (m' : Mempool C) × (txs : List AuthenticatedTransaction) × IsBatched m'
        × IsOrdered m.transactions.parents m.transactions.processed txs
        × IsWithin m.batch_budget txs
        × ((select_batch C m ≡ some (m', none)) × (is_empty txs ≡ true)
            ⊎ (select_batch C m ≡ some (m', some (O.from_ids (pairs txs), txs)))
              × (get_transactions m'.batches (O.from_ids (pairs txs))
                  ≡ some (map Transaction.id txs)))
  unfolding select_batch
  select_batch-IsBatched m l new_name =
      let (g', txs, parents, run, s) =
        select_batch-Selects m.transactions m.batch_budget l.graph l.keyed in
      elim (Bool-cases (is_empty txs)) [
        | inl e ↦ (
          record m { transactions = g' },
          txs,
          nothing_inserted m l g' txs parents s e,
          s.ordered,
          s.within,
          inl (rw (run, select_batch, e), e),
        )
        | inr e ↦
            let (batches, run', l', stored) = batch_inserted m l g' txs parents s e (
              new_name (pairs txs) (pairs-is_empty txs ∙ e)
                (fresh_transactions m l g' txs parents s)) in
            (
              record m { transactions = g'; batches = batches },
              txs,
              l',
              s.ordered,
              s.within,
              inr (rw (run, select_batch, e, run'), stored),
            )
      ]
