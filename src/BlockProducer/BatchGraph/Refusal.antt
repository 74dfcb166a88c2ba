-- ===== src/BlockProducer/BatchGraph/Refusal.antt =====
-- The refusals of `BatchGraph::insert`.
use miden_node.Prelude.{
  ℕ, ◌≡◌, refl, true, false, not, ◌&&◌, List, [], ◌∷◌, filter, is_empty, arith, Bool-cases, inl,
  inr, Option-cases, ◌⊎◌,
}
use miden_node.Collections.BTreeSet
use miden_node.Collections.BTreeSet.{BTreeSet, contains}
use miden_node.Collections.BTreeMap
use miden_node.Collections.BTreeMap.{BTreeMap, contains_key}
use miden_node.BlockProducer.Graph
use miden_node.BlockProducer.Graph.{GraphError, duplicate_key, missing_parents, ok, err}
use miden_node.BlockProducer.Graph.WellFormed.{IsWellFormed}
use miden_node.BlockProducer.Graph.Insert.{insert_pending-Insertion}
use miden_node.BlockProducer.BatchGraph.{
  BatchGraph, BatchInsertError, ids, without, parent_batches, insert_batch, insert,
  duplicate_transactions, unknown_parent_transaction, graph_error,
}
use miden_node.BlockProducer.BatchGraph.Insert.{
  contains-without, parent_batches_lem, insert_batch_ok, outer_batches,
}

-- All transactions have a batch, or the lookup stops at one that has none.
parent_batches_cases :
    (m : BTreeMap ℕ) (txs : List ℕ) (found : BTreeSet)
    → ((t : ℕ) → contains t txs ≡ true → contains_key t m ≡ true)
      ⊎ (t : ℕ) × (contains t txs ≡ true)
        × (contains_key t m ≡ false)
        × (parent_batches m txs found ≡ err (unknown_parent_transaction t))
unfolding parent_batches
parent_batches_cases m [] found = inl (λ t h. absurd (ground (arith, BTreeSet.contains-nil t)))
parent_batches_cases m (x ∷ txs) found = elim (Option-cases (BTreeMap.get x m)) [
  | inl gone ↦ inr (
    x,
    ground (arith, BTreeSet.contains-cons x x txs),
    ground arith,
    rw (gone, parent_batches) refl,
  )
  | inr (b, e) ↦ elim (parent_batches_cases m txs (BTreeSet.insert b found)) [
    | inl known ↦ inl (λ t h. ground (arith, known t, BTreeSet.contains-cons t x txs))
    | inr (t, h, gone, stop) ↦
        inr (t, ground (arith, BTreeSet.contains-cons t x txs), gone, rw (e, parent_batches) stop)
  ]
]

module _ {B : Type 0} (g : BatchGraph B) (id : ℕ) (parents : BTreeSet) where
  -- The batch's identifier is a node, or these are exactly the parent batches that are no nodes.
  abbrev pub Unfit : GraphError → Type 0
  Unfit e =
      (e ≡ duplicate_key id) × (Graph.contains_node g.inner id ≡ true)
      ⊎ (missing : BTreeSet) × (e ≡ missing_parents missing)
        × ((b : ℕ)
            → contains b missing ≡ (not (Graph.contains_node g.inner b) && contains b parents))
        × ((b : ℕ) × (contains b missing ≡ true))

  -- How the part of `insert` behind the lookups ends.
  insert_batch_cases :
      (txs : List ℕ)
      → IsWellFormed g.inner
      → ((g' : BatchGraph B) × (insert_batch g id txs parents ≡ (g', ok id)))
          × (Graph.contains_node g.inner id ≡ false)
          × ((b : ℕ) → contains b parents ≡ true → Graph.contains_node g.inner b ≡ true)
        ⊎ (e : GraphError) × (insert_batch g id txs parents ≡ (g, err (graph_error e))) × Unfit e
  unfolding insert_batch
  insert_batch_cases txs w = elim (insert_pending-Insertion g.inner id parents w).1 [
    | inl (done, new, known, _, _) ↦ inl ((_, insert_batch_ok g id txs parents done), new, known)
    | inr (same, inl (e, old)) ↦
        inr (duplicate_key id, rw (e, insert_batch) (rw same refl), inl (refl, old))
    | inr (same, inr (missing, e, law, some_missing)) ↦ inr (
      missing_parents missing,
      rw (e, insert_batch) (rw same refl),
      inr (missing, refl, law, some_missing),
    )
  ]

module _ {B : Type 0} (from_ids : List (ℕ × ℕ) → ℕ) (g : BatchGraph B) (transactions : List (ℕ × ℕ))
    (parents : BTreeSet) where
  -- What an error of `insert` says of the graph and the batch.
  abbrev pub Explains : BatchInsertError → Type 0
  Explains (duplicate_transactions x) =
      ((t : ℕ) → contains t x ≡ (contains_key t g.transactions && contains t (ids transactions)))
      × ((t : ℕ) × (contains t x ≡ true))
  Explains (unknown_parent_transaction t) =
      (contains t parents ≡ true)
      × (contains t (ids transactions) ≡ false)
      × (contains_key t g.transactions ≡ false)
  Explains (graph_error e) =
      Unfit g (from_ids transactions) (outer_batches from_ids g transactions parents) e

  -- The batch's transactions stand in no batch, its parents outside of it stand in one, its
  -- identifier is no node, and the batches of these parents are nodes.
  pub record IsInsertable : Type 0 where
    pub new : (t : ℕ) → contains t (ids transactions) ≡ true → contains_key t g.transactions ≡ false
    pub known :
        (t : ℕ)
        → contains t parents ≡ true
        → contains t (ids transactions) ≡ false
        → contains_key t g.transactions ≡ true
    pub fresh : Graph.contains_node g.inner (from_ids transactions) ≡ false
    pub nodes :
        (b : ℕ)
        → contains b (outer_batches from_ids g transactions parents) ≡ true
        → Graph.contains_node g.inner b ≡ true

  -- On an inner graph with the invariant, either the batch is inserted under its identifier, and its
  -- transactions stand in no batch, its parents outside of it in one, its identifier is no node, and
  -- the batches of these parents are nodes; or it is refused, nothing changes, and the error is true:
  -- the transactions it holds, at least one, are exactly those of the batch that stand in a batch; or
  -- the transaction it names is a parent outside of the batch that stands in none; or the batch's
  -- identifier is a node; or it holds exactly the parent batches that are no nodes, at least one.
  pub insert-Explains :
      IsWellFormed g.inner
      → ((g' : BatchGraph B) × (insert from_ids g transactions parents
              ≡ (g', ok (from_ids transactions))))
          × IsInsertable
        ⊎ (e : BatchInsertError) × (insert from_ids g transactions parents ≡ (g, err e))
          × Explains e
  unfolding insert
  insert-Explains w =
      let txs = ids transactions in
      let id = from_ids transactions in
      let x = BTreeSet.from_iter (filter (λ t. contains_key t g.transactions) txs) in
      let law = λ (t : ℕ). BTreeSet.contains-collect t (λ t. contains_key t g.transactions) txs in
      let outer = λ (t : ℕ). contains-without txs parents t in
      elim (Bool-cases (is_empty x)) [
        | inr e ↦
            inr
              (duplicate_transactions x, rw (e, insert) refl, (law, BTreeSet.is_empty_witness x e))
        | inl e ↦ elim (parent_batches_cases g.transactions (without txs parents) []) [
          | inr (t, m, gone, stop) ↦ inr (
            unknown_parent_transaction t,
            rw (e, insert, stop) refl,
            (ground (arith, outer t), ground (arith, outer t), gone),
          )
          | inl known ↦
              let found = parent_batches_lem g.transactions (without txs parents) [] known in
              elim (insert_batch_cases g id (outer_batches from_ids g transactions parents) txs w) [
                | inl ((g', done), fresh, nodes) ↦ inl (
                  (g', rw (e, insert, found) done),
                  record {
                    new = λ t m. ground (arith, law t, BTreeSet.is_empty_elim x t e);
                    known = λ t m n. known t (ground (arith, outer t));
                    fresh = fresh;
                    nodes = nodes;
                  },
                )
                | inr (err', stop, why) ↦ inr (graph_error err', rw (e, insert, found) stop, why)
              ]
        ]
      ]
