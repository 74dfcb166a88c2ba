-- ===== src/BlockProducer/BatchGraph/Insert.antt =====
-- `BatchGraph::insert`: when it succeeds, and what the reverse lookup then answers.
use miden_node.Prelude.{
  ℕ, ◌≡◌, refl, true, false, not, ◌&&◌, ◌||◌, ◌==◌, some, List, [], ◌∷◌, filter, if◌then◌else◌,
  arith, inl, inr, Option-cases, filter_map,
}
use miden_node.Collections.BTreeSet
use miden_node.Collections.BTreeSet.{BTreeSet, contains}
use miden_node.Collections.BTreeMap
use miden_node.Collections.BTreeMap.{BTreeMap, contains_key}
use miden_node.BlockProducer.Graph
use miden_node.BlockProducer.Graph.{Result, ok, err, GraphError}
use miden_node.BlockProducer.Graph.WellFormed.{IsWellFormed}
use miden_node.BlockProducer.Graph.Insert.{insert_pending-IsWellFormed, insert_pending_ok}
use miden_node.BlockProducer.BatchGraph.{
  BatchGraph, ids, without, parent_batches, assign, insert_batch, insert, get_transactions,
}

pub get-assign :
    (txs : List ℕ) (id : ℕ) (m : BTreeMap ℕ) (t : ℕ)
    → BTreeMap.get t (assign txs id m) ≡ (if contains t txs then some id else BTreeMap.get t m)
unfolding assign contains
get-assign [] id m t = refl
get-assign (x ∷ txs) id m t =
    ground (arith, get-assign txs id (BTreeMap.insert x id m) t, BTreeMap.get-insert t x id m)

pub contains-without :
    (txs : List ℕ) (parents : BTreeSet) (p : ℕ)
    → contains p (without txs parents) ≡ (not (contains p txs) && contains p parents)
unfolding without contains
contains-without [] parents p = refl
contains-without (x ∷ txs) parents p = ground (
  arith,
  contains-without txs (BTreeSet.remove x parents) p,
  BTreeSet.contains-remove p x parents,
)

-- The batches of the given transactions.
abbrev pub batches_of : BTreeMap ℕ → List ℕ → List ℕ
batches_of m = filter_map (λ tx. BTreeMap.get tx m)

pub parent_batches_lem :
    (m : BTreeMap ℕ) (txs : List ℕ) (found : BTreeSet)
    → ((t : ℕ) → contains t txs ≡ true → contains_key t m ≡ true)
    → parent_batches m txs found ≡ ok (BTreeSet.extend found (batches_of m txs))
unfolding parent_batches BTreeSet.extend
parent_batches_lem m [] found h = refl
parent_batches_lem m (x ∷ txs) found h = elim (Option-cases (BTreeMap.get x m)) [
  | inl gone ↦ absurd (ground (arith, h x, BTreeSet.contains-cons x x txs))
  | inr (b, e) ↦ ground (
    arith,
    parent_batches_lem m txs (BTreeSet.insert b found)
        (λ t e'. h t (ground (arith, BTreeSet.contains-cons t x txs))),
  )
]

-- The part of `insert` behind the lookups.
pub insert_batch_ok :
    {B : Type 0} (g : BatchGraph B) (id : ℕ) (txs : List ℕ) (parents : BTreeSet)
    → (Graph.insert_pending g.inner id parents).1 ≡ ok tt
    → insert_batch g id txs parents ≡ (
      record {
        inner = (Graph.insert_pending g.inner id parents).0;
        transactions = assign txs id g.transactions;
        batches = BTreeMap.insert id txs g.batches;
      },
      ok id,
    )
unfolding insert_batch
insert_batch_ok g id txs parents e = rw (e, insert_batch)

module _ {B : Type 0} (from_ids : List (ℕ × ℕ) → ℕ) (g : BatchGraph B) (transactions : List (ℕ × ℕ))
    (parents : BTreeSet) where
  -- The parent batches: those of the parents that are not in the batch itself.
  abbrev pub outer_batches : BTreeSet
  outer_batches =
      BTreeSet.extend [] (batches_of g.transactions (without (ids transactions) parents))

  -- On an inner graph with the invariant, a batch of new transactions, with an unused identifier, whose parents outside the batch are in
  -- batches of the inner graph, is inserted: it is
  -- pending under these batches, the other nodes stay, the reverse lookup answers its
  -- identifier for exactly its transactions, and the inner graph keeps its invariant.
  pub insert_lem :
      IsWellFormed g.inner
      → ((t : ℕ) → contains t (ids transactions) ≡ true → contains_key t g.transactions ≡ false)
      → ((t : ℕ)
          → contains t parents ≡ true
          → contains t (ids transactions) ≡ false
          → contains_key t g.transactions ≡ true)
      → Graph.contains_node g.inner (from_ids transactions) ≡ false
      → ((b : ℕ) → contains b outer_batches ≡ true → Graph.contains_node g.inner b ≡ true)
      → (g' : BatchGraph B) × (insert from_ids g transactions parents
          ≡ (g', ok (from_ids transactions)))
        × IsWellFormed g'.inner
        × (Graph.parents g'.inner (from_ids transactions) ≡ some outer_batches)
        × (contains (from_ids transactions) g'.inner.pending ≡ true)
        × ((b : ℕ)
            → Graph.contains_node g'.inner b
              ≡ (b == from_ids transactions || Graph.contains_node g.inner b))
        × (get_transactions g' (from_ids transactions) ≡ some (ids transactions))
        × ((t : ℕ)
            → BTreeMap.get t g'.transactions ≡ (
                if contains t (ids transactions)
                then some (from_ids transactions)
                else BTreeMap.get t g.transactions))
  unfolding insert
  insert_lem w new known fresh nodes =
      let id = from_ids transactions in
      let txs = ids transactions in
      let (done, entry, pending, rest) = insert_pending_ok g.inner id outer_batches fresh nodes in
      let no_duplicates =
        BTreeSet.is_empty_intro
          (BTreeSet.from_iter (filter (λ t. contains_key t g.transactions) txs))
          (λ t m.
            ground (
              arith,
              BTreeSet.contains-collect t (λ t. contains_key t g.transactions) txs,
              new t,
            )) in
      let lookups =
        parent_batches_lem g.transactions (without txs parents) []
          (λ t m. ground (arith, contains-without txs parents t, known t)) in
      (
        record {
          inner = (Graph.insert_pending g.inner id outer_batches).0;
          transactions = assign txs id g.transactions;
          batches = BTreeMap.insert id txs g.batches;
        },
        rw (no_duplicates, lookups) (insert_batch_ok g id txs outer_batches done),
        insert_pending-IsWellFormed g.inner id outer_batches w,
        entry,
        ground (arith, pending id),
        λ b. (rest b).0,
        BTreeMap.get-insert_self id txs g.batches,
        get-assign txs id g.transactions,
      )
