-- ===== src/BlockProducer/TransactionGraph/Select.antt =====
-- `TransactionGraph::select_batch`: the loop, the execution order, and the budget.
use miden_node.Prelude.{
  ℕ, zero, suc, ◌≤◌, ◌<◌, ◌≡◌, ◌∙◌, refl, true, false, ◌||◌, some, List, [], ◌∷◌, ◌++◌, map, arith,
  inl, inr, List-cases, Option-cases, length, sum_by, flat_map, ap, sym,
}
use mathlib.Core.Path.{subst, subst₂}
use mathlib.Core.List.{append_assoc, append-nil}
use miden_node.Collections.BTreeSet
use miden_node.Collections.BTreeSet.{BTreeSet, contains}
use miden_node.Collections.BTreeMap
use miden_node.Collections.BTreeMap.{BTreeMap, contains_key}
use miden_node.BlockProducer.Graph
use miden_node.BlockProducer.Graph.{DependencyGraph, parents_of, or_default, Result, ok, err}
use miden_node.BlockProducer.Graph.WellFormed.{IsWellFormed}
use miden_node.BlockProducer.Graph.Process.{process_root-IsWellFormed, process_root-fields}
use miden_node.BlockProducer.Transaction
use miden_node.BlockProducer.Transaction.{AuthenticatedTransaction}
use miden_node.BlockProducer.Budget.{
  BatchBudget, exceeded, within_scope, check_then_subtract, check_then_subtract_lem,
}
use miden_node.BlockProducer.TransactionGraph.{TransactionGraph, select_loop, select_batch}

-- Each transaction is stored under its identifier.
abbrev pub IsKeyed : TransactionGraph → Type 0
IsKeyed g =
    (k : ℕ) (tx : AuthenticatedTransaction) → Graph.get g k ≡ some tx → Transaction.id tx ≡ k

-- No transaction is done yet, and each comes behind its parents.
abbrev pub IsOrdered : BTreeMap BTreeSet → BTreeSet → List AuthenticatedTransaction → Type 0
IsOrdered parents done [] = Unit
IsOrdered parents done (tx ∷ txs) =
    (contains (Transaction.id tx) done ≡ false)
    × ((p : ℕ)
        → contains p (or_default (BTreeMap.get (Transaction.id tx) parents)) ≡ true
        → contains p done ≡ true)
    × IsOrdered parents (BTreeSet.insert (Transaction.id tx) done) txs

-- The transactions together stay within the budget.
pub record IsWithin (budget : BatchBudget) (txs : List AuthenticatedTransaction) : Type 0 where
  pub transactions : length txs ≤ budget.transactions
  pub accounts : length txs ≤ budget.accounts
  pub input_notes : sum_by Transaction.input_note_count txs ≤ budget.input_notes
  pub output_notes : sum_by Transaction.output_note_count txs ≤ budget.output_notes

-- The parents of all the transactions.
abbrev pub all_parents : BTreeMap BTreeSet → List AuthenticatedTransaction → List ℕ
all_parents parents = flat_map (λ tx. or_default (BTreeMap.get (Transaction.id tx) parents))

-- What a run of the loop adds to the batch, and what it leaves.
pub record Selects (g : TransactionGraph) (budget : BatchBudget) (parents : BTreeSet)
    (g' : TransactionGraph) (txs : List AuthenticatedTransaction) (parents' : BTreeSet)
    : Type 0 where
  pub well_formed : IsWellFormed g'
  pub vertices : g'.vertices ≡ g.vertices
  pub edges : g'.parents ≡ g.parents
  pub pending : g'.pending ≡ g.pending
  pub ordered : IsOrdered g.parents g.processed txs
  pub within : IsWithin budget txs
  pub processed :
      (k : ℕ)
      → contains k g'.processed ≡ (contains k g.processed || contains k (map Transaction.id txs))
  pub parents_eq :
      (p : ℕ) → contains p parents' ≡ (contains p parents || contains p (all_parents g.parents txs))

select_loop-cons :
    (fuel : ℕ) (g : TransactionGraph) (budget : BatchBudget) (batch : List AuthenticatedTransaction)
    (parents : BTreeSet) {root : ℕ} {rest : List ℕ} {tx : AuthenticatedTransaction} {ps : BTreeSet}
    → g.roots ≡ root ∷ rest
    → Graph.get g root ≡ some tx
    → (check_then_subtract budget tx).1 ≡ within_scope
    → (Graph.process_root g root).1 ≡ ok tt
    → Graph.parents (Graph.process_root g root).0 root ≡ some ps
    → select_loop (suc fuel) g budget batch parents
      ≡ select_loop fuel
          (Graph.process_root g root).0
          (check_then_subtract budget tx).0
          (batch ++ tx ∷ [])
          (BTreeSet.extend parents ps)
unfolding select_loop
select_loop-cons fuel g budget batch parents a b c d e = ground arith

select_loop-exceeded :
    (fuel : ℕ) (g : TransactionGraph) (budget : BatchBudget) (batch : List AuthenticatedTransaction)
    (parents : BTreeSet) {root : ℕ} {rest : List ℕ} {tx : AuthenticatedTransaction}
    → g.roots ≡ root ∷ rest
    → Graph.get g root ≡ some tx
    → check_then_subtract budget tx ≡ (budget, exceeded)
    → select_loop (suc fuel) g budget batch parents ≡ some (g, batch, parents)
unfolding select_loop
select_loop-exceeded fuel g budget batch parents a b c = ground arith

Selects-nil :
    (g : TransactionGraph) (budget : BatchBudget) (parents : BTreeSet)
    → IsWellFormed g
    → Selects g budget parents g [] parents
Selects-nil g budget parents w = record {
  well_formed = w;
  vertices = refl;
  edges = refl;
  pending = refl;
  ordered = tt;
  within = omega arith;
  processed = λ k. ground (arith, BTreeSet.contains-nil k);
  parents_eq = λ p. ground (arith, BTreeSet.contains-nil p);
}

module _ (g : TransactionGraph) (w : IsWellFormed g) (keyed : IsKeyed g) (root : ℕ)
    (is_root : contains root g.roots ≡ true) (tx : AuthenticatedTransaction)
    (stored : Graph.get g root ≡ some tx) (budget : BatchBudget) where
  abbrev g₁ : TransactionGraph
  g₁ = (Graph.process_root g root).0

  abbrev budget₁ : BatchBudget
  budget₁ = (check_then_subtract budget tx).0

  -- A root that fits is the first transaction of the selection.
  Selects-cons :
      (parents : BTreeSet) (g' : TransactionGraph) (txs : List AuthenticatedTransaction)
      (parents' : BTreeSet)
      → (check_then_subtract budget tx).1 ≡ within_scope
      → Selects g₁ budget₁ (BTreeSet.extend parents (parents_of g root)) g' txs parents'
      → Selects g budget parents g' (tx ∷ txs) parents'
  Selects-cons parents g' txs parents' fits s =
      let (r, e) = process_root-fields g root is_root in
      let id : Transaction.id tx ≡ root = keyed root tx stored in
      let kept_edges : g₁.parents ≡ g.parents = ap (λ p. p.0.parents) e in
      let now : g₁.processed ≡ BTreeSet.insert root g.processed = ap (λ p. p.0.processed) e in
      let ready = w.roots_ready root in
      record {
        well_formed = s.well_formed;
        vertices = s.vertices ∙ ap (λ p. p.0.vertices) e;
        edges = s.edges ∙ kept_edges;
        pending = s.pending ∙ ap (λ p. p.0.pending) e;
        ordered = rw id (
          ground arith,
          λ p. BTreeSet.all_elim (λ q. contains q g.processed) (parents_of g root) p (ground arith),
          subst₂ (λ m d. IsOrdered m d txs) kept_edges now s.ordered,
        );
        within = ground (arith, check_then_subtract_lem budget tx);
        processed = λ k. ground (
          arith,
          s.processed k,
          now,
          id,
          BTreeSet.contains-insert k root g.processed,
          BTreeSet.contains-cons k root (map Transaction.id txs),
        );
        parents_eq = λ p. ground (
          arith,
          s.parents_eq p,
          kept_edges,
          id,
          BTreeSet.contains-extend p parents (parents_of g root),
          BTreeSet.contains-append p (parents_of g root) (all_parents g.parents txs),
        );
      }

  -- A root's value and parents are there, and it can be processed.
  root_parts :
      ((Graph.process_root g root).1 ≡ ok tt)
      × (Graph.parents (Graph.process_root g root).0 root ≡ some (parents_of g root))
  root_parts =
      let (r, e) = process_root-fields g root is_root in
      (
        ap (λ p. p.1) e,
        ground (arith, ap (λ p. p.0.parents) e, w.parents_dom root, w.roots_ready root),
      )

  g₁-IsKeyed : IsKeyed g₁
  g₁-IsKeyed =
      let (r, e) = process_root-fields g root is_root in
      subst
        (λ m.
          (k : ℕ) (t : AuthenticatedTransaction) → BTreeMap.get k m ≡ some t → Transaction.id t ≡ k)
        (sym (ap (λ p. p.0.vertices) e)) keyed

-- What the loop finds at the head of the roots.
root_value :
    (g : TransactionGraph) (w : IsWellFormed g) (root : ℕ)
    → contains root g.roots ≡ true
    → (tx : AuthenticatedTransaction) × (Graph.get g root ≡ some tx)
root_value g w root is_root = elim (Option-cases (Graph.get g root)) [
  | inl gone ↦ absurd (ground (arith, w.roots_ready root))
  | inr found ↦ found
]

-- With more rounds than transactions in the budget the loop ends.
select_loop_lem :
    (fuel : ℕ) (g : TransactionGraph) (budget : BatchBudget) (batch : List AuthenticatedTransaction)
    (parents : BTreeSet)
    → IsWellFormed g
    → IsKeyed g
    → budget.transactions < fuel
    → (g' : TransactionGraph) × (txs : List AuthenticatedTransaction) × (parents' : BTreeSet)
      × (select_loop fuel g budget batch parents ≡ some (g', batch ++ txs, parents'))
      × Selects g budget parents g' txs parents'
unfolding select_loop
select_loop_lem zero g budget batch parents w keyed h = absurd (omega arith)
select_loop_lem (suc fuel) g budget batch parents w keyed h = elim (List-cases g.roots) [
  | inl e ↦
      (g, [], parents, rw (append-nil) (simp (e, select_loop)), Selects-nil g budget parents w)
  | inr (root, rest, e) ↦
      let is_root : contains root g.roots ≡ true =
        ground (arith, e, BTreeSet.contains-cons root root rest) in
      let (tx, stored) = root_value g w root is_root in
      elim (check_then_subtract_lem budget tx) [
        | inr full ↦ (
          g,
          [],
          parents,
          rw append-nil (select_loop-exceeded fuel g budget batch parents e stored full),
          Selects-nil g budget parents w,
        )
        | inl (fits, less, _, _, _) ↦
            let (run, known) = root_parts g w keyed root is_root tx stored budget in
            let (g', txs, parents', ends, s) =
              select_loop_lem fuel (Graph.process_root g root).0 (check_then_subtract budget tx).0
                (batch ++ tx ∷ []) (BTreeSet.extend parents (parents_of g root))
                (process_root-IsWellFormed g root w)
                (g₁-IsKeyed g w keyed root is_root tx stored budget) (omega arith) in
            (
              g',
              tx ∷ txs,
              parents',
              select_loop-cons fuel g budget batch parents e stored fits run known
                  ∙ ends
                  ∙ rw append_assoc,
              Selects-cons g w keyed root is_root tx stored budget parents g' txs parents' fits s,
            )
      ]
]

-- On a graph with the invariant that stores each transaction under its identifier, a selection
-- returns: its transactions were not processed, each comes
-- behind all its parents, together they fit the budget, they are then the only newly processed
-- nodes, the returned parents are theirs, and the graph keeps its nodes and its invariant.
pub select_batch-Selects :
    (g : TransactionGraph) (budget : BatchBudget)
    → IsWellFormed g
    → IsKeyed g
    → (g' : TransactionGraph) × (txs : List AuthenticatedTransaction) × (parents : BTreeSet)
      × (select_batch g budget ≡ some (g', txs, parents))
      × Selects g budget [] g' txs parents
unfolding select_batch
select_batch-Selects g budget w keyed =
    select_loop_lem (suc budget.transactions) g budget [] [] w keyed (omega arith)
