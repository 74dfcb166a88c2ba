-- ===== src/BlockProducer/Graph/RevertLoop.antt =====
-- The `while` loop of `revert_subgraphs`: its state, its rounds and its end.
use miden_node.Prelude.{
  ℕ, zero, suc, ◌≡◌, ◌<◌, ◌≤◌, refl, Bool, true, false, not, ◌&&◌, ◌||◌, [], ◌∷◌, arith, Bool-cases,
  inl, inr, some, length, filter,
}
use miden_node.Collections.BTreeSet
use miden_node.Collections.BTreeSet.{BTreeSet, contains, IsAscending}
use miden_node.Collections.BTreeMap
use miden_node.Collections.BTreeMap.{contains_key}
use miden_node.BlockProducer.Graph.{DependencyGraph, children_of, revert_loop}
use miden_node.BlockProducer.Graph.WellFormed.{IsWellFormed}
use miden_node.BlockProducer.Graph.Descends.{Descends, given, child}

module _ {ℓ} {V : Type ℓ} (g : DependencyGraph V) (keys : BTreeSet) where
  abbrev pub has_value : ℕ → Bool
  has_value c = contains_key c g.vertices

  abbrev pub IsReverted : ℕ → Type ℓ
  IsReverted = Descends g has_value keys

  -- The state of the loop: the processed nodes, the nodes to revert and the reverted ones.
  pub record Reverting (done todo reverted : BTreeSet) : Type ℓ where
    pub ascending : IsAscending todo
    pub done_eq : (k : ℕ) → contains k done ≡ (contains k g.processed && not (contains k reverted))
    pub started : (k : ℕ) → contains k keys ≡ true → (contains k reverted || contains k todo) ≡ true
    pub closed :
        (p c : ℕ)
        → contains p reverted ≡ true
        → contains c (children_of g p) ≡ true
        → contains_key c g.vertices ≡ true
        → (contains c reverted || contains c todo) ≡ true
    pub fresh : (k : ℕ) → contains k todo ≡ true → contains k reverted ≡ false
    pub vertex : (k : ℕ) → contains k todo ≡ true → contains_key k g.vertices ≡ true
    pub sound : (k : ℕ) → (contains k reverted || contains k todo) ≡ true → IsReverted k

  -- The children that a round adds.
  abbrev unprocessed_children : ℕ → BTreeSet → BTreeSet
  unprocessed_children key reverted =
      filter has_value (BTreeSet.difference (children_of g key) reverted)

  module _ (done : BTreeSet) (key : ℕ) (todo reverted : BTreeSet) (w : IsWellFormed g) where
    contains-children :
        (c : ℕ)
        → contains c (unprocessed_children key reverted)
          ≡ (has_value c && (not (contains c reverted) && contains c (children_of g key)))
    contains-children c = ground (
      arith,
      BTreeSet.contains-filter c has_value (BTreeSet.difference (children_of g key) reverted),
      BTreeSet.contains-difference c (children_of g key) reverted,
    )

    abbrev next_todo : BTreeSet
    next_todo = BTreeSet.extend todo (unprocessed_children key reverted)

    contains-next_todo :
        (c : ℕ)
        → contains c next_todo ≡ (
            contains c todo
            || (has_value c && (not (contains c reverted) && contains c (children_of g key))))
    contains-next_todo c = ground (
      arith,
      contains-children c,
      BTreeSet.contains-extend c todo (unprocessed_children key reverted),
    )

    Reverting-round :
        Reverting done (key ∷ todo) reverted
        → Reverting (BTreeSet.remove key done) next_todo (BTreeSet.insert key reverted)
    Reverting-round s = record {
      ascending =
          BTreeSet.extend-IsAscending todo (unprocessed_children key reverted) s.ascending.1;
      done_eq = λ k. ground (
        arith,
        BTreeSet.contains-remove k key done,
        BTreeSet.contains-insert k key reverted,
        s.done_eq k,
      );
      started = λ k m. ground (
        arith,
        s.started k,
        contains-next_todo k,
        BTreeSet.contains-cons k key todo,
        BTreeSet.contains-insert k key reverted,
      );
      closed = λ p c m e v. ground (
        arith,
        s.closed p c,
        contains-next_todo c,
        BTreeSet.contains-cons c key todo,
        BTreeSet.contains-insert c key reverted,
        BTreeSet.contains-insert p key reverted,
      );
      fresh = λ k m. ground (
        arith,
        s.fresh k,
        contains-next_todo k,
        BTreeSet.contains-cons k key todo,
        BTreeSet.contains-insert k key reverted,
        BTreeSet.head-fresh key todo s.ascending,
        w.edges key key,
        w.no_loop key,
      );
      vertex = λ k m.
          ground (arith, s.vertex k, contains-next_todo k, BTreeSet.contains-cons k key todo);
      sound = λ k m. elim (Bool-cases (contains k reverted || contains k (key ∷ todo))) [
        | inl old ↦ s.sound k old
        | inr new ↦
            child (s.sound key (ground (arith, BTreeSet.contains-cons key key todo)))
              (ground (
                arith,
                contains-next_todo k,
                BTreeSet.contains-cons k key todo,
                BTreeSet.contains-insert k key reverted,
              ))
              (ground (
                arith,
                contains-next_todo k,
                BTreeSet.contains-cons k key todo,
                BTreeSet.contains-insert k key reverted,
              ))
      ];
    }

    -- The nodes with a value that are not reverted become fewer.
    work-lt :
        Reverting done (key ∷ todo) reverted
        → length (BTreeSet.difference (BTreeMap.keys g.vertices) (BTreeSet.insert key reverted))
          < length (BTreeSet.difference (BTreeMap.keys g.vertices) reverted)
    work-lt s =
        let first = BTreeSet.contains-cons key key todo in
        BTreeSet.length-difference-insert key (BTreeMap.keys g.vertices) reverted
          (ground (arith, first, s.vertex key, BTreeMap.contains-keys key g.vertices))
          (ground (arith, first, s.fresh key))

  -- With a round for each node with a value that is not reverted yet, the loop ends.
  pub revert_loop_lem :
      IsWellFormed g
      → (fuel : ℕ) (done todo reverted : BTreeSet) → Reverting done todo reverted
      → length (BTreeSet.difference (BTreeMap.keys g.vertices) reverted) ≤ fuel
      → (done' reverted' : BTreeSet) × (revert_loop fuel
            (record g { processed = done })
            todo
            reverted
          ≡ some (record g { processed = done' }, reverted'))
        × Reverting done' [] reverted'
  unfolding revert_loop
  revert_loop_lem w zero done [] reverted s h = (done, reverted, refl, s)
  revert_loop_lem w zero done (key ∷ todo) reverted s h =
      absurd (omega (arith, work-lt done key todo reverted w s))
  revert_loop_lem w (suc fuel) done [] reverted s h = (done, reverted, refl, s)
  revert_loop_lem w (suc fuel) done (key ∷ todo) reverted s h =
      revert_loop_lem w fuel (BTreeSet.remove key done) (next_todo done key todo reverted w)
        (BTreeSet.insert key reverted) (Reverting-round done key todo reverted w s)
        (omega (arith, work-lt done key todo reverted w s))

  -- At the end of the loop the descendants are reverted, all of them.
  pub IsReverted-complete :
      (done reverted : BTreeSet)
      → Reverting done [] reverted
      → {k : ℕ} → IsReverted k
      → contains k reverted ≡ true
  IsReverted-complete done reverted s (given {k} m) =
      ground (arith, s.started k, BTreeSet.contains-nil k)
  IsReverted-complete done reverted s (child {p} {k} d e v) =
      ground (arith, s.closed p k, IsReverted-complete done reverted s d, BTreeSet.contains-nil k)

  pub IsReverted-sound :
      (done reverted : BTreeSet)
      → Reverting done [] reverted
      → (k : ℕ) → contains k reverted ≡ true
      → IsReverted k
  IsReverted-sound done reverted s k m = s.sound k (ground arith)
