-- ===== src/BlockProducer/Graph/PurgeLoop.antt =====
-- The `while` loop of `purge_subgraphs`: its state, its rounds and its end.
use miden_node.Prelude.{
  ℕ, zero, suc, ◌≡◌, ◌<◌, ◌≤◌, refl, true, false, not, ◌&&◌, ◌||◌, [], ◌∷◌, arith, Bool-cases, inl,
  inr, some, none, if◌then◌else◌, length,
}
use miden_node.Collections.BTreeSet
use miden_node.Collections.BTreeSet.{BTreeSet, contains, IsAscending}
use miden_node.Collections.BTreeMap
use miden_node.Collections.BTreeMap.{contains_key}
use miden_node.BlockProducer.Graph.{
  DependencyGraph, parents_of, children_of, contains_node, get, purge_loop, purge_one,
}
use miden_node.BlockProducer.Graph.WellFormed.{IsWellFormed, contains-unlink, contains_key-unlink}
use miden_node.BlockProducer.Graph.Descends.{Descends, given, child}

module _ {ℓ} {V : Type ℓ} (g : DependencyGraph V) (keys : BTreeSet) where
  -- The given nodes and all their descendants, the pending ones too.
  abbrev pub IsPurged : ℕ → Type ℓ
  IsPurged = Descends g (λ _. true) keys

  -- The state of the loop: the graph, the nodes to remove and the removed ones.
  pub record Purging (h : DependencyGraph V) (todo removed : BTreeSet) : Type ℓ where
    pub ascending : IsAscending todo
    pub vertices : (k : ℕ) → get h k ≡ (if contains k removed then none else get g k)
    pub pending :
        (k : ℕ) → contains k h.pending ≡ (not (contains k removed) && contains k g.pending)
    pub processed :
        (k : ℕ) → contains k h.processed ≡ (not (contains k removed) && contains k g.processed)
    pub roots : (k : ℕ) → contains k h.roots ≡ (not (contains k removed) && contains k g.roots)
    pub parents :
        (k : ℕ)
        → BTreeMap.get k h.parents ≡ (if contains k removed then none else BTreeMap.get k g.parents)
    pub children_dom :
        (k : ℕ)
        → contains_key k h.children ≡ (not (contains k removed) && contains_key k g.children)
    pub children :
        (p c : ℕ)
        → contains c (children_of h p)
          ≡ (not (contains p removed) && (not (contains c removed) && contains c (children_of g p)))
    pub started : (k : ℕ) → contains k keys ≡ true → (contains k removed || contains k todo) ≡ true
    pub closed :
        (p c : ℕ)
        → contains p removed ≡ true
        → contains c (children_of g p) ≡ true
        → (contains c removed || contains c todo) ≡ true
    pub fresh : (k : ℕ) → contains k todo ≡ true → contains k removed ≡ false
    pub node : (k : ℕ) → contains k todo ≡ true → contains_node g k ≡ true
    pub sound : (k : ℕ) → (contains k removed || contains k todo) ≡ true → IsPurged k

  module _ (h : DependencyGraph V) (key : ℕ) (todo removed : BTreeSet) (w : IsWellFormed g) where
    abbrev next_todo : BTreeSet
    next_todo = BTreeSet.extend todo (BTreeSet.difference (children_of h key) keys)

    contains-next_todo :
        (c : ℕ)
        → contains c next_todo
          ≡ (contains c todo || (not (contains c keys) && contains c (children_of h key)))
    contains-next_todo c = ground (
      arith,
      BTreeSet.contains-extend c todo (BTreeSet.difference (children_of h key) keys),
      BTreeSet.contains-difference c (children_of h key) keys,
    )

    Purging-round :
        Purging h (key ∷ todo) removed
        → Purging (purge_one key h) next_todo (BTreeSet.insert key removed)
    unfolding purge_one
    Purging-round s =
        let gone = λ (k : ℕ). BTreeSet.contains-insert k key removed in
        let first = λ (k : ℕ). BTreeSet.contains-cons k key todo in
        record {
          ascending =
              BTreeSet.extend-IsAscending todo (BTreeSet.difference (children_of h key) keys)
                s.ascending.1;
          vertices =
              λ k. ground (arith, gone k, BTreeMap.get-remove k key h.vertices, s.vertices k);
          pending =
              λ k. ground (arith, gone k, BTreeSet.contains-remove k key h.pending, s.pending k);
          processed = λ k.
              ground (arith, gone k, BTreeSet.contains-remove k key h.processed, s.processed k);
          roots = λ k. ground (arith, gone k, BTreeSet.contains-remove k key h.roots, s.roots k);
          parents = λ k. ground (arith, gone k, BTreeMap.get-remove k key h.parents, s.parents k);
          children_dom = λ k. ground (
            arith,
            gone k,
            contains_key-unlink key (parents_of h key) (BTreeMap.remove key h.children) k,
            BTreeMap.get-remove k key h.children,
            s.children_dom k,
          );
          children = λ p c. ground (
            arith,
            gone p,
            gone c,
            contains-unlink key (parents_of h key) (BTreeMap.remove key h.children) p c,
            BTreeMap.get-remove p key h.children,
            BTreeSet.contains-nil c,
            s.children p c,
            s.parents key,
            s.fresh key,
            first key,
            w.edges p key,
          );
          started = λ k m. ground (arith, gone k, first k, s.started k, contains-next_todo k);
          closed = λ p c m e. ground (
            arith,
            gone p,
            gone c,
            first c,
            first key,
            s.closed p c,
            s.started c,
            s.fresh key,
            s.children key c,
            contains-next_todo c,
          );
          fresh = λ k m. ground (
            arith,
            gone k,
            first k,
            first key,
            s.fresh k,
            s.fresh key,
            s.children key k,
            contains-next_todo k,
            BTreeSet.head-fresh key todo s.ascending,
            w.edges key key,
            w.no_loop key,
          );
          node = λ k m. ground (
            arith,
            first k,
            s.node k,
            s.children key k,
            contains-next_todo k,
            w.edges key k,
            w.parents_dom k,
            BTreeSet.contains-nil key,
          );
          sound = λ k m. elim (Bool-cases (contains k removed || contains k (key ∷ todo))) [
            | inl old ↦ s.sound k old
            | inr new ↦
                child (s.sound key (ground (arith, first key)))
                  (ground (arith, gone k, first k, s.children key k, contains-next_todo k)) refl
          ];
        }

    -- The nodes that are not removed become fewer.
    work-lt :
        Purging h (key ∷ todo) removed
        → length (BTreeSet.difference (BTreeMap.keys g.children) (BTreeSet.insert key removed))
          < length (BTreeSet.difference (BTreeMap.keys g.children) removed)
    work-lt s =
        let first = BTreeSet.contains-cons key key todo in
        BTreeSet.length-difference-insert key (BTreeMap.keys g.children) removed
          (ground
            (arith, first, s.node key, w.children_dom key, BTreeMap.contains-keys key g.children))
          (ground (arith, first, s.fresh key))

  -- With a round for each node that is not removed yet, the loop ends.
  pub purge_loop_lem :
      IsWellFormed g
      → (fuel : ℕ) (h : DependencyGraph V) (todo removed : BTreeSet) → Purging h todo removed
      → length (BTreeSet.difference (BTreeMap.keys g.children) removed) ≤ fuel
      → (h' : DependencyGraph V) × (removed' : BTreeSet) × (purge_loop fuel keys h todo removed
          ≡ some (h', removed'))
        × Purging h' [] removed'
  unfolding purge_loop
  purge_loop_lem w zero h [] removed s b = (h, removed, refl, s)
  purge_loop_lem w zero h (key ∷ todo) removed s b =
      absurd (omega (arith, work-lt h key todo removed w s))
  purge_loop_lem w (suc fuel) h [] removed s b = (h, removed, refl, s)
  purge_loop_lem w (suc fuel) h (key ∷ todo) removed s b =
      purge_loop_lem w fuel (purge_one key h) (next_todo h key todo removed w)
        (BTreeSet.insert key removed) (Purging-round h key todo removed w s)
        (omega (arith, work-lt h key todo removed w s))

  -- At the end of the loop the given nodes and their descendants are removed, all of them.
  pub removed_complete :
      (h : DependencyGraph V) (removed : BTreeSet)
      → Purging h [] removed
      → {k : ℕ} → IsPurged k
      → contains k removed ≡ true
  removed_complete h removed s (given {k} m) = ground (arith, s.started k, BTreeSet.contains-nil k)
  removed_complete h removed s (child {p} {k} d e v) =
      ground (arith, s.closed p k, removed_complete h removed s d, BTreeSet.contains-nil k)

  pub removed_sound :
      (h : DependencyGraph V) (removed : BTreeSet)
      → Purging h [] removed
      → (k : ℕ) → contains k removed ≡ true
      → IsPurged k
  removed_sound h removed s k m = s.sound k (ground arith)
