-- ===== src/BlockProducer/Expirations/Consistent.antt =====
-- How the two indices of `TransactionExpirations` belong together, and what its methods do to them.
use miden_node.Prelude.{
  ℕ, ◌==◌, ◌≡◌, refl, Bool, false, not, ◌&&◌, ◌||◌, none, some, List, [], ◌∷◌, if◌then◌else◌,
  is_empty, arith, Option-cases, inl, inr,
}
use miden_node.Collections.BTreeSet
use miden_node.Collections.BTreeSet.{BTreeSet, contains}
use miden_node.Collections.BTreeMap
use miden_node.BlockProducer.Expirations.{
  TransactionExpirations, default, insert, get, remove_at, remove_one, remove,
}

-- The transaction is tracked, at this block.
abbrev pub expires_at : TransactionExpirations → ℕ → ℕ → Bool
expires_at e tx block = elim (BTreeMap.get tx e.by_tx) [ none ↦ false | some b ↦ b == block ]

pub record IsConsistent (e : TransactionExpirations) : Type 0 where
  -- The set of a block holds exactly the transactions tracked at it.
  pub agree : (tx block : ℕ) → contains tx (get e block) ≡ expires_at e tx block
  -- A block has an entry only if a transaction expires at it.
  pub pruned :
      (block : ℕ) (s : BTreeSet) → BTreeMap.get block e.by_block ≡ some s → is_empty s ≡ false

pub default-IsConsistent : IsConsistent default
unfolding default BTreeMap.get contains
default-IsConsistent = record { agree = λ tx block. refl; pruned = λ block s h. cc }

module _ (e : TransactionExpirations) (tx block : ℕ) where
  -- On consistent indices a transaction that is not tracked yet is tracked at its block, the
  -- others stay, and the indices stay consistent.
  pub insert-IsConsistent :
      BTreeMap.get tx e.by_tx ≡ none
      → IsConsistent e
      → IsConsistent (insert e tx block)
        × ((t b : ℕ)
            → contains t (get (insert e tx block) b)
              ≡ (t == tx && b == block || contains t (get e b)))
  unfolding insert
  insert-IsConsistent new c =
      let s = get e block in
      (
        record {
          agree = λ t b. ground (
            arith,
            c.agree t b,
            BTreeMap.get-insert b block (BTreeSet.insert tx s) e.by_block,
            BTreeMap.get-insert t tx block e.by_tx,
            BTreeSet.contains-insert t tx s,
          );
          pruned = λ b s' h. ground (
            arith,
            c.pruned b s',
            BTreeMap.get-insert b block (BTreeSet.insert tx s) e.by_block,
            BTreeSet.insert-is_empty tx s,
          );
        },
        λ t b. ground (
          arith,
          BTreeMap.get-insert b block (BTreeSet.insert tx s) e.by_block,
          BTreeSet.contains-insert t tx s,
        ),
      )

  -- What is left of the entry of the transaction's block.
  abbrev left : BTreeSet
  left = BTreeSet.remove tx (get e block)

  abbrev removed : TransactionExpirations
  removed = record {
    by_tx = BTreeMap.remove tx e.by_tx;
    by_block =
        if is_empty left
        then BTreeMap.remove block e.by_block
        else BTreeMap.insert block left e.by_block;
  }

  get-removed :
      (b : ℕ)
      → BTreeMap.get b removed.by_block ≡ (
          if b == block
          then (if is_empty left then none else some left)
          else BTreeMap.get b e.by_block)
  get-removed b =
      ground
        (arith, BTreeMap.get-insert b block left e.by_block, BTreeMap.get-remove b block e.by_block)

  removed-IsConsistent :
      BTreeMap.get tx e.by_tx ≡ some block → IsConsistent e → IsConsistent removed
  removed-IsConsistent tracked c = record {
    agree = λ t b. ground (
      arith,
      get-removed b,
      c.agree t b,
      BTreeMap.get-remove t tx e.by_tx,
      BTreeSet.contains-remove t tx (get e block),
      BTreeSet.is_empty_elim left t,
      BTreeSet.contains-nil t,
    );
    pruned = λ b s h. ground (arith, get-removed b, c.pruned b s);
  }

  remove_at-removed :
      BTreeMap.get tx e.by_tx ≡ some block → IsConsistent e → remove_at e tx block ≡ some removed
  unfolding remove_at
  remove_at-removed tracked c = elim (Option-cases (BTreeMap.get block e.by_block)) [
    | inl gone ↦ absurd (ground (arith, c.agree tx block, BTreeSet.contains-nil tx))
    | inr (s, found) ↦ rw (found, remove_at)
  ]

-- One removal returns; the transaction is no longer tracked, and the others stay.
remove_one_lem :
    (e : TransactionExpirations) (tx : ℕ)
    → IsConsistent e
    → (e' : TransactionExpirations) × (remove_one e tx ≡ some e')
      × IsConsistent e'
      × ((t b : ℕ) → contains t (get e' b) ≡ (not (t == tx) && contains t (get e b)))
unfolding remove_one
remove_one_lem e tx c = elim (Option-cases (BTreeMap.get tx e.by_tx)) [
  | inl gone ↦ (e, rw (gone, remove_one), c, λ t b. ground (arith, c.agree t b))
  | inr (block, tracked) ↦
      let c' = removed-IsConsistent e tx block tracked c in
      (
        removed e tx block,
        rw (tracked, remove_one) (remove_at-removed e tx block tracked c),
        c',
        λ t b. ground (arith, c'.agree t b, c.agree t b, BTreeMap.get-remove t tx e.by_tx),
      )
]

-- On consistent indices `remove` does not panic, keeps them consistent, and takes exactly the
-- given transactions out of the sets of all blocks.
pub remove-IsConsistent :
    (txs : List ℕ) (e : TransactionExpirations)
    → IsConsistent e
    → (e' : TransactionExpirations) × (remove e txs ≡ some e')
      × IsConsistent e'
      × ((t b : ℕ) → contains t (get e' b) ≡ (not (contains t txs) && contains t (get e b)))
unfolding remove contains
remove-IsConsistent [] e c = (e, refl, c, λ t b. refl)
remove-IsConsistent (tx ∷ txs) e c =
    let (e₁, run₁, c₁, h₁) = remove_one_lem e tx c in
    let (e₂, run₂, c₂, h₂) = remove-IsConsistent txs e₁ c₁ in
    (e₂, rw (run₁, remove) run₂, c₂, λ t b. ground (arith, h₁ t b, h₂ t b))
