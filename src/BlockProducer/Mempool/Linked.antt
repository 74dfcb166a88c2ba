-- ===== src/BlockProducer/Mempool/Linked.antt =====
-- The inflight state, the events and the expirations beside the transaction graph in `Mempool`, and
-- `add_transaction` on them.
use miden_node.Prelude.{
  ℕ, ◌≡◌, ◌∙◌, refl, ap, sym, true, false, ◌||◌, none, some, if◌then◌else◌, arith, ◌==◌, inl, inr,
  Bool-cases, Option-cases, ◌⊎◌, ◌≢◌, ◌&&◌, ◌↔◌,
}
use miden_node.BlockProducer.Expirations
use miden_node.BlockProducer.Expirations.Consistent.{IsConsistent, insert-IsConsistent}
use miden_node.Collections.BTreeSet
use miden_node.Collections.BTreeSet.{BTreeSet, contains}
use miden_node.Collections.BTreeMap
use miden_node.Collections.BTreeMap.{BTreeMap, contains_key}
use miden_node.BlockProducer.Graph
use miden_node.BlockProducer.Graph.{ok, err, contains_node, insert_pending, promote_pending}
use miden_node.BlockProducer.Graph.WellFormed.{IsWellFormed}
use miden_node.BlockProducer.Outside.{Outside, Channel}
use miden_node.BlockProducer.Account.{InflightAccountState}
use miden_node.BlockProducer.Transaction
use miden_node.BlockProducer.Transaction.{AuthenticatedTransaction, AddTransactionError}
use miden_node.BlockProducer.Inflight.{
  Delta, new_delta, InflightState, insert_transaction, account_or_default, inflight,
  current_commitment,
}
use miden_node.BlockProducer.Inflight.Admission.{IsAdmissible, IsCounted, add_transaction-atomic}
use miden_node.BlockProducer.Inflight.Effects.{
  creator, insert_transaction_lem, insert_transaction-parents, last_uncommitted, last_of_account,
  current_commitment-insert_transaction,
}
use miden_node.BlockProducer.TransactionGraph.{TransactionGraph}
use miden_node.BlockProducer.TransactionGraph.Select.{IsKeyed}
use miden_node.BlockProducer.Subscription.{MempoolEvent, transaction_added, SubscriptionProvider}
use miden_node.BlockProducer.Mempool.{Mempool, add_transaction, enqueue_transaction}
use miden_node.BlockProducer.Mempool.Placement.{
  g₂, insert_new, last_uncommitted-insert, get-accounts, contains_key-insert,
  transaction_added-index,
}

-- The transaction precedes this one: it is the newest of the account that is not committed, or it
-- created an unauthenticated note that this one consumes.
abbrev Precedes : InflightState → AuthenticatedTransaction → ℕ → Type 0
Precedes s tx p =
    (last_of_account s (Transaction.account_id tx) ≡ some p)
    ⊎ (n : ℕ) × (contains n (Transaction.unauthenticated_notes tx) ≡ true)
      × (creator s.output_notes n ≡ some p)

module _ {O : Outside} {C : Channel (MempoolEvent O)} where
  -- Every transaction that the inflight state, the events and the expirations refer to is in the
  -- graph.
  pub record IsLinked (m : Mempool C) : Type 0 where
    pub graph : IsWellFormed m.transactions
    pub keyed : IsKeyed m.transactions
    pub counted : IsCounted m.state
    pub accounts :
        (a t : ℕ) (account : InflightAccountState)
        → BTreeMap.get a m.state.accounts ≡ some account
        → last_uncommitted account ≡ some t
        → contains_node m.transactions t ≡ true
    pub notes :
        (n t : ℕ) → creator m.state.output_notes n ≡ some t → contains_node m.transactions t ≡ true
    pub tracked :
        (t : ℕ)
        → contains_key t m.subscription.inflight_txs.index ≡ true
        → contains_node m.transactions t ≡ true
    pub expirations : IsConsistent m.expirations
    pub expiring :
        (t : ℕ) → contains_key t m.expirations.by_tx ≡ true → contains_node m.transactions t ≡ true

  -- What a mempool has of a new transaction, next to what it had.
  pub record Added (m : Mempool C) (tx : AuthenticatedTransaction) (m' : Mempool C) : Type 0 where
    pub nodes :
        (k : ℕ)
        → Graph.get m'.transactions k
          ≡ (if k == Transaction.id tx then some tx else Graph.get m.transactions k)
    pub parents :
        (ps : BTreeSet) × (Graph.parents m'.transactions (Transaction.id tx) ≡ some ps)
        × ((p : ℕ) → (contains p ps ≡ true) ↔ Precedes m.state tx p)
    pub other_parents :
        (k : ℕ)
        → k ≢ Transaction.id tx
        → Graph.parents m'.transactions k ≡ Graph.parents m.transactions k
    pub nullifiers :
        (n : ℕ)
        → contains n m'.state.nullifiers
          ≡ (contains n m.state.nullifiers || contains n (Transaction.nullifiers tx))
    pub output_notes :
        (n : ℕ)
        → BTreeMap.get n m'.state.output_notes ≡ (
            if contains n (Transaction.output_note_ids tx)
            then some (inflight (Transaction.id tx))
            else BTreeMap.get n m.state.output_notes)
    pub delta :
        (d : Delta) × (BTreeMap.get (Transaction.id tx) m'.state.transaction_deltas ≡ some d)
        × (d.account ≡ Transaction.account_id tx)
        × ((n : ℕ) → contains n d.nullifiers ≡ contains n (Transaction.nullifiers tx))
        × ((n : ℕ) → contains n d.output_notes ≡ contains n (Transaction.output_note_ids tx))
    pub other_deltas :
        (t : ℕ)
        → t ≢ Transaction.id tx
        → BTreeMap.get t m'.state.transaction_deltas ≡ BTreeMap.get t m.state.transaction_deltas
    pub commitment :
        (next : AuthenticatedTransaction)
        → Transaction.account_id next ≡ Transaction.account_id tx
        → current_commitment m'.state next ≡ some tx.inner.final_state_commitment
    pub other_accounts :
        (a : ℕ)
        → a ≢ Transaction.account_id tx
        → BTreeMap.get a m'.state.accounts ≡ BTreeMap.get a m.state.accounts
    pub expirations :
        (t block : ℕ)
        → contains t (Expirations.get m'.expirations block) ≡ (
            t == Transaction.id tx && block == Transaction.expires_at tx
            || contains t (Expirations.get m.expirations block))
    pub announced :
        (transaction_added C m.subscription tx ≡ some m'.subscription)
        × ((t : ℕ)
            → contains_key t m'.subscription.inflight_txs.index
              ≡ (t == Transaction.id tx || contains_key t m.subscription.inflight_txs.index))
    pub others :
        (m'.batches ≡ m.batches)
        × (m'.block_in_progress ≡ m.block_in_progress)
        × (m'.chain_tip ≡ m.chain_tip)
        × (m'.block_budget ≡ m.block_budget)
        × (m'.batch_budget ≡ m.batch_budget)

  module _ (m : Mempool C) (tx : AuthenticatedTransaction) (l : IsLinked m)
      (a : IsAdmissible m.state tx)
      (fresh : contains_node m.transactions (Transaction.id tx) ≡ false) where
    abbrev s' : InflightState
    s' = (insert_transaction m.state tx).0

    -- The creators of the consumed notes are the ones before the transaction.
    earlier_creator :
        (n : ℕ)
        → contains n (Transaction.unauthenticated_notes tx) ≡ true
        → creator s'.output_notes n ≡ creator m.state.output_notes n
    earlier_creator n wanted =
        let law = (insert_transaction_lem m.state tx).1 n in
        ground (arith, law, a.new_notes n, a.notes_found n)

    contains-parents :
        (p : ℕ) → (contains p (insert_transaction m.state tx).1 ≡ true) ↔ Precedes m.state tx p
    contains-parents p =
        let known = insert_transaction-parents m.state tx p in
        (
          λ h. elim (known.0 h) [
            | inl e ↦ inl e
            | inr (n, wanted, made) ↦ inr (n, wanted, sym (earlier_creator n wanted) ∙ made)
          ],
          λ h. elim h [
            | inl e ↦ known.1 (inl e)
            | inr (n, wanted, made) ↦ known.1 (inr (n, wanted, earlier_creator n wanted ∙ made))
          ],
        )

    parents_known :
        (p : ℕ)
        → contains p (insert_transaction m.state tx).1 ≡ true
        → contains_node m.transactions p ≡ true
    parents_known p h =
        let account = Transaction.account_id tx in
        elim ((contains-parents p).0 h) [
          | inl e ↦ elim (Option-cases (BTreeMap.get account m.state.accounts)) [
            | inl gone ↦ absurd (ground (arith, gone, e))
            | inr (acc, found) ↦ l.accounts account p acc found (ground (arith, found, e))
          ]
          | inr (n, wanted, made) ↦ l.notes n p made
        ]

    -- The graph after the transaction.
    abbrev g' : TransactionGraph
    g' = g₂ m.transactions tx (insert_transaction m.state tx).1 l.graph fresh parents_known

    untracked : BTreeMap.get (Transaction.id tx) m.expirations.by_tx ≡ none
    untracked = ground (arith, fresh, l.expiring (Transaction.id tx))

    -- The mempool after the transaction, with this subscription.
    abbrev after : SubscriptionProvider C → Mempool C
    after p = record m {
      state = s';
      subscription = p;
      expirations =
          Expirations.insert m.expirations (Transaction.id tx) (Transaction.expires_at tx);
      transactions = g';
    }

    after-IsLinked :
        (p : SubscriptionProvider C)
        → ((t : ℕ)
            → contains_key t p.inflight_txs.index
              ≡ (t == Transaction.id tx || contains_key t m.subscription.inflight_txs.index))
        → IsLinked (after p)
    after-IsLinked p index =
        let law = insert_transaction_lem m.state tx in
        let expires = Transaction.expires_at tx in
        let (_, w, nodes, values, _, _) =
          insert_new m.transactions tx (insert_transaction m.state tx).1 l.graph fresh
            parents_known in
        record {
          graph = w;
          keyed = λ k t e. ground (arith, values k, l.keyed k t);
          counted = record {
            few = rw law.4 l.counted.few;
            reached = rw (law.4, law.5) l.counted.reached;
          };
          accounts = λ k t account e h.
              let stored = get-accounts m.state tx k in
              let grown =
                last_uncommitted-insert
                  (account_or_default (BTreeMap.get (Transaction.account_id tx) m.state.accounts))
                  tx.inner.final_state_commitment (Transaction.id tx) t in
              elim (Bool-cases (k == Transaction.account_id tx)) [
                | inl same ↦ ground (arith, stored, grown, nodes t)
                | inr other ↦ ground (arith, stored, l.accounts k t account, nodes t)
              ];
          notes = λ n t e. ground (arith, law.1 n, nodes t, l.notes n t);
          tracked = λ t e. ground (arith, index t, nodes t, l.tracked t);
          expirations =
              (insert-IsConsistent m.expirations (Transaction.id tx) expires untracked
                l.expirations).0;
          expiring = λ t e. ground (
            arith,
            contains_key-insert m.expirations (Transaction.id tx) expires t,
            nodes t,
            l.expiring t,
          );
        }

    after-Added :
        (p : SubscriptionProvider C)
        → transaction_added C m.subscription tx ≡ some p
        → ((t : ℕ)
            → contains_key t p.inflight_txs.index
              ≡ (t == Transaction.id tx || contains_key t m.subscription.inflight_txs.index))
        → Added m tx (after p)
    unfolding new_delta
    after-Added p announced index =
        let law = insert_transaction_lem m.state tx in
        let (_, _, _, values, entry, kept) =
          insert_new m.transactions tx (insert_transaction m.state tx).1 l.graph fresh
            parents_known in
        record {
          nodes = values;
          parents = ((insert_transaction m.state tx).1, entry, contains-parents);
          other_parents = kept;
          nullifiers = law.0;
          output_notes = law.1;
          delta = (
            new_delta tx,
            ground (arith, law.2 (Transaction.id tx)),
            refl,
            λ n. BTreeSet.contains-from_iter n (Transaction.nullifiers tx),
            λ n. BTreeSet.contains-from_iter n (Transaction.output_note_ids tx),
          );
          other_deltas = λ t ne. ground (arith, law.2 t);
          commitment = current_commitment-insert_transaction m.state tx;
          other_accounts = law.3;
          expirations =
              (insert-IsConsistent m.expirations (Transaction.id tx) (Transaction.expires_at tx)
                untracked l.expirations).1;
          announced = (announced, index);
          others = (refl, refl, refl, refl, refl);
        }

    -- What the mempool is afterwards.
    add_transaction-adds :
        (m' : Mempool C) × (enqueue_transaction C m tx s' (insert_transaction m.state tx).1
          ≡ some m')
        × Added m tx m'
        × IsLinked m'
    unfolding enqueue_transaction
    add_transaction-adds =
        let (run, _, _, _, _, _) =
          insert_new m.transactions tx (insert_transaction m.state tx).1 l.graph fresh
            parents_known in
        let (p, announced, index) =
          transaction_added-index m tx (ground (arith, fresh, l.tracked (Transaction.id tx))) in
        (after p, rw (announced, run) refl, after-Added p announced index, after-IsLinked p index)

  -- On a mempool whose graph keeps its invariant and knows every transaction that the inflight
  -- state, the events and the expirations refer to, a transaction with a fresh identifier is added
  -- without a panic: an admissible one is accepted at the chain tip, and any other is refused and the
  -- mempool stays as it is. The accepted one is a node of the graph, next to the nodes that were there;
  -- its parents are exactly the newest transaction of its account that is not committed and the
  -- inflight creators of the unauthenticated notes it consumes, and the other nodes keep theirs; its
  -- nullifiers and its output notes are added to the state and, with its account, recorded as its
  -- delta, next to the deltas that were there; its final commitment is that of the account, and the
  -- other accounts stay; it expires at its block and the others at theirs; it is announced to the
  -- subscriber and tracked; the batches, the block in progress, the chain tip and the budgets stay; and
  -- the mempool still knows every transaction that is referred to.
  pub add_transaction-IsLinked :
      (m : Mempool C) (tx : AuthenticatedTransaction)
      → IsLinked m
      → contains_node m.transactions (Transaction.id tx) ≡ false
      → ((m' : Mempool C) × (add_transaction C m tx ≡ some (m', ok m.chain_tip))
            × Added m tx m'
            × IsLinked m')
          × IsAdmissible m.state tx
        ⊎ ((e : AddTransactionError) × (add_transaction C m tx ≡ some (m, err e)))
          × (¬ IsAdmissible m.state tx)
  unfolding add_transaction
  add_transaction-IsLinked m tx l fresh = elim (add_transaction-atomic m.state tx l.counted) [
    | inl (e, a) ↦
        let (m', run, new, l') = add_transaction-adds m tx l a fresh in
        let (_, _, tip, _, _) = new.others in
        inl ((m', rw (e, add_transaction, run) (ap (λ t. some (m', ok t)) tip), new, l'), a)
    | inr (x, e, bad) ↦ inr ((x, rw (e, add_transaction)), bad)
  ]
