-- ===== src/BlockProducer/Inflight/Undo.antt =====
-- `revert_transactions`, for the transaction that was added last.
use miden_node.Prelude.{
  ℕ, ◌≡◌, refl, true, false, not, ◌&&◌, some, none, arith, if◌then◌else◌, Option, ◌∙◌, [], ◌∷◌,
  is_empty,
}
use miden_node.Collections.BTreeSet
use miden_node.Collections.BTreeSet.{BTreeSet, contains, IsAscending}
use miden_node.Collections.BTreeMap
use miden_node.Collections.BTreeMap.{BTreeMap, contains_key}
use miden_node.BlockProducer.Account
use miden_node.BlockProducer.Account.{
  InflightAccountState, AccountStatus, empty, non_empty, emptiness,
}
use miden_node.BlockProducer.Account.Segments.{IsValid, revert-insert}
use miden_node.BlockProducer.Transaction
use miden_node.BlockProducer.Transaction.{AuthenticatedTransaction}
use miden_node.BlockProducer.Inflight.{
  InflightState, Delta, OutputNoteState, insert_transaction, new_delta, account_or_default,
  add_notes,
}
use miden_node.BlockProducer.Inflight.Admission.{IsAdmissible}
use miden_node.BlockProducer.Inflight.Effects.{insert_transaction_lem, get-add_notes}
use miden_node.BlockProducer.Inflight.Lifecycle.{
  take_nullifiers, take_notes, store_account, revert_one, revert_transactions,
}

-- Distinct members are taken out, without a panic.
pub take_nullifiers_lem :
    (ns : BTreeSet) (s : BTreeSet)
    → IsAscending ns
    → ((n : ℕ) → contains n ns ≡ true → contains n s ≡ true)
    → (s' : BTreeSet) × (take_nullifiers ns s ≡ some s')
      × ((n : ℕ) → contains n s' ≡ (not (contains n ns) && contains n s))
unfolding take_nullifiers
take_nullifiers_lem [] s asc h = (s, refl, λ n. ground (arith, BTreeSet.contains-nil n))
take_nullifiers_lem (x ∷ ns) s asc h =
    let cons = λ (n : ℕ). BTreeSet.contains-cons n x ns in
    let gone = λ (n : ℕ). BTreeSet.contains-remove n x s in
    let (s', run, law) =
      take_nullifiers_lem ns (BTreeSet.remove x s) asc.1
        (λ n m. ground (arith, h n, cons n, gone n, BTreeSet.head-fresh x ns asc)) in
    (s', ground (arith, h x, cons x, run), λ n. ground (arith, law n, cons n, gone n))

pub take_notes_lem :
    (ns : BTreeSet) (m : BTreeMap OutputNoteState)
    → IsAscending ns
    → ((n : ℕ) → contains n ns ≡ true → contains_key n m ≡ true)
    → (m' : BTreeMap OutputNoteState) × (take_notes ns m ≡ some m')
      × ((n : ℕ) → BTreeMap.get n m' ≡ (if contains n ns then none else BTreeMap.get n m))
unfolding take_notes
take_notes_lem [] m asc h = (m, refl, λ n. ground (arith, BTreeSet.contains-nil n))
take_notes_lem (x ∷ ns) m asc h =
    let cons = λ (n : ℕ). BTreeSet.contains-cons n x ns in
    let gone = λ (n : ℕ). BTreeMap.get-remove n x m in
    let (m', run, law) =
      take_notes_lem ns (BTreeMap.remove x m) asc.1
        (λ n e. ground (arith, h n, cons n, gone n, BTreeSet.head-fresh x ns asc)) in
    (m', ground (arith, h x, cons x, run), λ n. ground (arith, law n, cons n, gone n))

-- `revert_one`, on what its parts return.
revert_one_lem :
    (s : InflightState) (tx : ℕ) (delta : Delta) (account : InflightAccountState)
    (r : InflightAccountState × AccountStatus) (ns : BTreeSet) (notes : BTreeMap OutputNoteState)
    → BTreeMap.get tx s.transaction_deltas ≡ some delta
    → BTreeMap.get delta.account s.accounts ≡ some account
    → Account.revert account 1 ≡ some r
    → take_nullifiers delta.nullifiers s.nullifiers ≡ some ns
    → take_notes delta.output_notes s.output_notes ≡ some notes
    → revert_one s tx
      ≡ some (record s {
        transaction_deltas = BTreeMap.remove tx s.transaction_deltas;
        accounts = store_account delta.account r s.accounts;
        nullifiers = ns;
        output_notes = notes;
      })
unfolding revert_one
revert_one_lem s tx delta account r ns notes a b c d e = ground arith

revert_transactions-one :
    (s : InflightState) (tx : ℕ) {s' : InflightState}
    → revert_one s tx ≡ some s'
    → revert_transactions s (tx ∷ []) ≡ some s'
unfolding revert_transactions
revert_transactions-one s tx e = rw (e, revert_transactions)

-- The account of the transaction: valid, and with a state if it is stored.
abbrev pub IsStored : Option InflightAccountState → Type 0
IsStored none = Unit
IsStored (some a) = IsValid a × (is_empty a.states ≡ false)

module _ (k state tx : ℕ) (m : BTreeMap InflightAccountState) where
  -- The account of `k` with the new state.
  abbrev grown : Option InflightAccountState → InflightAccountState
  grown o = (Account.insert (account_or_default o) state tx).0

  -- The account that is stored after a revert is the one before the insertion.
  revert_account :
      (o : Option InflightAccountState)
      → BTreeMap.get k m ≡ o
      → IsStored o
      → (r : InflightAccountState × AccountStatus) × (Account.revert (grown o) 1 ≡ some r)
        × ((a : ℕ)
            → BTreeMap.get a (store_account k r (BTreeMap.insert k (grown o) m)) ≡ BTreeMap.get a m)
  unfolding store_account Account.default
  revert_account none e h = (
    (Account.default, empty),
    revert-insert Account.default state tx (omega arith),
    λ a. ground (
      arith,
      BTreeMap.get-remove a k (BTreeMap.insert k (grown none) m),
      BTreeMap.get-insert a k (grown none) m,
    ),
  )
  revert_account (some b) e h = (
    (b, non_empty),
    revert-insert b state tx h.0 ∙ rw h.1,
    λ a. ground (
      arith,
      BTreeMap.get-insert a k b (BTreeMap.insert k (grown (some b)) m),
      BTreeMap.get-insert a k (grown (some b)) m,
    ),
  )

module _ (s : InflightState) (tx : AuthenticatedTransaction) where
  -- The two states hold the same.
  pub record SameContents (s' : InflightState) : Type 0 where
    pub accounts : (a : ℕ) → BTreeMap.get a s'.accounts ≡ BTreeMap.get a s.accounts
    pub nullifiers : (n : ℕ) → contains n s'.nullifiers ≡ contains n s.nullifiers
    pub output_notes : (n : ℕ) → BTreeMap.get n s'.output_notes ≡ BTreeMap.get n s.output_notes
    pub deltas :
        (t : ℕ) → BTreeMap.get t s'.transaction_deltas ≡ BTreeMap.get t s.transaction_deltas
    pub committed_blocks : s'.committed_blocks ≡ s.committed_blocks
    pub chain_tip : s'.chain_tip ≡ s.chain_tip

  abbrev entry : Option InflightAccountState
  entry = BTreeMap.get (Transaction.account_id tx) s.accounts

  -- An admissible transaction with a fresh identifier, on an account whose entry is valid, is added
  -- and reverted: nothing panics, and every lookup answers as before.
  pub revert-insert_transaction :
      IsAdmissible s tx
      → BTreeMap.get (Transaction.id tx) s.transaction_deltas ≡ none
      → IsStored entry
      → (s' : InflightState) × (revert_transactions
            (insert_transaction s tx).0
            (Transaction.id tx ∷ [])
          ≡ some s')
        × SameContents s'
  unfolding insert_transaction new_delta
  revert-insert_transaction a fresh stored =
      let id = Transaction.id tx in
      let account = Transaction.account_id tx in
      let law = insert_transaction_lem s tx in
      let (r, reverted, accounts) =
        revert_account account tx.inner.final_state_commitment id s.accounts entry refl stored in
      let nullifiers = BTreeSet.from_iter (Transaction.nullifiers tx) in
      let notes = BTreeSet.from_iter (Transaction.output_note_ids tx) in
      let (n', run_n, law_n) =
        take_nullifiers_lem nullifiers (BTreeSet.extend s.nullifiers (Transaction.nullifiers tx))
          (BTreeSet.from_iter-IsAscending (Transaction.nullifiers tx))
          (λ n m. ground (
            arith,
            BTreeSet.contains-from_iter n (Transaction.nullifiers tx),
            BTreeSet.contains-extend n s.nullifiers (Transaction.nullifiers tx),
          )) in
      let added = add_notes id (Transaction.output_note_ids tx) s.output_notes in
      let (m', run_m, law_m) =
        take_notes_lem notes added (BTreeSet.from_iter-IsAscending (Transaction.output_note_ids tx))
          (λ n m. ground (
            arith,
            BTreeSet.contains-from_iter n (Transaction.output_note_ids tx),
            get-add_notes id (Transaction.output_note_ids tx) s.output_notes n,
          )) in
      (
        record s {
          accounts = store_account account r (
              BTreeMap.insert account
                (grown account tx.inner.final_state_commitment id s.accounts entry) s.accounts);
          transaction_deltas =
              BTreeMap.remove id (BTreeMap.insert id (new_delta tx) s.transaction_deltas);
          nullifiers = n';
          output_notes = m';
        },
        revert_transactions-one (insert_transaction s tx).0 id (
            revert_one_lem (insert_transaction s tx).0 id (new_delta tx)
              (grown account tx.inner.final_state_commitment id s.accounts entry) r n' m'
              (BTreeMap.get-insert_self id (new_delta tx) s.transaction_deltas)
              (BTreeMap.get-insert_self account
                (grown account tx.inner.final_state_commitment id s.accounts entry) s.accounts)
              reverted run_n run_m),
        record {
          accounts = accounts;
          nullifiers = λ n. ground (
            arith,
            law_n n,
            BTreeSet.contains-from_iter n (Transaction.nullifiers tx),
            BTreeSet.contains-extend n s.nullifiers (Transaction.nullifiers tx),
            a.unspent n,
          );
          output_notes = λ n. ground (
            arith,
            law_m n,
            BTreeSet.contains-from_iter n (Transaction.output_note_ids tx),
            get-add_notes id (Transaction.output_note_ids tx) s.output_notes n,
            a.new_notes n,
          );
          deltas = λ t. ground (
            arith,
            BTreeMap.get-remove t id (BTreeMap.insert id (new_delta tx) s.transaction_deltas),
            BTreeMap.get-insert t id (new_delta tx) s.transaction_deltas,
          );
          committed_blocks = refl;
          chain_tip = refl;
        },
      )
