-- ===== src/BlockProducer/Inflight/Effects.antt =====
-- What an admitted transaction adds to the inflight state, and what the next one then meets.
use miden_node.Prelude.{
  ℕ, ◌≡◌, ◌≢◌, ◌↔◌, refl, true, ◌||◌, Option, none, some, List, [], ◌∷◌, ◌++◌, if◌then◌else◌, arith,
  ◌==◌, inl, inr, Bool-cases, Option-cases, ◌⊎◌, last?-append, last?, drop, length, ◌-◌, zero, suc,
  false, sym, ◌∙◌,
}
use mathlib.Core.Option
use miden_node.Collections.BTreeSet
use miden_node.Collections.BTreeSet.{BTreeSet, contains}
use miden_node.Collections.BTreeMap
use miden_node.Collections.BTreeMap.{BTreeMap, contains_key}
use miden_node.BlockProducer.Account
use miden_node.BlockProducer.Transaction
use miden_node.BlockProducer.Transaction.{AuthenticatedTransaction}
use miden_node.BlockProducer.Inflight.{
  InflightState, OutputNoteState, inflight, note_transaction, current_commitment, add_notes,
  note_parents, to_list, new_delta, insert_transaction, account_or_default,
}

pub get-add_notes :
    (tx : ℕ) (ns : List ℕ) (m : BTreeMap OutputNoteState) (n : ℕ)
    → BTreeMap.get n (add_notes tx ns m)
      ≡ (if contains n ns then some (inflight tx) else BTreeMap.get n m)
unfolding add_notes contains
get-add_notes tx [] m n = refl
get-add_notes tx (x ∷ ns) m n = ground (
  arith,
  get-add_notes tx ns (BTreeMap.insert x (inflight tx) m) n,
  BTreeMap.get-insert n x (inflight tx) m,
)

-- The transaction that created the note, if the note is inflight.
abbrev pub creator : BTreeMap OutputNoteState → ℕ → Option ℕ
creator m n = elim (BTreeMap.get n m) [ none ↦ none | some note ↦ note_transaction note ]

note_parents-cons_some :
    (m : BTreeMap OutputNoteState) (n : ℕ) (ns : List ℕ) {t : ℕ}
    → creator m n ≡ some t
    → note_parents m (n ∷ ns) ≡ t ∷ note_parents m ns
unfolding note_parents
note_parents-cons_some m n ns e = ground arith

note_parents-cons_none :
    (m : BTreeMap OutputNoteState) (n : ℕ) (ns : List ℕ)
    → creator m n ≡ none
    → note_parents m (n ∷ ns) ≡ note_parents m ns
unfolding note_parents
note_parents-cons_none m n ns e = ground arith

-- The note parents are exactly the creators of the listed notes.
note_parents_sound :
    (m : BTreeMap OutputNoteState) (ns : List ℕ) (p : ℕ)
    → contains p (note_parents m ns) ≡ true
    → (n : ℕ) × (contains n ns ≡ true) × (creator m n ≡ some p)
unfolding note_parents
note_parents_sound m [] p h = absurd (ground (arith, BTreeSet.contains-nil p))
note_parents_sound m (n ∷ ns) p h = elim (Option-cases (creator m n)) [
  | inl e ↦
      let (k, a, b) = note_parents_sound m ns p (ground (arith, note_parents-cons_none m n ns e)) in
      (k, ground (arith, BTreeSet.contains-cons k n ns), b)
  | inr (t, e) ↦ elim (Bool-cases (p == t)) [
    | inl same ↦ (n, ground (arith, BTreeSet.contains-cons n n ns), ground arith)
    | inr other ↦
        let (k, a, b) = note_parents_sound m ns p (
          ground (
            arith,
            note_parents-cons_some m n ns e,
            BTreeSet.contains-cons p t (note_parents m ns),
          )) in
        (k, ground (arith, BTreeSet.contains-cons k n ns), b)
  ]
]

note_parents_complete :
    (m : BTreeMap OutputNoteState) (ns : List ℕ) (n p : ℕ)
    → contains n ns ≡ true
    → creator m n ≡ some p
    → contains p (note_parents m ns) ≡ true
note_parents_complete m [] n p h e = absurd (ground (arith, BTreeSet.contains-nil n))
note_parents_complete m (x ∷ ns) n p h e = elim (Option-cases (creator m x)) [
  | inl f ↦ ground (
    arith,
    note_parents-cons_none m x ns f,
    note_parents_complete m ns n p,
    BTreeSet.contains-cons n x ns,
  )
  | inr (t, f) ↦ ground (
    arith,
    note_parents-cons_some m x ns f,
    note_parents_complete m ns n p,
    BTreeSet.contains-cons n x ns,
    BTreeSet.contains-cons p t (note_parents m ns),
  )
]

contains-to_list : (p : ℕ) (o : Option ℕ) → (contains p (to_list o) ≡ true) ↔ (o ≡ some p)
unfolding to_list contains
contains-to_list p none = (λ h. cc, λ h. cc)
contains-to_list p (some t) = ground arith

contains-parents :
    (p : ℕ) (o : Option ℕ) (ns : List ℕ)
    → contains p (BTreeSet.from_iter (to_list o ++ ns)) ≡ (contains p (to_list o) || contains p ns)
contains-parents p o ns = ground (
  arith,
  BTreeSet.contains-from_iter p (to_list o ++ ns),
  BTreeSet.contains-append p (to_list o) ns,
)

-- The newest transaction of an account that is not committed.
abbrev pub last_uncommitted : Account.InflightAccountState → Option ℕ
last_uncommitted a = Option.map (λ e. e.1) (last? (drop a.committed a.states))

-- The same of an account that may be unknown.
abbrev pub last_of_account : InflightState → ℕ → Option ℕ
last_of_account s account = elim (BTreeMap.get account s.accounts) [
  | none ↦ none
  | some a ↦ last_uncommitted a
]

last?-drop :
    (n : ℕ) (xs : List (ℕ × ℕ)) → (length xs - n == 0) ≡ false → last? (drop n xs) ≡ last? xs
last?-drop zero xs h = refl
last?-drop (suc n) [] h = absurd (ground arith)
last?-drop (suc n) (x ∷ []) h = absurd (ground arith)
last?-drop (suc n) (x ∷ y ∷ xs) h = last?-drop n (y ∷ xs) (ground arith)

drop_beyond : (n : ℕ) (xs : List (ℕ × ℕ)) → (length xs - n == 0) ≡ true → drop n xs ≡ []
drop_beyond zero [] h = refl
drop_beyond zero (x ∷ xs) h = absurd (ground arith)
drop_beyond (suc n) [] h = refl
drop_beyond (suc n) (x ∷ xs) h = drop_beyond n xs (ground arith)

-- The parent of a new state of an account.
pub insert-last_uncommitted :
    (a : Account.InflightAccountState) (state tx : ℕ)
    → (Account.insert a state tx).1 ≡ last_uncommitted a
unfolding Account.insert
insert-last_uncommitted a state tx = elim (Bool-cases (length a.states - a.committed == 0)) [
  | inl beyond ↦ rw (beyond, drop_beyond a.committed a.states beyond)
  | inr more ↦ rw (more, last?-drop a.committed a.states more)
]

insert-last_of_account :
    (s : InflightState) (account state tx : ℕ)
    → (Account.insert (account_or_default (BTreeMap.get account s.accounts)) state tx).1
      ≡ last_of_account s account
unfolding Account.default
insert-last_of_account s account state tx = elim (Option-cases (BTreeMap.get account s.accounts)) [
  | inl gone ↦ ground (arith, gone, insert-last_uncommitted Account.default state tx)
  | inr (a, found) ↦ ground (arith, found, insert-last_uncommitted a state tx)
]

module _ (s : InflightState) (tx : AuthenticatedTransaction) where
  -- The account before the transaction.
  abbrev before : Account.InflightAccountState
  before = account_or_default (BTreeMap.get (Transaction.account_id tx) s.accounts)

  -- The nullifiers and the notes of the transaction are added, the notes as inflight ones of it;
  -- its delta is recorded, and only its own account changes.
  pub insert_transaction_lem :
      ((n : ℕ)
        → contains n (insert_transaction s tx).0.nullifiers
          ≡ (contains n s.nullifiers || contains n (Transaction.nullifiers tx)))
      × ((n : ℕ)
          → BTreeMap.get n (insert_transaction s tx).0.output_notes ≡ (
              if contains n (Transaction.output_note_ids tx)
              then some (inflight (Transaction.id tx))
              else BTreeMap.get n s.output_notes))
      × ((t : ℕ)
          → BTreeMap.get t (insert_transaction s tx).0.transaction_deltas ≡ (
              if t == Transaction.id tx
              then some (new_delta tx)
              else BTreeMap.get t s.transaction_deltas))
      × ((a : ℕ)
          → a ≢ Transaction.account_id tx
          → BTreeMap.get a (insert_transaction s tx).0.accounts ≡ BTreeMap.get a s.accounts)
      × ((insert_transaction s tx).0.committed_blocks ≡ s.committed_blocks)
      × ((insert_transaction s tx).0.chain_tip ≡ s.chain_tip)
  unfolding insert_transaction
  insert_transaction_lem = (
    λ n. BTreeSet.contains-extend n s.nullifiers (Transaction.nullifiers tx),
    λ n. get-add_notes (Transaction.id tx) (Transaction.output_note_ids tx) s.output_notes n,
    λ t. BTreeMap.get-insert t (Transaction.id tx) (new_delta tx) s.transaction_deltas,
    λ a ne. ground (
      arith,
      BTreeMap.get-insert a (Transaction.account_id tx)
          (Account.insert before tx.inner.final_state_commitment (Transaction.id tx)).0 s.accounts,
    ),
    refl,
    refl,
  )

  -- Whatever the store says, the account's commitment is now the transaction's final one.
  pub current_commitment-insert_transaction :
      (next : AuthenticatedTransaction)
      → Transaction.account_id next ≡ Transaction.account_id tx
      → current_commitment (insert_transaction s tx).0 next ≡ some tx.inner.final_state_commitment
  unfolding insert_transaction current_commitment Account.insert Account.current_state
  current_commitment-insert_transaction next same =
      let account = (Account.insert before tx.inner.final_state_commitment (Transaction.id tx)).0 in
      rw (
        same,
        BTreeMap.get-insert_self (Transaction.account_id tx) account s.accounts,
        last?-append before.states (tx.inner.final_state_commitment, Transaction.id tx),
      )

  -- The parents are exactly the last transaction of the account that is not committed, and the creators
  -- of the consumed unauthenticated notes that are inflight once the transaction is inserted.
  pub insert_transaction-parents :
      (p : ℕ)
      → (contains p (insert_transaction s tx).1 ≡ true) ↔ (
          (last_of_account s (Transaction.account_id tx) ≡ some p)
          ⊎ (n : ℕ) × (contains n (Transaction.unauthenticated_notes tx) ≡ true)
            × (creator (insert_transaction s tx).0.output_notes n ≡ some p))
  unfolding insert_transaction
  insert_transaction-parents p =
      let parent = (Account.insert before tx.inner.final_state_commitment (Transaction.id tx)).1 in
      let last =
        insert-last_of_account s (Transaction.account_id tx) tx.inner.final_state_commitment
          (Transaction.id tx) in
      let notes = add_notes (Transaction.id tx) (Transaction.output_note_ids tx) s.output_notes in
      let unauthenticated = Transaction.unauthenticated_notes tx in
      let split = contains-parents p parent (note_parents notes unauthenticated) in
      (
        λ m. elim (Bool-cases (contains p (to_list parent))) [
          | inl e ↦ inl (sym last ∙ (contains-to_list p parent).0 e)
          | inr e ↦ inr (note_parents_sound notes unauthenticated p (ground (arith, split)))
        ],
        λ m. elim m [
          | inl e ↦ ground (arith, split, (contains-to_list p parent).1 (last ∙ e))
          | inr (n, a, b) ↦
              ground (arith, split, note_parents_complete notes unauthenticated n p a b)
        ],
      )
