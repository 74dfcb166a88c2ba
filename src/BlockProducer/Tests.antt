-- ===== src/BlockProducer/Tests.antt =====
-- The theorems on accounts, expirations, admission, batches and selection, at small inputs.
use miden_node.Prelude.{
  ℕ, ◌≡◌, ◌↔◌, ◌⊎◌, refl, not, ◌&&◌, some, none, [], ◌∷◌, ◌++◌, arith, if◌then◌else◌, leb, inl,
  true, take, drop, last?, length,
}
use mathlib.Core.Option
use miden_node.Collections.BTreeSet
use miden_node.Collections.BTreeSet.{BTreeSet, contains}
use miden_node.Collections.BTreeMap
use miden_node.Collections.BTreeMap.{contains_key}
use miden_node.BlockProducer.Graph.{ok, err}
use miden_node.BlockProducer.Account
use miden_node.BlockProducer.Account.Segments.{
  Segments, of_segments, status, without_last, methods-of_segments,
}
use miden_node.BlockProducer.Expirations
use miden_node.BlockProducer.Expirations.{TransactionExpirations}
use miden_node.BlockProducer.Expirations.Consistent.{
  IsConsistent, default-IsConsistent, insert-IsConsistent, remove-IsConsistent,
}
use miden_node.BlockProducer.Transaction.{AuthenticatedTransaction, AddTransactionError, expired}
use miden_node.BlockProducer.Inflight
use miden_node.BlockProducer.Inflight.{
  InflightState, inflight, insert_transaction, add_transaction, verify_transaction,
  current_commitment, new_delta, account_or_default, verify_state, oldest_committed_state,
  add_notes, note_parents, to_list,
}
use miden_node.BlockProducer.Inflight.Admission.{
  IsAdmissible, IsCounted, verify_transaction-IsAdmissible, add_transaction-atomic,
}
use miden_node.BlockProducer.Budget.{BatchBudget}
use miden_node.BlockProducer.Inflight.Effects.{insert_transaction-parents, creator, last_of_account}
use miden_node.BlockProducer.Inflight.Safety.{no_double_spend, account_chain}
use miden_node.BlockProducer.Inflight.Undo.{SameContents, revert-insert_transaction}
use miden_node.BlockProducer.Inflight.Lifecycle.{revert_transactions}
use miden_node.BlockProducer.Inflight.Refusal.{Explains, verify_transaction-Explains}

-- One committed and two inflight states.
abbrev three : Segments
three = record { settled = (100, 1) ∷ []; inflight = (101, 2) ∷ (102, 3) ∷ [] }

methods-of_segments_example :
    (Account.insert (of_segments three) 103 4 ≡ (
      of_segments (record three { inflight = three.inflight ++ (103, 4) ∷ [] }),
      Option.map (λ (e : ℕ × ℕ). e.1) (last? three.inflight),
    ))
    × (Account.revert (of_segments three) 1 ≡ (
        if leb 1 (length three.inflight)
        then some (of_segments (without_last three 1), status (without_last three 1))
        else none))
    × (Account.commit (of_segments three) 1 ≡ (
        if leb 1 (length three.inflight)
        then some (
            of_segments (record {
              settled = three.settled ++ take 1 three.inflight;
              inflight = drop 1 three.inflight;
            }))
        else none))
    × (Account.prune_committed (of_segments three) 1 ≡ (
        if leb 1 (length three.settled)
        then some (
          of_segments (record three { settled = drop 1 three.settled }),
          status (record three { settled = drop 1 three.settled }),
        )
        else none))
    × (Account.current_state (of_segments three) ≡ some 102)
methods-of_segments_example = methods-of_segments three 103 4 1

-- Transaction 7 expires at block 30.
abbrev tracked : TransactionExpirations
tracked = Expirations.insert Expirations.default 7 30

tracked-IsConsistent : IsConsistent tracked
unfolding Expirations.default BTreeMap.get
tracked-IsConsistent = (insert-IsConsistent Expirations.default 7 30 refl default-IsConsistent).0

remove-IsConsistent_example :
    (e' : TransactionExpirations) × (Expirations.remove tracked (7 ∷ 8 ∷ []) ≡ some e')
    × IsConsistent e'
    × ((t b : ℕ)
        → contains t (Expirations.get e' b)
          ≡ (not (contains t (7 ∷ 8 ∷ [])) && contains t (Expirations.get tracked b)))
remove-IsConsistent_example = remove-IsConsistent (7 ∷ 8 ∷ []) tracked tracked-IsConsistent

-- A state at block 10, and a transaction of account 5 from commitment 0 to 50 that consumes the
-- note of nullifier 60 and creates note 70.
abbrev fresh : InflightState
fresh = Inflight.new 10 5 2

abbrev transfer : AuthenticatedTransaction
transfer = record {
  inner = record {
    id = 1;
    account_id = 5;
    initial_state_commitment = 0;
    final_state_commitment = 50;
    nullifiers = 60 ∷ [];
    output_note_ids = 70 ∷ [];
    unauthenticated_note_ids = [];
    input_note_count = 1;
    output_note_count = 1;
    expiration_block_num = 40;
  };
  store_account_state = none;
  notes_authenticated_by_store = [];
  authentication_height = 10;
}

-- A later transaction of the account, which consumes note 70.
abbrev follow_up : AuthenticatedTransaction
follow_up = record transfer {
  inner = record {
    id = 2;
    account_id = 5;
    initial_state_commitment = 50;
    final_state_commitment = 51;
    nullifiers = 61 ∷ [];
    output_note_ids = [];
    unauthenticated_note_ids = 70 ∷ [];
    input_note_count = 1;
    output_note_count = 0;
    expiration_block_num = 40;
  };
}

-- All that the admission computes with.
admission : Unit {0}
unfolding Inflight.new add_transaction verify_transaction verify_state oldest_committed_state
    current_commitment insert_transaction new_delta add_notes note_parents to_list Account.insert
    Account.current_state Account.default contains BTreeSet.insert BTreeSet.extend
    BTreeSet.from_iter BTreeMap.get BTreeMap.insert
admission = tt

fresh-IsCounted : IsCounted fresh
unfolding admission
fresh-IsCounted = record { few = omega arith; reached = omega arith }

transfer-IsAdmissible : IsAdmissible fresh transfer
unfolding admission
transfer-IsAdmissible = record {
  unexpired = omega arith;
  recent = omega arith;
  account = refl;
  unspent = λ n m. refl;
  new_notes = λ n m. refl;
  notes_found = λ n m. cc;
}

after_transfer :
    add_transaction fresh transfer ≡ some ((insert_transaction fresh transfer).0, ok [])
unfolding admission
after_transfer = refl

verify_transaction-IsAdmissible_example :
    (verify_transaction fresh transfer ≡ some (ok tt)) ↔ IsAdmissible fresh transfer
verify_transaction-IsAdmissible_example =
    verify_transaction-IsAdmissible fresh transfer fresh-IsCounted

add_transaction-atomic_example :
    (add_transaction fresh transfer
        ≡ some ((insert_transaction fresh transfer).0, ok (insert_transaction fresh transfer).1))
      × IsAdmissible fresh transfer
    ⊎ (e : AddTransactionError) × (add_transaction fresh transfer ≡ some (fresh, err e))
      × (¬ IsAdmissible fresh transfer)
add_transaction-atomic_example = add_transaction-atomic fresh transfer fresh-IsCounted

-- Authenticated at block 9, and expiring at block 12, which is within the slack.
abbrev late : AuthenticatedTransaction
late = record transfer {
  inner = record {
    id = 3;
    account_id = 5;
    initial_state_commitment = 0;
    final_state_commitment = 50;
    nullifiers = [];
    output_note_ids = [];
    unauthenticated_note_ids = [];
    input_note_count = 0;
    output_note_count = 0;
    expiration_block_num = 12;
  };
}

verify_transaction-Explains_example : Explains fresh late (expired 12 12)
unfolding admission
verify_transaction-Explains_example = verify_transaction-Explains fresh late (expired 12 12) refl

-- The state after the transfer.
abbrev spent : InflightState
spent = (insert_transaction fresh transfer).0

insert_transaction-parents_example : (contains 1 (insert_transaction spent follow_up).1 ≡ true) ↔ (
    (last_of_account spent 5 ≡ some 1)
    ⊎ (n : ℕ) × (contains n (70 ∷ []) ≡ true)
      × (creator (insert_transaction spent follow_up).0.output_notes n ≡ some 1))
unfolding contains
insert_transaction-parents_example = insert_transaction-parents spent follow_up 1

no_double_spend_example :
    (e : AddTransactionError) × (add_transaction spent transfer ≡ some (spent, err e))
unfolding contains
no_double_spend_example =
    no_double_spend fresh transfer spent [] fresh-IsCounted after_transfer transfer 60
      (inl (refl, refl))

account_chain_example :
    follow_up.inner.initial_state_commitment ≡ transfer.inner.final_state_commitment
unfolding admission
account_chain_example =
    account_chain fresh transfer spent [] fresh-IsCounted after_transfer follow_up
      (insert_transaction spent follow_up).0 (1 ∷ []) refl refl

revert-insert_transaction_example :
    (s' : InflightState) × (revert_transactions spent (1 ∷ []) ≡ some s')
    × SameContents fresh transfer s'
unfolding admission
revert-insert_transaction_example =
    revert-insert_transaction fresh transfer transfer-IsAdmissible refl tt

-- What a batch may hold.
abbrev small : BatchBudget
small = record { transactions = 2; accounts = 4; input_notes = 8; output_notes = 8 }
