-- ===== src/Store/Tests.antt =====
-- `State::apply_block` of crates/store/src/state.rs on a concrete chain.
use miden_node.Prelude.{
  ℕ, zero, suc, ◌≡◌, ◌≢◌, refl, none, some, List, [], ◌∷◌, ◌++◌, arith, ok, Result, true,
  length-append, ◌+◌, length, Option, ◌==◌, if◌then◌else◌,
}
use miden_node.Store.Outside.{Outside, Tree, IsTree}
use miden_node.Store.Block.{
  BlockHeader, ProvenBlock, ApplyBlockError, full, new_block_invalid_chain_commitment,
}
use miden_node.Store.Database.{
  upsert_accounts, select_block_header, write_block, insert_block_header,
  insert_nullifiers_for_block, insert_nullifiers,
}
use miden_node.Store.State.{
  Faults, State, apply_block, load_inner, latest_block_num, check_header, save_block, apply_saved,
  compute_updates, note_records, write, update_inner, await_save, load_block, finish_save,
}
use miden_node.Store.State.Consistent.{IsOutside, IsConsistent}
use miden_node.Store.State.Apply.{Outcome, apply_block-IsConsistent}
use miden_node.Store.State.LateSave.{late_save}
use miden_node.Store.State.Limit.{apply_block-limit}
use miden_node.Collections.BTreeMap

abbrev lookup : List (ℕ × ℕ) → ℕ → Option ℕ
lookup [] k = none
lookup ((i, v) ∷ rest) k = if k == i then some v else lookup rest k

-- A tree is its entries, an update the entries after it, and a root their number.
abbrev toy_tree : (List (ℕ × ℕ) → List (ℕ × ℕ) → List (ℕ × ℕ)) → Tree
toy_tree extend = record {
  Repr = List (ℕ × ℕ);
  Update = List (ℕ × ℕ);
  with_entries = λ entries. ok entries;
  get = lookup;
  root = λ t. length t;
  compute_mutations = λ t new. ok (extend t new);
  update_root = λ u. length u;
  apply_mutations = λ u t. ok u;
}

toy_tree-IsTree :
    (extend : List (ℕ × ℕ) → List (ℕ × ℕ) → List (ℕ × ℕ)) → IsTree (toy_tree extend) extend
toy_tree-IsTree extend = record {
  applies = λ entries new t u made computed. (u, refl, refl, cc (made, computed));
}

abbrev toy : Outside
toy = record {
  nullifiers = toy_tree (λ entries new. entries ++ new);
  accounts = toy_tree upsert_accounts;
  Mmr = List ℕ;
  mmr_of = λ xs. xs;
  hash_peaks = λ xs. length xs;
  push = λ x xs. xs ++ x ∷ [];
  chain_tip = λ xs. elim xs [ [] ↦ none | _ ∷ more ↦ some (length more) ];
  Note = ℕ;
  Body = ℕ;
}

toy_tip :
    (xs : List ℕ) (x n : ℕ)
    → toy.chain_tip xs ≡ some n
    → toy.chain_tip (xs ++ x ∷ []) ≡ some (n + 1)
toy_tip [] x n e = absurd (ground (arith, e))
toy_tip (y ∷ xs) x n e = ground (arith, e, length-append xs (x ∷ []))

toy-IsOutside : IsOutside toy
toy-IsOutside = record {
  nullifiers = toy_tree-IsTree (λ entries new. entries ++ new);
  accounts = toy_tree-IsTree upsert_accounts;
  chain = λ xs x. refl;
  tip = λ xs x n e. toy_tip xs x n e;
}

abbrev genesis : BlockHeader
genesis = record {
  block_num = 0;
  prev_block_commitment = 0;
  chain_commitment = 0;
  tx_commitment = 0;
  nullifier_root = 0;
  account_root = 1;
  note_root = 0;
  commitment = 100;
}

abbrev state : State toy
state = record {
  db = record {
    block_headers = genesis ∷ [];
    accounts = (3, 30) ∷ [];
    nullifiers = [];
    others = [];
  };
  block_store = [];
  saves = [];
  inner = record { nullifier_tree = []; blockchain = 100 ∷ []; account_tree = (3, 30) ∷ [] };
}

-- Block 1, which consumes the note of nullifier 5 and updates account 3.
abbrev block : ProvenBlock toy
block = record {
  header = record {
    block_num = 1;
    prev_block_commitment = 100;
    chain_commitment = 1;
    tx_commitment = 7;
    nullifier_root = 1;
    account_root = 1;
    note_root = 8;
    commitment = 101;
  };
  commitment = 101;
  tx_commitment = 7;
  created_nullifiers = 5 ∷ [];
  updated_accounts = (3, 31) ∷ [];
  note_root = 8;
  output_notes = full 40 ∷ [];
  bytes = 11;
  body = 12;
}

abbrev no_faults : Faults
no_faults = record { select = none; save = none; write = none; commit = none }

genesis_tip :
    (l : BlockHeader) → some genesis ≡ some l → latest_block_num toy state.inner ≡ some l.block_num
unfolding latest_block_num
genesis_tip l e = let same : l ≡ genesis = ground (arith, e) in ground (arith, same)

apply_block-IsConsistent_example :
    (s' : State toy) × (r : Result (Unit {0}) (ApplyBlockError toy)) × (apply_block toy no_faults
        block state
      ≡ some (s', r))
    × IsConsistent toy s'
    × Outcome toy toy-IsOutside block state (s', r)
unfolding load_inner
apply_block-IsConsistent_example =
    apply_block-IsConsistent toy toy-IsOutside no_faults block state refl
      (record { loaded = refl; chain = tt; distinct = tt; tip = λ l e. genesis_tip l e })

abbrev nullifiers_below : ℕ → List ℕ
nullifiers_below zero = []
nullifiers_below (suc n) = n ∷ nullifiers_below n

apply_block-limit_example :
    apply_block toy no_faults (record block { created_nullifiers = nullifiers_below 1001 }) state
    ≢ some (state, ok tt)
apply_block-limit_example =
    apply_block-limit toy no_faults (record block { created_nullifiers = nullifiers_below 1001 })
      state state (omega arith)

-- The block is applied.
apply_block-block : (s' : State toy) × (apply_block toy no_faults block state ≡ some (s', ok tt))
unfolding apply_block check_header select_block_header save_block apply_saved compute_updates
    note_records write write_block insert_block_header insert_nullifiers_for_block insert_nullifiers
    upsert_accounts update_inner await_save BTreeMap.insert
apply_block-block = (
  record state {
    db = record {
      block_headers = genesis ∷ block.header ∷ [];
      accounts = (3, 31) ∷ [];
      nullifiers = (5, 1) ∷ [];
      others = (12, (40, true) ∷ []) ∷ [];
    };
    block_store = (1, 11) ∷ [];
    saves = [];
    inner = record {
      nullifier_tree = (5, 1) ∷ [];
      blockchain = 100 ∷ 101 ∷ [];
      account_tree = (3, 31) ∷ [];
    };
  },
  refl,
)

-- Block 1 with another chain, and what is left when it is refused and then the block applied.
abbrev stray : ProvenBlock toy
stray = record block { header = record (block.header) { chain_commitment = 9 }; bytes = 99 }

abbrev refused_state : State toy
refused_state = record state { saves = (1, 99) ∷ [] }

abbrev applied_state : State toy
applied_state = record refused_state {
  db = record {
    block_headers = genesis ∷ block.header ∷ [];
    accounts = (3, 31) ∷ [];
    nullifiers = (5, 1) ∷ [];
    others = (12, (40, true) ∷ []) ∷ [];
  };
  block_store = (1, 11) ∷ [];
  inner = record {
    nullifier_tree = (5, 1) ∷ [];
    blockchain = 100 ∷ 101 ∷ [];
    account_tree = (3, 31) ∷ [];
  };
}

late_save_example :
    (stray.header.block_num ≡ block.header.block_num)
    × (load_block toy 1 applied_state ≡ some (some 11))
    × (load_block toy 1 (finish_save toy 0 applied_state) ≡ some (some 99))
unfolding load_inner apply_block check_header select_block_header save_block apply_saved
    compute_updates note_records write write_block insert_block_header insert_nullifiers_for_block
    insert_nullifiers upsert_accounts update_inner await_save BTreeMap.insert
late_save_example =
    late_save toy toy-IsOutside no_faults no_faults stray block state refused_state applied_state
      new_block_invalid_chain_commitment
      (record { loaded = refl; chain = tt; distinct = tt; tip = genesis_tip }) refl refl refl refl
      refl
