-- ===== src/NtxBuilder/Account.antt =====
-- A network account and its notes, crates/ntx-builder/src/state/account.rs, with the method names of
-- `AccountState`; also the account prefix of crates/proto/src/domain/account.rs. `none` is a panic.
pub mod Notes
pub mod Latest
use miden_node.Prelude.{
  ℕ, ◌≡◌, Bool, true, false, ◌&&◌, Option, none, some, List, [], ◌∷◌, ◌++◌, last?, is_empty,
  if◌then◌else◌, Result, ok, err, ◌==◌,
}
use Prim.Native.Nat.{◌^◌, ◌/◌, ◌%◌}
use miden_node.Collections.BTreeMap
use miden_node.Collections.BTreeMap.{BTreeMap}
use miden_node.NtxBuilder.Outside.{Outside}

pub data NetworkAccountError : Type 0 where
  not_network_account : ℕ → NetworkAccountError
  invalid_execution_mode : ℕ → NetworkAccountError
  invalid_prefix : ℕ → NetworkAccountError

-- `NetworkAccountPrefix::try_from`, of a `u32`.
unfoldable pub try_from_u32 : ℕ → Result ℕ NetworkAccountError
try_from_u32 value = if value / 2 ^ 30 == 0 then ok value else err (invalid_prefix value)

-- `VecDeque::pop_back`, without the element.
abbrev pub pop_back {ℓ} : {A : Type ℓ} → List A → Option (List A)
pop_back [] = none
pop_back (x ∷ xs) = elim (pop_back xs) [ none ↦ some [] | some ys ↦ some (x ∷ ys) ]

module _ (O : Outside) where
  -- `NetworkAccountPrefix::try_from`, of an account identifier: the first 30 bits of its prefix.
  unfoldable pub try_from_account_id : ℕ → Result ℕ NetworkAccountError
  try_from_account_id id =
      if O.is_network id
      then ok (O.prefix_as_u64 id / 2 ^ 34 % 2 ^ 32)
      else err (not_network_account id)

  pub record AccountState : Type 0 where
    pub committed : Option O.Account
    pub inflight : List O.Account
    pub available_notes : BTreeMap O.NetworkNote
    pub nullified_notes : BTreeMap O.NetworkNote

  unfoldable pub from_committed_account : O.Account → AccountState
  from_committed_account account = record {
    committed = some account;
    inflight = [];
    available_notes = [];
    nullified_notes = [];
  }

  unfoldable pub from_uncommitted_account : O.Account → AccountState
  from_uncommitted_account account = record {
    committed = none;
    inflight = account ∷ [];
    available_notes = [];
    nullified_notes = [];
  }

  unfoldable pub latest_account : AccountState → Option O.Account
  latest_account s = elim (last? s.inflight) [ none ↦ s.committed | some account ↦ some account ]

  unfoldable pub add_delta : O.AccountDelta → AccountState → Option AccountState
  add_delta delta s = elim (latest_account s) [
    | none ↦ none
    | some account ↦ elim (O.apply_delta account delta) [
      | none ↦ none
      | some state ↦ some (record s { inflight = s.inflight ++ state ∷ [] })
    ]
  ]

  unfoldable pub commit_delta : AccountState → Option AccountState
  commit_delta s = elim s.inflight [
    | [] ↦ none
    | account ∷ rest ↦ some (record s { committed = some account; inflight = rest })
  ]

  -- The Boolean says that the account's creation was reverted.
  unfoldable pub revert_delta : AccountState → Option (AccountState × Bool)
  revert_delta s = elim (pop_back s.inflight) [
    | none ↦ none
    | some rest ↦
        some
          (record s { inflight = rest }, elim s.committed [ none ↦ is_empty rest | some _ ↦ false ])
  ]

  unfoldable pub add_note : O.NetworkNote → AccountState → AccountState
  add_note note s = record s {
    available_notes = BTreeMap.insert (O.nullifier note) note s.available_notes;
  }

  unfoldable pub revert_note : ℕ → AccountState → AccountState
  revert_note note s = record s {
    available_notes = BTreeMap.remove note s.available_notes;
    nullified_notes = BTreeMap.remove note s.nullified_notes;
  }

  unfoldable pub add_nullifier : ℕ → AccountState → Option AccountState
  add_nullifier nullifier s = elim (BTreeMap.get nullifier s.available_notes) [
    | none ↦ none
    | some note ↦ some (record s {
      available_notes = BTreeMap.remove nullifier s.available_notes;
      nullified_notes = BTreeMap.insert nullifier note s.nullified_notes;
    })
  ]

  unfoldable pub commit_nullifier : ℕ → AccountState → Option AccountState
  commit_nullifier nullifier s = elim (BTreeMap.get nullifier s.nullified_notes) [
    | none ↦ none
    | some _ ↦ some (record s { nullified_notes = BTreeMap.remove nullifier s.nullified_notes })
  ]

  unfoldable pub revert_nullifier : ℕ → AccountState → AccountState
  revert_nullifier nullifier s = elim (BTreeMap.get nullifier s.nullified_notes) [
    | none ↦ s
    | some note ↦ record s {
      available_notes = BTreeMap.insert nullifier note s.available_notes;
      nullified_notes = BTreeMap.remove nullifier s.nullified_notes;
    }
  ]

  unfoldable pub notes : AccountState → List O.NetworkNote
  notes s = BTreeMap.values s.available_notes

  unfoldable pub account_state_is_empty : AccountState → Bool
  account_state_is_empty s =
      is_empty s.inflight && is_empty s.available_notes && is_empty s.nullified_notes

  -- `AccountUpdateDetails` of miden_objects.
  pub data AccountUpdateDetails : Type 0 where
    private_update : AccountUpdateDetails
    new_account : O.Account → AccountUpdateDetails
    delta_update : O.AccountDelta → AccountUpdateDetails

  pub data NetworkAccountUpdate : Type 0 where
    new : O.Account → NetworkAccountUpdate
    delta : O.AccountDelta → NetworkAccountUpdate

  unfoldable pub update_account_id : NetworkAccountUpdate → ℕ
  update_account_id (new account) = O.id account
  update_account_id (delta d) = O.delta_id d

  unfoldable pub from_protocol : AccountUpdateDetails → Option NetworkAccountUpdate
  from_protocol private_update = none
  from_protocol (new_account account) =
      if O.is_network (O.id account) then some (new account) else none
  from_protocol (delta_update d) = if O.is_network (O.delta_id d) then some (delta d) else none

  unfoldable pub prefix : NetworkAccountUpdate → Option ℕ
  prefix update = elim (try_from_account_id (update_account_id update)) [
    | ok p ↦ some p
    | err e ↦ none
  ]
