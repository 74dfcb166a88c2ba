-- ===== src/NtxBuilder/Outside.antt =====
-- What the network transaction builder takes from other crates: accounts, their deltas and network
-- notes. An identifier, a nullifier and an account prefix are numbers.
use miden_node.Prelude.{ℕ, Bool, Option}

pub record Outside : Type 1 where
  pub Account : Type 0
  pub AccountDelta : Type 0
  pub id : Account → ℕ
  pub delta_id : AccountDelta → ℕ
  -- `AccountId::is_network`
  pub is_network : ℕ → Bool
  -- `id.prefix().as_u64()`
  pub prefix_as_u64 : ℕ → ℕ
  -- `Account::apply_delta`; `none` is its error.
  pub apply_delta : Account → AccountDelta → Option Account
  pub NetworkNote : Type 0
  pub nullifier : NetworkNote → ℕ
  -- The prefix that the tag of a network note holds.
  pub account_prefix : NetworkNote → ℕ
