-- ===== src/BlockProducer/Account.antt =====
-- The inflight state of one account, crates/block-producer/src/mempool/inflight_state/
-- account_state.rs. A method that can panic returns an `Option`, where `none` is the panic.
pub mod Segments
use miden_node.Prelude.{
  ℕ, zero, suc, ◌+◌, ◌-◌, ◌≡◌, Bool, true, false, not, Option, none, some, List, [], ◌∷◌, ◌++◌,
  if◌then◌else◌, is_empty, length, ltb, leb, ◌==◌, take, drop, last?,
}
use mathlib.Core.Option

pub record InflightAccountState : Type 0 where
  -- A commitment and the transaction that leads to it, oldest first.
  pub states : List (ℕ × ℕ)
  pub committed : ℕ

unfoldable pub default : InflightAccountState
default = record { states = []; committed = 0 }

pub data AccountStatus : Type 0 where
  empty non_empty : AccountStatus

-- `AccountStatus::is_empty`
abbrev pub status_is_empty : AccountStatus → Bool
status_is_empty empty = true
status_is_empty non_empty = false

abbrev pub emptiness : InflightAccountState → AccountStatus
emptiness a = if is_empty a.states then empty else non_empty

-- `usize` subtraction: exact in a state that keeps `committed ≤ len`, which `IsValid` says.
abbrev pub uncommitted_count : InflightAccountState → ℕ
uncommitted_count a = length a.states - a.committed

unfoldable pub insert : InflightAccountState → ℕ → ℕ → InflightAccountState × Option ℕ
insert a state tx =
    let parent : Option ℕ = Option.map (λ e. e.1) (last? a.states) in
    (
      record a { states = a.states ++ (state, tx) ∷ [] },
      if uncommitted_count a == 0 then none else parent,
    )

unfoldable pub current_state : InflightAccountState → Option ℕ
current_state a = Option.map (λ e. e.0) (last? a.states)

unfoldable pub revert : InflightAccountState → ℕ → Option (InflightAccountState × AccountStatus)
revert a n =
    let a' = record a { states = take (length a.states - n) a.states } in
    if leb n (uncommitted_count a) then some (a', emptiness a') else none

unfoldable pub commit : InflightAccountState → ℕ → Option InflightAccountState
commit a n =
    if leb n (uncommitted_count a) then some (record a { committed = a.committed + n }) else none

unfoldable pub prune_committed :
    InflightAccountState → ℕ → Option (InflightAccountState × AccountStatus)
prune_committed a n =
    let a' = record a { committed = a.committed - n; states = drop n a.states } in
    if leb n a.committed then some (a', emptiness a') else none
