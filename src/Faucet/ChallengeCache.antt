-- ===== src/Faucet/ChallengeCache.antt =====
-- The cache of submitted challenges, `ChallengeCache` of bin/faucet/src/server/pow.rs, with its
-- method names. The numbers are `usize` of 64 bits and `u64`; `none` is a panic, or the overflow of
-- a subtraction. A hash map is modelled by an ordered one: its order is not observed.
pub mod Counts
pub mod Counted
use miden_node.Prelude.{
  ℕ, ◌+◌, ◌-◌, ◌==◌, ◌&&◌, Bool, true, false, Option, none, some, List, [], ◌∷◌, ◌++◌, ltb,
  if◌then◌else◌, any, ◌>>=◌,
}
use Prim.Native.Nat.{◌^◌}
use miden_node.Collections.BTreeMap
use miden_node.Collections.BTreeMap.{BTreeMap, contains_key}
use miden_node.Collections.BTreeMap.Keys.{below, split_off}
use miden_node.Faucet.Challenge.{Challenge}

-- The account and the API key of each challenge of a timestamp.
abbrev pub Issuers : Type 0
Issuers = List (ℕ × ℕ)

pub record ChallengeCache : Type 0 where
  pub challenges : BTreeMap Issuers
  pub challenges_per_key : BTreeMap ℕ
  pub account_ids : BTreeMap ℕ

unfoldable pub default : ChallengeCache
default = record { challenges = []; challenges_per_key = []; account_ids = [] }

-- `unwrap_or_default`, of the issuers of a timestamp.
abbrev pub issuers_or_default : Option Issuers → Issuers
issuers_or_default none = []
issuers_or_default (some issuers) = issuers

-- `c.saturating_add(1)`
abbrev pub saturating_succ : ℕ → ℕ
saturating_succ c = if ltb c (2 ^ 64 - 1) then c + 1 else 2 ^ 64 - 1

-- `entry(k).and_modify(|c| *c = c.saturating_add(1)).or_insert(1)`
unfoldable pub increment : ℕ → BTreeMap ℕ → BTreeMap ℕ
increment k m = elim (BTreeMap.get k m) [
  | none ↦ BTreeMap.insert k 1 m
  | some c ↦ BTreeMap.insert k (saturating_succ c) m
]

-- The counter goes down, and is removed at 0; `none` if there is none.
unfoldable pub decrement : ℕ → BTreeMap ℕ → Option (BTreeMap ℕ)
decrement k m = elim (BTreeMap.get k m) [
  | none ↦ none
  | some c ↦ some (if c - 1 == 0 then BTreeMap.remove k m else BTreeMap.insert k (c - 1) m)
]

abbrev pub is_issuer : ℕ → ℕ → ℕ × ℕ → Bool
is_issuer account_id api_key issuer = issuer.0 == account_id && issuer.1 == api_key

unfoldable pub insert_challenge : ChallengeCache → Challenge → ChallengeCache × Bool
insert_challenge cache c =
    let issuers = issuers_or_default (BTreeMap.get c.timestamp cache.challenges) in
    if any (is_issuer c.account_id c.api_key) issuers
    then (record cache { challenges = BTreeMap.insert c.timestamp issuers cache.challenges }, false)
    else (
      record {
        challenges =
            BTreeMap.insert c.timestamp (issuers ++ (c.account_id, c.api_key) ∷ [])
              cache.challenges;
        challenges_per_key = increment c.api_key cache.challenges_per_key;
        account_ids = increment c.account_id cache.account_ids;
      },
      true,
    )

unfoldable pub has_challenge_for_account : ChallengeCache → ℕ → Bool
has_challenge_for_account cache account_id = contains_key account_id cache.account_ids

unfoldable pub num_challenges_for_api_key : ChallengeCache → ℕ → ℕ
num_challenges_for_api_key cache key = elim (BTreeMap.get key cache.challenges_per_key) [
  | none ↦ 0
  | some c ↦ c
]

-- The inner loop of `cleanup_expired_challenges`, on the counters of keys and of accounts.
unfoldable pub release_issuers :
    Issuers → BTreeMap ℕ × BTreeMap ℕ → Option (BTreeMap ℕ × BTreeMap ℕ)
release_issuers [] counters = some counters
release_issuers ((account_id, api_key) ∷ issuers) (per_key, accounts) = do
  per_key' ← decrement api_key per_key
  accounts' ← decrement account_id accounts
  release_issuers issuers (per_key', accounts')

-- The outer loop, over the expired challenges.
unfoldable pub release_all :
    BTreeMap Issuers → BTreeMap ℕ × BTreeMap ℕ → Option (BTreeMap ℕ × BTreeMap ℕ)
release_all [] counters = some counters
release_all ((_, issuers) ∷ expired) counters = do
  counters' ← release_issuers issuers counters
  release_all expired counters'

unfoldable pub cleanup_expired_challenges : ChallengeCache → ℕ → ℕ → Option ChallengeCache
cleanup_expired_challenges cache current_time challenge_lifetime =
    let limit = current_time - challenge_lifetime in
    if ltb current_time challenge_lifetime
    then none
    else elim (release_all (below limit cache.challenges)
        (cache.challenges_per_key, cache.account_ids)) [
          | none ↦ none
          | some (per_key, accounts) ↦ some (record {
            challenges = split_off limit cache.challenges;
            challenges_per_key = per_key;
            account_ids = accounts;
          })
        ]
