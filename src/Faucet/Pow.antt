-- ===== src/Faucet/Pow.antt =====
-- The proof of work of bin/faucet/src/server/pow.rs, with the method names of `PoW`. The clock is an
-- argument. `none` is a panic, or the overflow of a subtraction or of a shift.
pub mod Target
pub mod Replay
use miden_node.Prelude.{
  ℕ, ◌+◌, ◌-◌, ◌*◌, ◌==◌, ◌&&◌, not, Bool, Option, none, some, List, ltb, leb, if◌then◌else◌,
  Result, ok, err,
}
use Prim.Native.Nat.{◌^◌, ◌/◌, ◌%◌}
use miden_node.Faucet.Bytes.{to_le_bytes}
use miden_node.Faucet.Challenge.{
  Challenge, Encoding, MintRequestError, invalid_pow, expired_server_timestamp, rate_limited,
  challenge_already_used, decode, is_expired, validate_pow, new as new_challenge,
}
use miden_node.Faucet.ChallengeCache
use miden_node.Faucet.ChallengeCache.{
  ChallengeCache, has_challenge_for_account, insert_challenge, num_challenges_for_api_key,
}

-- The lifetime is in seconds.
pub record PowConfig : Type 0 where
  pub challenge_lifetime : ℕ
  pub growth_rate : ℕ
  pub baseline : ℕ
  pub cleanup_interval : ℕ

pub record Pow : Type 0 where
  pub secret : List ℕ
  pub challenge_cache : ChallengeCache
  pub config : PowConfig

unfoldable pub new : List ℕ → PowConfig → Pow
new secret config = record {
  secret = secret;
  challenge_cache = ChallengeCache.default;
  config = config;
}

-- `usize::max(num_challenges << growth_rate, 1)`: the shift drops the bits above the 64th.
unfoldable pub difficulty : ℕ → ℕ → ℕ
difficulty num_challenges growth_rate =
    let shifted = num_challenges * 2 ^ growth_rate % 2 ^ 64 in if leb shifted 1 then 1 else shifted

-- `(u64::MAX >> baseline) / difficulty`, of a number of challenges.
unfoldable pub target_for : PowConfig → ℕ → Option ℕ
target_for config num_challenges =
    if ltb config.baseline 64 && ltb config.growth_rate 64
    then some ((2 ^ 64 - 1) / 2 ^ config.baseline / difficulty num_challenges config.growth_rate)
    else none

unfoldable pub get_challenge_target : Pow → ℕ → Option ℕ
get_challenge_target pow api_key =
    target_for pow.config (num_challenges_for_api_key pow.challenge_cache api_key)

module _ (E : Encoding) where
  -- `build_challenge`, at the current time.
  unfoldable pub build_challenge : Pow → ℕ → ℕ → ℕ → Option Challenge
  build_challenge pow current_time account_id api_key = elim (get_challenge_target pow api_key) [
    | none ↦ none
    | some target ↦ some (new_challenge E target current_time account_id api_key pow.secret)
  ]

  -- `submit_challenge`, of a decoded challenge.
  unfoldable pub submit_decoded :
      Pow → Challenge → ℕ → ℕ → ℕ → ℕ → Pow × Result (Unit {0}) MintRequestError
  submit_decoded pow challenge account_id api_key nonce current_time =
      let (cache, inserted) = insert_challenge pow.challenge_cache challenge in
      if is_expired challenge current_time pow.config.challenge_lifetime
      then (pow, err (expired_server_timestamp challenge.timestamp current_time))
      else if not (
          validate_pow E challenge nonce
          && (account_id == challenge.account_id && api_key == challenge.api_key))
      then (pow, err invalid_pow)
      else if has_challenge_for_account pow.challenge_cache account_id
      then (pow, err rate_limited)
      else (
        record pow { challenge_cache = cache },
        if inserted then ok tt else err challenge_already_used,
      )

  unfoldable pub submit_challenge :
      Pow → ℕ → ℕ → List ℕ → ℕ → ℕ → Option (Pow × Result (Unit {0}) MintRequestError)
  submit_challenge pow account_id api_key challenge nonce current_time =
      elim (decode E challenge pow.secret) [
        | none ↦ none
        | some (err e) ↦ some (pow, err e)
        | some (ok c) ↦ some (submit_decoded pow c account_id api_key nonce current_time)
      ]
