-- ===== src/Faucet/Tests.antt =====
-- A server with one challenge, and the theorems on it. The hash is the sum of the bytes, and a text is
-- its own hexadecimal text.
use miden_node.Prelude.{
  ℕ, ap, sym, ◌-◌, ◌≡◌, ◌<◌, refl, none, some, List, [], ◌∷◌, arith, length, ltb, if◌then◌else◌, ok,
  err, ◌==◌, sum_by,
}
use mathlib.Core.Path.{subst}
use Prim.Native.Nat.{◌^◌}
use miden_node.Collections.BTreeMap
use miden_node.Faucet.Bytes.{
  values, to_le_bytes, from_le_bytes, to_be_bytes, from_be_bytes, length-to_le_bytes,
  from_le_bytes-to_le_bytes, are_bytes-to_le_bytes,
}
use miden_node.Faucet.Challenge.{
  Encoding, IsEncoding, Challenge, MintRequestError, encode, encoded_bytes, decode, decode_bytes,
  new as new_challenge, compute_signature, validate_pow, is_expired,
}
use miden_node.Faucet.Challenge.RoundTrip.{decode-encode}
use miden_node.Faucet.ChallengeCache.{
  ChallengeCache, default, insert_challenge, cleanup_expired_challenges, increment, decrement,
  release_issuers, release_all, has_challenge_for_account,
}
use miden_node.Faucet.ChallengeCache.Counted.{
  IsCounted, default-IsCounted, insert_challenge-IsCounted, cleanup_expired_challenges-IsCounted,
}
use miden_node.Faucet.Pow.{Pow, PowConfig, submit_challenge, submit_decoded}
use miden_node.Faucet.Pow.Replay.{Run, here, next, wait, cleanup, no_replay}

abbrev toy : Encoding
toy = record {
  is_account_id = λ a. ltb a (values 15);
  sha3_256 = λ bs. to_le_bytes 32 (sum_by (λ b. b) bs);
  to_hex_with_prefix = λ bs. bs;
  hex_to_bytes = λ n text. if length text == n then some text else none;
  account_to_bytes = to_le_bytes 15;
  account_from_bytes = λ bs. some (from_le_bytes bs);
}

toy-IsEncoding : IsEncoding toy
toy-IsEncoding = record {
  hash_size = λ bs. length-to_le_bytes 32 (sum_by (λ b. b) bs);
  hash_bytes = λ bs. are_bytes-to_le_bytes 32 (sum_by (λ b. b) bs);
  hex = λ bs h. ground arith;
  account_size_eq = λ a h. length-to_le_bytes 15 a;
  account_bytes = λ a h. are_bytes-to_le_bytes 15 a;
  account = λ a h.
      let small : a < values 15 = ground arith in
      ground (arith, from_le_bytes-to_le_bytes 15 a small);
}

abbrev secret : List ℕ
secret = 1 ∷ 2 ∷ 3 ∷ []

abbrev config : PowConfig
config = record { challenge_lifetime = 30; growth_rate = 2; baseline = 0; cleanup_interval = 60 }

-- For account 7 and key 9, at time 50.
abbrev challenge : Challenge
challenge = new_challenge toy (2 ^ 64 - 1) 50 7 9 secret

abbrev text : List ℕ
text = encode toy challenge

decode-encode_example : decode toy text secret ≡ some (ok challenge)
decode-encode_example =
    decode-encode toy toy-IsEncoding secret (2 ^ 64 - 1) 50 7 9 refl (omega arith) (omega arith)
      (omega arith)

-- The cache with the challenge.
abbrev cached : ChallengeCache
cached = record {
  challenges = (50, (7, 9) ∷ []) ∷ [];
  challenges_per_key = (9, 1) ∷ [];
  account_ids = (7, 1) ∷ [];
}

-- All that a run computes with.
program : Unit {0}
unfolding insert_challenge increment decrement release_issuers release_all
    cleanup_expired_challenges has_challenge_for_account default BTreeMap.get BTreeMap.insert
    BTreeMap.remove
program = tt

cached-IsCounted : IsCounted cached
unfolding program new_challenge
cached-IsCounted =
    let (c, run, counted, _, _) =
      insert_challenge-IsCounted default default-IsCounted challenge (omega arith) refl in
    let same : cached ≡ c = ap (λ x. x.0) run in subst IsCounted (sym same) counted

cleanup_expired_challenges-IsCounted_example :
    (cache' : ChallengeCache) × (cleanup_expired_challenges cached 70 30 ≡ some cache')
    × IsCounted cache'
    × ((ts : ℕ)
        → BTreeMap.get ts cache'.challenges
          ≡ (if ltb ts (70 - 30) then none else BTreeMap.get ts cached.challenges))
cleanup_expired_challenges-IsCounted_example =
    cleanup_expired_challenges-IsCounted cached cached-IsCounted 70 30 (omega arith)

abbrev server : Pow
server = record { secret = secret; challenge_cache = default; config = config }

abbrev used : Pow
used = record server { challenge_cache = cached }

accepted : submit_challenge toy server 7 9 text 5 50 ≡ some (used, ok tt)
unfolding program submit_challenge submit_decoded decode decode_bytes encode encoded_bytes
    new_challenge compute_signature is_expired validate_pow to_le_bytes from_le_bytes to_be_bytes
    from_be_bytes
accepted = refl

-- The challenge is cleaned up at time 90.
abbrev cleaned : Pow
cleaned = record server {
  challenge_cache = record { challenges = []; challenges_per_key = []; account_ids = [] };
}

clean_up : Run toy (used, 50) (cleaned, 90)
unfolding program
clean_up = next (next here (wait 90 (omega arith))) (cleanup refl)

no_replay_example :
    (e : MintRequestError) × (submit_challenge toy cleaned 7 9 text 5 90 ≡ some (cleaned, err e))
unfolding default
no_replay_example =
    no_replay toy server used 50 7 9 5 text default-IsCounted (omega arith) accepted cleaned 90
      clean_up 7 9 5
