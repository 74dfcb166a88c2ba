-- ===== src/Faucet/Challenge.antt =====
-- The challenge of bin/faucet/src/server/challenge.rs. An API key is a number of 32 bytes, an
-- account identifier a number with the serialization of its crate, and a text the list of its bytes.
pub mod RoundTrip
use miden_node.Prelude.{
  ℕ, ◌-◌, ◌≡◌, Bool, Option, none, some, List, [], ◌∷◌, ◌++◌, length, take, drop, ltb,
  if◌then◌else◌, Result, ok, err, ◌==◌, ◌&&◌, true, false, all,
}
use Prim.Native.Nat.{◌^◌}
use miden_node.Faucet.Bytes.{to_le_bytes, to_be_bytes, from_le_bytes, from_be_bytes}

pub data MintRequestError : Type 0 where
  account_id : MintRequestError
  asset_amount : ℕ → MintRequestError
  invalid_api_key : List ℕ → MintRequestError
  invalid_pow : MintRequestError
  missing_pow_parameters : MintRequestError
  server_signatures_do_not_match : MintRequestError
  expired_server_timestamp : ℕ → ℕ → MintRequestError
  challenge_already_used : MintRequestError
  rate_limited : MintRequestError

-- `AccountId::SERIALIZED_SIZE`
abbrev pub account_size : ℕ
account_size = 15

abbrev pub challenge_encoded_size : ℕ
challenge_encoded_size = 95

-- What other crates give: the hash, the hex text of bytes, and the serialization of the accounts,
-- which are the numbers that `is_account_id` accepts. `hex_to_bytes n` reads a text of `n` bytes.
pub record Encoding : Type 0 where
  pub is_account_id : ℕ → Bool
  pub sha3_256 : List ℕ → List ℕ
  pub to_hex_with_prefix : List ℕ → List ℕ
  pub hex_to_bytes : ℕ → List ℕ → Option (List ℕ)
  pub account_to_bytes : ℕ → List ℕ
  pub account_from_bytes : List ℕ → Option ℕ

-- A list of bytes.
abbrev pub are_bytes : List ℕ → Bool
are_bytes = all (λ b. ltb b 256)

-- The documented behaviour of these: the hash is of 32 bytes, an account of 15, and what was written
-- is read back.
pub record IsEncoding (E : Encoding) : Type 0 where
  pub hash_size : (bs : List ℕ) → length (E.sha3_256 bs) ≡ 32
  pub hash_bytes : (bs : List ℕ) → are_bytes (E.sha3_256 bs) ≡ true
  pub hex :
      (bs : List ℕ)
      → are_bytes bs ≡ true
      → E.hex_to_bytes (length bs) (E.to_hex_with_prefix bs) ≡ some bs
  pub account_size_eq :
      (a : ℕ) → E.is_account_id a ≡ true → length (E.account_to_bytes a) ≡ account_size
  pub account_bytes : (a : ℕ) → E.is_account_id a ≡ true → are_bytes (E.account_to_bytes a) ≡ true
  pub account :
      (a : ℕ) → E.is_account_id a ≡ true → E.account_from_bytes (E.account_to_bytes a) ≡ some a

pub record Challenge : Type 0 where
  pub target : ℕ
  pub timestamp : ℕ
  pub account_id : ℕ
  pub api_key : ℕ
  pub signature : List ℕ

-- Equality of byte strings.
abbrev pub bytes_eq : List ℕ → List ℕ → Bool
bytes_eq [] [] = true
bytes_eq [] (c ∷ cs) = false
bytes_eq (b ∷ bs) [] = false
bytes_eq (b ∷ bs) (c ∷ cs) = b == c && bytes_eq bs cs

-- `checked_sub(..).unwrap_or(u64::MAX)` against the lifetime.
unfoldable pub is_expired : Challenge → ℕ → ℕ → Bool
is_expired c current_time challenge_lifetime =
    let diff = if ltb current_time c.timestamp then 2 ^ 64 - 1 else current_time - c.timestamp in
    ltb challenge_lifetime diff

module _ (E : Encoding) where
  unfoldable pub compute_signature : List ℕ → ℕ → ℕ → ℕ → List ℕ → List ℕ
  compute_signature secret target timestamp account api_key = E.sha3_256 (
      secret
      ++ (to_le_bytes 8 target
          ++ (to_le_bytes 8 timestamp ++ (E.account_to_bytes account ++ api_key))))

  unfoldable pub new : ℕ → ℕ → ℕ → ℕ → List ℕ → Challenge
  new target timestamp account api_key secret = record {
    target = target;
    timestamp = timestamp;
    account_id = account;
    api_key = api_key;
    signature = compute_signature secret target timestamp account (to_le_bytes 32 api_key);
  }

  -- The bytes of `encode`.
  unfoldable pub encoded_bytes : Challenge → List ℕ
  encoded_bytes c =
      to_le_bytes 8 c.target
      ++ (to_le_bytes 8 c.timestamp
          ++ (E.account_to_bytes c.account_id ++ (to_le_bytes 32 c.api_key ++ c.signature)))

  unfoldable pub encode : Challenge → List ℕ
  encode c = E.to_hex_with_prefix (encoded_bytes c)

  -- `decode`, on the bytes. `none` is the panic on bytes that are no account.
  unfoldable pub decode_bytes : List ℕ → List ℕ → Option (Result Challenge MintRequestError)
  decode_bytes bytes secret =
      let target = from_le_bytes (take 8 bytes) in
      let timestamp = from_le_bytes (take 8 (drop 8 bytes)) in
      let api_key_bytes = take 32 (drop 31 bytes) in
      let signature = take 32 (drop 63 bytes) in
      elim (E.account_from_bytes (take 15 (drop 16 bytes))) [
        | none ↦ none
        | some account ↦ some (
            if bytes_eq signature (compute_signature secret target timestamp account api_key_bytes)
            then ok (record {
              target = target;
              timestamp = timestamp;
              account_id = account;
              api_key = from_le_bytes api_key_bytes;
              signature = signature;
            })
            else err server_signatures_do_not_match)
      ]

  unfoldable pub decode : List ℕ → List ℕ → Option (Result Challenge MintRequestError)
  decode value secret = elim (E.hex_to_bytes challenge_encoded_size value) [
    | none ↦ some (err missing_pow_parameters)
    | some bytes ↦ decode_bytes bytes secret
  ]

  unfoldable pub validate_pow : Challenge → ℕ → Bool
  validate_pow c nonce =
      let hash = E.sha3_256 (encode c ++ to_be_bytes 8 nonce) in
      ltb (from_be_bytes (take 8 hash)) c.target
