-- ===== src/Faucet/Challenge/RoundTrip.antt =====
-- `Challenge::encode` and `Challenge::decode`.
use miden_node.Prelude.{
  ℕ, ◌<◌, ◌≡◌, ◌∙◌, refl, ap, some, List, [], ◌∷◌, ◌++◌, arith, length, take, drop, ok,
  take-append_eq, drop-append_eq, take_all, length-append, true, Bool-cases, inl, inr, Option-cases,
  all-append,
}
use Prim.Native.Nat.{◌^◌}
use miden_node.Faucet.Bytes.{
  to_le_bytes, from_le_bytes, length-to_le_bytes, from_le_bytes-to_le_bytes, are_bytes-to_le_bytes,
}
use miden_node.Faucet.Challenge.{
  Encoding, IsEncoding, Challenge, bytes_eq, compute_signature, new, encoded_bytes, encode,
  decode_bytes, decode, challenge_encoded_size, are_bytes,
}

bytes_eq_refl : (bs : List ℕ) → bytes_eq bs bs ≡ true
bytes_eq_refl [] = refl
bytes_eq_refl (b ∷ bs) = ground (arith, bytes_eq_refl bs)

bytes_eq_sound : (bs cs : List ℕ) → bytes_eq bs cs ≡ true → bs ≡ cs
bytes_eq_sound [] [] h = refl
bytes_eq_sound [] (c ∷ cs) h = cc
bytes_eq_sound (b ∷ bs) [] h = cc
bytes_eq_sound (b ∷ bs) (c ∷ cs) h = ground (arith, bytes_eq_sound bs cs)

-- `decode` on bytes with the given parts, the last of which is their signature.
decode_bytes_lem :
    (E : Encoding) (bytes secret : List ℕ) (target timestamp account api_key : ℕ) (key : List ℕ)
    → from_le_bytes (take 8 bytes) ≡ target
    → from_le_bytes (take 8 (drop 8 bytes)) ≡ timestamp
    → E.account_from_bytes (take 15 (drop 16 bytes)) ≡ some account
    → take 32 (drop 31 bytes) ≡ key
    → from_le_bytes key ≡ api_key
    → take 32 (drop 63 bytes) ≡ compute_signature E secret target timestamp account key
    → decode_bytes E bytes secret
      ≡ some (
          ok (record {
            target = target;
            timestamp = timestamp;
            account_id = account;
            api_key = api_key;
            signature = compute_signature E secret target timestamp account key;
          }))
unfolding decode_bytes
decode_bytes_lem E bytes secret target timestamp account api_key key t s a k i g =
    let signature = compute_signature E secret target timestamp account key in
    rw (a, decode_bytes) (ground (arith, t, s, k, i, g, bytes_eq_refl signature))

module _ (E : Encoding) (law : IsEncoding E) (secret : List ℕ)
    (target timestamp account api_key : ℕ) (valid : E.is_account_id account ≡ true) where
  abbrev challenge : Challenge
  challenge = new E target timestamp account api_key secret

  abbrev bytes : List ℕ
  bytes = encoded_bytes E challenge

  signature_size : length challenge.signature ≡ 32
  unfolding new compute_signature
  signature_size = law.hash_size _

  -- The parts of the encoding.
  parts :
      (take 8 bytes ≡ to_le_bytes 8 target)
      × (take 8 (drop 8 bytes) ≡ to_le_bytes 8 timestamp)
      × (take 15 (drop 16 bytes) ≡ E.account_to_bytes account)
      × (take 32 (drop 31 bytes) ≡ to_le_bytes 32 api_key)
      × (take 32 (drop 63 bytes) ≡ challenge.signature)
  unfolding encoded_bytes new
  parts =
      let t = to_le_bytes 8 target in
      let s = to_le_bytes 8 timestamp in
      let a = E.account_to_bytes account in
      let k = to_le_bytes 32 api_key in
      let g = challenge.signature in
      let lt = length-to_le_bytes 8 target in
      let ls = length-to_le_bytes 8 timestamp in
      let la = law.account_size_eq account valid in
      let lk = length-to_le_bytes 32 api_key in
      let d1 = λ (m : ℕ). drop-append_eq 8 m t (s ++ (a ++ (k ++ g))) lt in
      let d2 = λ (m : ℕ). drop-append_eq 8 m s (a ++ (k ++ g)) ls in
      let d3 = λ (m : ℕ). drop-append_eq 15 m a (k ++ g) la in
      let d4 = λ (m : ℕ). drop-append_eq 32 m k g lk in
      (
        take-append_eq 8 t (s ++ (a ++ (k ++ g))) lt,
        ap (take 8) (d1 0) ∙ take-append_eq 8 s (a ++ (k ++ g)) ls,
        ap (take 15) (d1 8 ∙ d2 0) ∙ take-append_eq 15 a (k ++ g) la,
        ap (take 32) (d1 23 ∙ d2 15 ∙ d3 0) ∙ take-append_eq 32 k g lk,
        ap (take 32) (d1 55 ∙ d2 47 ∙ d3 32 ∙ d4 0) ∙ take_all 32 g signature_size,
      )

  length-bytes : length bytes ≡ challenge_encoded_size
  unfolding encoded_bytes new
  length-bytes = omega (
    arith,
    length-append (to_le_bytes 8 target) (
        to_le_bytes 8 timestamp
        ++ (E.account_to_bytes account ++ (to_le_bytes 32 api_key ++ challenge.signature))),
    length-append (to_le_bytes 8 timestamp)
        (E.account_to_bytes account ++ (to_le_bytes 32 api_key ++ challenge.signature)),
    length-append (E.account_to_bytes account) (to_le_bytes 32 api_key ++ challenge.signature),
    length-append (to_le_bytes 32 api_key) challenge.signature,
    length-to_le_bytes 8 target,
    length-to_le_bytes 8 timestamp,
    length-to_le_bytes 32 api_key,
    law.account_size_eq account valid,
    signature_size,
  )

  encoded_bytes-are_bytes : are_bytes bytes ≡ true
  unfolding encoded_bytes new compute_signature
  encoded_bytes-are_bytes =
      let t = to_le_bytes 8 target in
      let s = to_le_bytes 8 timestamp in
      let a = E.account_to_bytes account in
      let k = to_le_bytes 32 api_key in
      let g = challenge.signature in
      simp (
        all-append,
        are_bytes-to_le_bytes 8 target,
        are_bytes-to_le_bytes 8 timestamp,
        law.account_bytes account valid,
        are_bytes-to_le_bytes 32 api_key,
        law.hash_bytes,
      )

  decode_bytes-encoded :
      target < 2 ^ 64
      → timestamp < 2 ^ 64
      → api_key < 2 ^ 256
      → decode_bytes E bytes secret ≡ some (ok challenge)
  unfolding new
  decode_bytes-encoded ht hs hk =
      let (pt, ps, pa, pk, pg) = parts in
      decode_bytes_lem E bytes secret target timestamp account api_key (to_le_bytes 32 api_key)
        (ap from_le_bytes pt ∙ from_le_bytes-to_le_bytes 8 target ht)
        (ap from_le_bytes ps ∙ from_le_bytes-to_le_bytes 8 timestamp hs)
        (ap E.account_from_bytes pa ∙ law.account account valid) pk
        (from_le_bytes-to_le_bytes 32 api_key hk) pg

  -- With 64-bit numbers, a valid account and a key of 32 bytes, a challenge that the server makes is
  -- decoded with its secret from what it is encoded to.
  pub decode-encode :
      target < 2 ^ 64
      → timestamp < 2 ^ 64
      → api_key < 2 ^ 256
      → decode E (encode E challenge) secret ≡ some (ok challenge)
  unfolding decode encode
  decode-encode ht hs hk =
      let read : E.hex_to_bytes challenge_encoded_size (E.to_hex_with_prefix bytes) ≡ some bytes =
        rw (← length-bytes) (law.hex bytes encoded_bytes-are_bytes) in
      rw (read, decode) (decode_bytes-encoded ht hs hk)

-- A text that is accepted carries the signature that the secret gives for the rest of it.
pub decode-signed :
    (E : Encoding) (value secret : List ℕ) (c : Challenge)
    → decode E value secret ≡ some (ok c)
    → (key : List ℕ) × (c.api_key ≡ from_le_bytes key)
      × (c.signature ≡ compute_signature E secret c.target c.timestamp c.account_id key)
unfolding decode decode_bytes
decode-signed E value secret c h =
    elim (Option-cases (E.hex_to_bytes challenge_encoded_size value)) [
      | inl e ↦ absurd (ground arith)
      | inr (bytes, e) ↦ elim (Option-cases (E.account_from_bytes (take 15 (drop 16 bytes)))) [
        | inl e' ↦ absurd (ground arith)
        | inr (account, e') ↦
            let key = take 32 (drop 31 bytes) in
            let expected =
              compute_signature E secret (from_le_bytes (take 8 bytes))
                (from_le_bytes (take 8 (drop 8 bytes))) account key in
            let sound = bytes_eq_sound (take 32 (drop 63 bytes)) expected in
            elim (Bool-cases (bytes_eq (take 32 (drop 63 bytes)) expected)) [
              | inl same ↦ (key, ground arith, ground (arith, sound))
              | inr other ↦ absurd (ground arith)
            ]
      ]
    ]
