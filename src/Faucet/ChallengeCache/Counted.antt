-- ===== src/Faucet/ChallengeCache/Counted.antt =====
-- The counters of the cache beside its challenges, under insertion and clean-up.
use miden_node.Prelude.{
  ℕ, ◌+◌, ◌-◌, ◌<◌, ◌≤◌, ◌≡◌, refl, sym, Bool, true, false, none, some, [], ◌∷◌, ◌++◌, ltb,
  if◌then◌else◌, arith, count, any, length, count-le-length, Bool-cases, inl, inr, ◌||◌,
}
use mathlib.Core.Path.{subst}
use Prim.Native.Nat.{◌^◌}
use miden_node.Collections.BTreeSet
use miden_node.Collections.BTreeSet.{IsAscending}
use miden_node.Collections.BTreeMap
use miden_node.Collections.BTreeMap.{BTreeMap, contains_key}
use miden_node.Collections.BTreeMap.Keys.{
  keys-insert, below, split_off, get-split_off, split_off-IsAscending,
}
use miden_node.Faucet.Challenge.{Challenge}
use miden_node.Faucet.ChallengeCache.{
  ChallengeCache, default, insert_challenge, cleanup_expired_challenges, has_challenge_for_account,
  issuers_or_default, increment, is_issuer, Issuers,
}
use miden_node.Faucet.ChallengeCache.Counts.{
  Counts, entries, of_account, of_key, increment-Counts, count-entries-insert, count-split,
  count-pos, release_all-Counts,
}

-- The counters are the numbers of the challenges of an account, and of a key.
pub record IsCounted (cache : ChallengeCache) : Type 0 where
  pub ascending : IsAscending (BTreeMap.keys cache.challenges)
  pub accounts : Counts cache.account_ids (λ a. count (of_account a) (entries cache.challenges))
  pub keys : Counts cache.challenges_per_key (λ k. count (of_key k) (entries cache.challenges))

-- The challenge with this timestamp, account and key is in the cache.
abbrev pub IsCached : ChallengeCache → ℕ → ℕ → ℕ → Type 0
IsCached cache ts account key =
    any (is_issuer account key) (issuers_or_default (BTreeMap.get ts cache.challenges)) ≡ true

pub default-IsCounted : IsCounted default
unfolding default BTreeMap.get
default-IsCounted = record { ascending = tt; accounts = λ a. refl; keys = λ k. refl }

any-of_account :
    (account key : ℕ) (xs : Issuers)
    → any (is_issuer account key) xs ≡ true
    → any (of_account account) xs ≡ true
any-of_account account key [] h = h
any-of_account account key (x ∷ xs) h = ground (arith, any-of_account account key xs)

-- An added issuer is listed, and the others still are.
any-append :
    (account key : ℕ) (xs : Issuers) (x : ℕ × ℕ)
    → any (is_issuer account key) (xs ++ x ∷ [])
      ≡ (any (is_issuer account key) xs || is_issuer account key x)
any-append account key [] x = ground arith
any-append account key (y ∷ xs) x = ground (arith, any-append account key xs x)

module _ (cache : ChallengeCache) (counted : IsCounted cache) where
  -- The account of a cached challenge is rate limited.
  pub IsCached-limited :
      (ts account key : ℕ)
      → IsCached cache ts account key
      → has_challenge_for_account cache account ≡ true
  unfolding has_challenge_for_account
  IsCached-limited ts account key h =
      let one =
        count-pos (of_account account) ts cache.challenges
          (any-of_account account key (issuers_or_default (BTreeMap.get ts cache.challenges)) h) in
      ground (arith, counted.accounts account)

  -- A challenge of an account that is not rate limited is inserted, the others stay, and the
  -- counters stay right, with fewer than 2 ^ 64 - 1 challenges in the cache.
  pub insert_challenge-IsCounted :
      (c : Challenge)
      → length (entries cache.challenges) + 1 < 2 ^ 64
      → has_challenge_for_account cache c.account_id ≡ false
      → (cache' : ChallengeCache) × (insert_challenge cache c ≡ (cache', true))
        × IsCounted cache'
        × IsCached cache' c.timestamp c.account_id c.api_key
        × ((ts account key : ℕ) → IsCached cache ts account key → IsCached cache' ts account key)
  unfolding insert_challenge
  insert_challenge-IsCounted c few free =
      let issuers = issuers_or_default (BTreeMap.get c.timestamp cache.challenges) in
      let issuer : ℕ × ℕ = (c.account_id, c.api_key) in
      let added = BTreeMap.insert c.timestamp (issuers ++ issuer ∷ []) cache.challenges in
      let found =
        λ (ts : ℕ). BTreeMap.get-insert ts c.timestamp (issuers ++ issuer ∷ []) cache.challenges in
      let listed = λ (account key : ℕ). any-append account key issuers issuer in
      let unlisted : any (is_issuer c.account_id c.api_key) issuers ≡ false =
        elim (Bool-cases (any (is_issuer c.account_id c.api_key) issuers)) [
          | inl e ↦ absurd (ground (arith, IsCached-limited c.timestamp c.account_id c.api_key e))
          | inr e ↦ e
        ] in
      let accounts =
        increment-Counts c.account_id cache.account_ids
          (λ a. count (of_account a) (entries cache.challenges)) counted.accounts
          (omega (arith, count-le-length (of_account c.account_id) (entries cache.challenges))) in
      let keys =
        increment-Counts c.api_key cache.challenges_per_key
          (λ k. count (of_key k) (entries cache.challenges)) counted.keys
          (omega (arith, count-le-length (of_key c.api_key) (entries cache.challenges))) in
      let more = λ (p : ℕ × ℕ → Bool).
        count-entries-insert p c.timestamp issuer cache.challenges counted.ascending in
      (
        record {
          challenges = added;
          challenges_per_key = increment c.api_key cache.challenges_per_key;
          account_ids = increment c.account_id cache.account_ids;
        },
        rw unlisted,
        record {
          ascending =
              subst IsAscending
                (sym (keys-insert c.timestamp (issuers ++ issuer ∷ []) cache.challenges))
                (BTreeSet.insert-IsAscending c.timestamp (BTreeMap.keys cache.challenges)
                  counted.ascending);
          accounts = λ a. ground (arith, accounts a, more (of_account a));
          keys = λ k. ground (arith, keys k, more (of_key k));
        },
        ground (arith, found c.timestamp, listed c.account_id c.api_key),
        λ ts account key h. ground (arith, found ts, listed account key),
      )

  -- A clean-up at a time that is no smaller than the lifetime does not panic: it keeps the
  -- challenges that are not expired, and no other, and the counters stay right.
  pub cleanup_expired_challenges-IsCounted :
      (now lifetime : ℕ)
      → lifetime ≤ now
      → (cache' : ChallengeCache) × (cleanup_expired_challenges cache now lifetime ≡ some cache')
        × IsCounted cache'
        × ((ts : ℕ)
            → BTreeMap.get ts cache'.challenges
              ≡ (if ltb ts (now - lifetime) then none else BTreeMap.get ts cache.challenges))
  unfolding cleanup_expired_challenges
  cleanup_expired_challenges-IsCounted now lifetime h =
      let limit = now - lifetime in
      let kept = split_off limit cache.challenges in
      let (keys', accounts', run, hk, ha) =
        release_all-Counts (below limit cache.challenges) cache.challenges_per_key cache.account_ids
          (λ k. count (of_key k) (entries kept)) (λ a. count (of_account a) (entries kept))
          (λ k. ground (arith, counted.keys k, count-split (of_key k) limit cache.challenges))
          (λ a.
            ground
              (arith, counted.accounts a, count-split (of_account a) limit cache.challenges)) in
      (
        record { challenges = kept; challenges_per_key = keys'; account_ids = accounts' },
        ground (arith, run),
        record {
          ascending = split_off-IsAscending limit cache.challenges counted.ascending;
          accounts = ha;
          keys = hk;
        },
        λ ts. get-split_off ts limit cache.challenges,
      )
