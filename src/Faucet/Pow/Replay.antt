-- ===== src/Faucet/Pow/Replay.antt =====
-- A challenge across the life of the server: submissions, clean-ups, and the clock.
use miden_node.Prelude.{
  ℕ, ◌+◌, ◌-◌, ◌<◌, ◌≤◌, ◌≡◌, refl, true, false, some, List, ltb, arith, length, Result, ok, err,
  Bool-cases, inl, inr, ◌⊎◌, ◌&&◌, ◌==◌, Option-cases,
}
use Prim.Native.Nat.{◌^◌}
use miden_node.Faucet.Challenge.{
  Challenge, Encoding, MintRequestError, is_expired, decode, validate_pow, expired_server_timestamp,
  invalid_pow, rate_limited,
}
use miden_node.Faucet.ChallengeCache.{
  ChallengeCache, cleanup_expired_challenges, has_challenge_for_account,
}
use miden_node.Faucet.ChallengeCache.Counts.{entries}
use miden_node.Faucet.ChallengeCache.Counted.{
  IsCounted, IsCached, IsCached-limited, insert_challenge-IsCounted,
  cleanup_expired_challenges-IsCounted,
}
use miden_node.Faucet.Pow.{Pow, submit_decoded, submit_challenge}

-- What an accepted challenge meets, and what it leaves.
pub record Accepts (pow : Pow) (c : Challenge) (account key now : ℕ) (pow' : Pow) : Type 0 where
  pub free : has_challenge_for_account pow.challenge_cache account ≡ false
  pub same_account : account ≡ c.account_id
  pub same_key : key ≡ c.api_key
  pub current : is_expired c now pow.config.challenge_lifetime ≡ false
  pub config : pow'.config ≡ pow.config
  pub secret : pow'.secret ≡ pow.secret
  pub counted : IsCounted pow'.challenge_cache
  pub cached : IsCached pow'.challenge_cache c.timestamp c.account_id c.api_key
  pub kept :
      (ts a k : ℕ) → IsCached pow.challenge_cache ts a k → IsCached pow'.challenge_cache ts a k

module _ (E : Encoding) (pow : Pow) (account key nonce now : ℕ)
    (counted : IsCounted pow.challenge_cache)
    (few : length (entries pow.challenge_cache.challenges) + 1 < 2 ^ 64) where
  -- A submission is accepted, or it changes nothing.
  submit_decoded_cases :
      (c : Challenge)
      → ((pow' : Pow) × (submit_decoded E pow c account key nonce now ≡ (pow', ok tt))
          × Accepts pow c account key now pow')
        ⊎ ((e : MintRequestError) × (submit_decoded E pow c account key nonce now ≡ (pow, err e)))
  unfolding submit_decoded
  submit_decoded_cases c =
      let valid = validate_pow E c nonce && (account == c.account_id && key == c.api_key) in
      elim (Bool-cases (is_expired c now pow.config.challenge_lifetime)) [
        | inl old ↦ inr (expired_server_timestamp c.timestamp now, rw old)
        | inr current ↦ elim (Bool-cases valid) [
          | inr bad ↦ inr (invalid_pow, rw (current, bad))
          | inl good ↦ elim (Bool-cases (has_challenge_for_account pow.challenge_cache account)) [
            | inl limited ↦ inr (rate_limited, rw (current, good, limited))
            | inr free ↦
                let same_account : account ≡ c.account_id = ground arith in
                let (cache', run, counted', cached, kept) =
                  insert_challenge-IsCounted pow.challenge_cache counted c few
                    (rw (← same_account) free) in
                inl (
                  record pow { challenge_cache = cache' },
                  rw (current, good, free, run),
                  record {
                    free = free;
                    same_account = same_account;
                    same_key = ground arith;
                    current = current;
                    config = refl;
                    secret = refl;
                    counted = counted';
                    cached = cached;
                    kept = kept;
                  },
                )
          ]
        ]
      ]

  pub submit_challenge_cases :
      (text : List ℕ) (pow' : Pow) (r : Result (Unit {0}) MintRequestError)
      → submit_challenge E pow account key text nonce now ≡ some (pow', r)
      → ((c : Challenge) × (decode E text pow.secret ≡ some (ok c))
          × (r ≡ ok tt)
          × Accepts pow c account key now pow')
        ⊎ ((e : MintRequestError) × (r ≡ err e) × (pow' ≡ pow))
  unfolding submit_challenge
  submit_challenge_cases text pow' r h = elim (Option-cases (decode E text pow.secret)) [
    | inl gone ↦ absurd (ground arith)
    | inr (err e, found) ↦ inr (e, ground arith, ground arith)
    | inr (ok c, found) ↦ elim (submit_decoded_cases c) [
      | inl (p, run, a) ↦
          let same : pow' ≡ p = ground (arith, run) in
          inl (c, found, ground (arith, run), rw same a)
      | inr (e, run) ↦ inr (e, ground (arith, run), ground (arith, run))
    ]
  ]

-- The server and its clock: a request, a clean-up, or time that goes by.
pub data Step (E : Encoding) : Pow × ℕ → Pow × ℕ → Type 0 where
  submit :
      {pow pow' : Pow} {now : ℕ} (account key nonce : ℕ) (text : List ℕ)
      (r : Result (Unit {0}) MintRequestError)
      → length (entries pow.challenge_cache.challenges) + 1 < 2 ^ 64
      → submit_challenge E pow account key text nonce now ≡ some (pow', r)
      → Step E (pow, now) (pow', now)
  cleanup :
      {pow : Pow} {now : ℕ} {cache : ChallengeCache}
      → cleanup_expired_challenges pow.challenge_cache now pow.config.challenge_lifetime
        ≡ some cache
      → Step E (pow, now) (record pow { challenge_cache = cache }, now)
  wait : {pow : Pow} {now : ℕ} (later : ℕ) → now ≤ later → Step E (pow, now) (pow, later)

pub data Run (E : Encoding) (s : Pow × ℕ) : Pow × ℕ → Type 0 where
  here : Run E s s
  next : {t u : Pow × ℕ} → Run E s t → Step E t u → Run E s u

cleanup_expired_challenges-le :
    (cache cache' : ChallengeCache) (now lifetime : ℕ)
    → cleanup_expired_challenges cache now lifetime ≡ some cache'
    → lifetime ≤ now
unfolding cleanup_expired_challenges
cleanup_expired_challenges-le cache cache' now lifetime e = ground arith

module _ (E : Encoding) (ts account key lifetime : ℕ) (secret : List ℕ) where
  -- The challenge is cached or expired, and the counters are right.
  record IsUsed (s : Pow × ℕ) : Type 0 where
    lifetime_eq : s.0.config.challenge_lifetime ≡ lifetime
    secret_eq : s.0.secret ≡ secret
    counted : IsCounted s.0.challenge_cache
    used : IsCached s.0.challenge_cache ts account key ⊎ ts + lifetime < s.1

  -- A clean-up removes the challenge only when it is expired.
  cleanup-IsUsed :
      {pow : Pow} {now : ℕ} {cache : ChallengeCache}
      → cleanup_expired_challenges pow.challenge_cache now pow.config.challenge_lifetime
        ≡ some cache
      → IsUsed (pow, now)
      → IsUsed (record pow { challenge_cache = cache }, now)
  cleanup-IsUsed {pow} {now} {cache} e u =
      let reached =
        cleanup_expired_challenges-le pow.challenge_cache cache now pow.config.challenge_lifetime
          e in
      let (cache', run, counted', found) =
        cleanup_expired_challenges-IsCounted pow.challenge_cache u.counted now
          pow.config.challenge_lifetime reached in
      let same : cache ≡ cache' = ground (arith, run, e) in
      record {
        lifetime_eq = u.lifetime_eq;
        secret_eq = u.secret_eq;
        counted = rw same counted';
        used = elim u.used [
          | inr old ↦ inr old
          | inl cached ↦ elim (Bool-cases (ltb ts (now - pow.config.challenge_lifetime))) [
            | inl old ↦ inr (ground (arith, u.lifetime_eq))
            | inr current ↦ inl (ground (arith, same, found ts))
          ]
        ];
      }

  Step-IsUsed : {s t : Pow × ℕ} → Step E s t → IsUsed s → IsUsed t
  Step-IsUsed (submit {pow} {pow'} {now} a k nonce text r few run) u =
      elim (submit_challenge_cases E pow a k nonce now u.counted few text pow' r run) [
        | inr (e, _, same) ↦ rw same u
        | inl (c, _, _, accepts) ↦ record {
          lifetime_eq = ground (arith, accepts.config, u.lifetime_eq);
          secret_eq = ground (arith, accepts.secret, u.secret_eq);
          counted = accepts.counted;
          used = elim u.used [
            | inl cached ↦ inl (accepts.kept ts account key cached)
            | inr old ↦ inr old
          ];
        }
      ]
  Step-IsUsed (cleanup e) u = cleanup-IsUsed e u
  Step-IsUsed (wait later h) u = record {
    lifetime_eq = u.lifetime_eq;
    secret_eq = u.secret_eq;
    counted = u.counted;
    used = elim u.used [ inl c ↦ inl c | inr e ↦ inr (omega arith) ];
  }

  Run-IsUsed : {s t : Pow × ℕ} → Run E s t → IsUsed s → IsUsed t
  Run-IsUsed here u = u
  Run-IsUsed (next r st) u = Step-IsUsed st (Run-IsUsed r u)

-- A used challenge is refused.
submit_decoded-used :
    (E : Encoding) (c : Challenge) (pow : Pow) (account key nonce now lifetime : ℕ)
    (secret : List ℕ)
    → IsUsed E c.timestamp c.account_id c.api_key lifetime secret (pow, now)
    → (e : MintRequestError) × (submit_decoded E pow c account key nonce now ≡ (pow, err e))
unfolding submit_decoded is_expired
submit_decoded-used E c pow account key nonce now lifetime secret u =
    let valid = validate_pow E c nonce && (account == c.account_id && key == c.api_key) in
    elim (Bool-cases (is_expired c now pow.config.challenge_lifetime)) [
      | inl old ↦ (expired_server_timestamp c.timestamp now, rw old)
      | inr current ↦ elim (Bool-cases valid) [
        | inr bad ↦ (invalid_pow, rw (current, bad))
        | inl good ↦
            let limited : has_challenge_for_account pow.challenge_cache account ≡ true =
              elim u.used [
                | inl cached ↦ ground (
                  arith,
                  IsCached-limited pow.challenge_cache u.counted c.timestamp c.account_id c.api_key
                      cached,
                )
                | inr old ↦ absurd (ground (arith, u.lifetime_eq))
              ] in
            (rate_limited, rw (current, good, limited))
      ]
    ]

-- Where the counters of the cache are right, and the cache holds fewer than 2^64 - 1 challenges at
-- each submission, a text that was accepted once is never accepted again with the same server,
-- whatever requests and clean-ups happen between and whoever submits it: the later request is refused
-- and changes nothing.
pub no_replay :
    (E : Encoding) (pow pow' : Pow) (now : ℕ) (account key nonce : ℕ) (text : List ℕ)
    → IsCounted pow.challenge_cache
    → length (entries pow.challenge_cache.challenges) + 1 < 2 ^ 64
    → submit_challenge E pow account key text nonce now ≡ some (pow', ok tt)
    → (later : Pow) (time : ℕ) → Run E (pow', now) (later, time)
    → (account' key' nonce' : ℕ)
    → (e : MintRequestError) × (submit_challenge E later account' key' text nonce' time
        ≡ some (later, err e))
unfolding submit_challenge
no_replay E pow pow' now account key nonce text counted few run later time reach a k n =
    elim (submit_challenge_cases E pow account key nonce now counted few text pow' (ok tt) run) [
      | inr (e, bad, _) ↦ absurd (ground arith)
      | inl (c, found, _, accepts) ↦
          let u : IsUsed E c.timestamp c.account_id c.api_key pow.config.challenge_lifetime
              pow.secret (later, time) =
            Run-IsUsed E c.timestamp c.account_id c.api_key pow.config.challenge_lifetime pow.secret
              reach
              (record {
                lifetime_eq = ground (arith, accepts.config);
                secret_eq = accepts.secret;
                counted = accepts.counted;
                used = inl accepts.cached;
              }) in
          let (e, refused) =
            submit_decoded-used E c later a k n time pow.config.challenge_lifetime pow.secret u in
          (e, ground (arith, found, u.secret_eq, refused))
    ]
