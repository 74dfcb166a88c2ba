-- ===== src/Faucet/ChallengeCache/Counts.antt =====
-- A map of counters, against a function that counts.
use miden_node.Prelude.{
  ℕ, ◌+◌, ◌-◌, ◌<◌, ◌≡◌, refl, ◌==◌, Bool, true, none, some, [], ◌∷◌, ◌++◌, ltb, if◌then◌else◌,
  arith, count, any, count-append, Bool-cases, Option-cases, inl, inr, flat_map,
}
use Prim.Native.Nat.{◌^◌}
use miden_node.Collections.BTreeSet.{IsAscending}
use miden_node.Collections.BTreeMap
use miden_node.Collections.BTreeMap.{BTreeMap}
use miden_node.Collections.BTreeMap.Keys.{get_below, below, split_off}
use miden_node.Faucet.ChallengeCache.{
  increment, decrement, Issuers, issuers_or_default, release_issuers, release_all,
}

-- The counter of each key is there if it is not 0.
abbrev pub Counts : BTreeMap ℕ → (ℕ → ℕ) → Type 0
Counts m f = (k : ℕ) → BTreeMap.get k m ≡ (if f k == 0 then none else some (f k))

pub increment-Counts :
    (k : ℕ) (m : BTreeMap ℕ) (f : ℕ → ℕ)
    → Counts m f
    → f k + 1 < 2 ^ 64
    → Counts (increment k m) (λ j. f j + (if j == k then 1 else 0))
unfolding increment
increment-Counts k m f h small j =
    ground (arith, h k, h j, BTreeMap.get-insert j k 1 m, BTreeMap.get-insert j k (f k + 1) m)

pub decrement-Counts :
    (k : ℕ) (m : BTreeMap ℕ) (f g : ℕ → ℕ)
    → Counts m f
    → ((j : ℕ) → f j ≡ (if j == k then 1 else 0) + g j)
    → (m' : BTreeMap ℕ) × (decrement k m ≡ some m') × Counts m' g
unfolding decrement
decrement-Counts k m f g h more = elim (Option-cases (BTreeMap.get k m)) [
  | inl gone ↦ absurd (ground (arith, h k, more k))
  | inr (c, e) ↦ (
    if c - 1 == 0 then BTreeMap.remove k m else BTreeMap.insert k (c - 1) m,
    rw (e, decrement),
    λ j. ground (
      arith,
      h k,
      h j,
      more k,
      more j,
      BTreeMap.get-insert j k (c - 1) m,
      BTreeMap.get-remove j k m,
    ),
  )
]

-- The issuers of all the timestamps.
abbrev pub entries : BTreeMap Issuers → Issuers
entries = flat_map (λ e. e.1)

abbrev pub of_account : ℕ → ℕ × ℕ → Bool
of_account a issuer = issuer.0 == a

abbrev pub of_key : ℕ → ℕ × ℕ → Bool
of_key k issuer = issuer.1 == k

any-count : (p : ℕ × ℕ → Bool) (xs : Issuers) → any p xs ≡ true → 0 < count p xs
any-count p [] h = absurd (ground arith)
any-count p (x ∷ xs) h = ground (arith, any-count p xs)

module _ (p : ℕ × ℕ → Bool) where
  -- An issuer that is added to a timestamp is counted once more.
  pub count-entries-insert :
      (ts : ℕ) (issuer : ℕ × ℕ) (m : BTreeMap Issuers)
      → IsAscending (BTreeMap.keys m)
      → count p
          (entries (BTreeMap.insert ts (issuers_or_default (BTreeMap.get ts m) ++ issuer ∷ []) m))
        ≡ count p (entries m) + (if p issuer then 1 else 0)
  unfolding BTreeMap.insert BTreeMap.get
  count-entries-insert ts issuer [] asc = ground arith
  count-entries-insert ts issuer ((i, w) ∷ m) asc =
      let kept = issuers_or_default (BTreeMap.get ts m) in
      let added = BTreeMap.insert ts (kept ++ issuer ∷ []) m in
      elim (Bool-cases (ltb ts i)) [
        | inl lt ↦ ground (arith, get_below ts i w m asc)
        | inr ge ↦ ground (
          arith,
          count-append p w (entries m),
          count-append p w (issuer ∷ []),
          count-append p (w ++ issuer ∷ []) (entries m),
          count-append p w (entries added),
          count-entries-insert ts issuer m asc.1,
        )
      ]

  -- The split of the challenges splits the count.
  pub count-split :
      (limit : ℕ) (m : BTreeMap Issuers)
      → count p (entries m)
        ≡ count p (entries (below limit m)) + count p (entries (split_off limit m))
  count-split limit [] = omega arith
  count-split limit ((i, w) ∷ m) = ground (
    arith,
    count-split limit m,
    count-append p w (entries m),
    count-append p w (entries (below limit m)),
    count-append p w (entries (split_off limit m)),
  )

  -- A listed issuer is counted.
  pub count-pos :
      (ts : ℕ) (m : BTreeMap Issuers)
      → any p (issuers_or_default (BTreeMap.get ts m)) ≡ true
      → 0 < count p (entries m)
  unfolding BTreeMap.get
  count-pos ts [] h = absurd (ground arith)
  count-pos ts ((i, w) ∷ m) h =
      ground (arith, count-pos ts m, any-count p w, count-append p w (entries m))

-- The counters after the loops of the clean-up, which do not panic.
pub release_issuers-Counts :
    (issuers : Issuers) (per_key accounts : BTreeMap ℕ) (keys_left accounts_left : ℕ → ℕ)
    → Counts per_key (λ k. count (of_key k) issuers + keys_left k)
    → Counts accounts (λ a. count (of_account a) issuers + accounts_left a)
    → (per_key' accounts' : BTreeMap ℕ) × (release_issuers issuers (per_key, accounts)
        ≡ some (per_key', accounts'))
      × Counts per_key' keys_left
      × Counts accounts' accounts_left
unfolding release_issuers
release_issuers-Counts [] per_key accounts kl al hk ha =
    (per_key, accounts, refl, λ k. ground (arith, hk k), λ a. ground (arith, ha a))
release_issuers-Counts ((a, k) ∷ issuers) per_key accounts kl al hk ha =
    let (per_key₁, run_k, hk₁) =
      decrement-Counts k per_key (λ j. count (of_key j) ((a, k) ∷ issuers) + kl j)
        (λ j. count (of_key j) issuers + kl j) hk (λ j. ground arith) in
    let (accounts₁, run_a, ha₁) =
      decrement-Counts a accounts (λ j. count (of_account j) ((a, k) ∷ issuers) + al j)
        (λ j. count (of_account j) issuers + al j) ha (λ j. ground arith) in
    let (per_key₂, accounts₂, run, hk₂, ha₂) =
      release_issuers-Counts issuers per_key₁ accounts₁ kl al hk₁ ha₁ in
    (per_key₂, accounts₂, rw (run_k, release_issuers, run_a) run, hk₂, ha₂)

pub release_all-Counts :
    (expired : BTreeMap Issuers) (per_key accounts : BTreeMap ℕ) (keys_left accounts_left : ℕ → ℕ)
    → Counts per_key (λ k. count (of_key k) (entries expired) + keys_left k)
    → Counts accounts (λ a. count (of_account a) (entries expired) + accounts_left a)
    → (per_key' accounts' : BTreeMap ℕ) × (release_all expired (per_key, accounts)
        ≡ some (per_key', accounts'))
      × Counts per_key' keys_left
      × Counts accounts' accounts_left
unfolding release_all
release_all-Counts [] per_key accounts kl al hk ha =
    (per_key, accounts, refl, λ k. ground (arith, hk k), λ a. ground (arith, ha a))
release_all-Counts ((i, issuers) ∷ expired) per_key accounts kl al hk ha =
    let (per_key₁, accounts₁, run₁, hk₁, ha₁) =
      release_issuers-Counts issuers per_key accounts
        (λ k. count (of_key k) (entries expired) + kl k)
        (λ a. count (of_account a) (entries expired) + al a)
        (λ k. ground (arith, hk k, count-append (of_key k) issuers (entries expired)))
        (λ a. ground (arith, ha a, count-append (of_account a) issuers (entries expired))) in
    let (per_key₂, accounts₂, run, hk₂, ha₂) =
      release_all-Counts expired per_key₁ accounts₁ kl al hk₁ ha₁ in
    (per_key₂, accounts₂, rw (run₁, release_all) run, hk₂, ha₂)
