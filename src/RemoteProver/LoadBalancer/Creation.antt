-- ===== src/RemoteProver/LoadBalancer/Creation.antt =====
-- The workers that bin/remote-prover/src/proxy/mod.rs creates from addresses.
use miden_node.Prelude.{ℕ, ◌≡◌, refl, false, List, [], ◌∷◌, arith, inl, inr, ◌⊎◌, ok, Result-cases}
use miden_node.Collections.BTreeSet.{contains}
use miden_node.Collections.Distinct.{IsDistinct}
use miden_node.RemoteProver.Worker.{Worker, Network, Instant, new}
use mathlib.Core.Path.{subst, sym}
use miden_node.RemoteProver.LoadBalancer.{
  LoadBalancerState, ProxyConfig, create_workers, initial, UpdateWorkers, Action, add, remove,
  add_workers, remove_workers, update_workers,
}
use miden_node.RemoteProver.LoadBalancer.Workers.{backends}

module _ (N : Network) where
  new-backend :
      (address connection total : ℕ) (now : Instant) (w : Worker)
      → new N address connection total now ≡ ok w
      → w.backend ≡ address
  unfolding new
  new-backend address connection total now w h = ground arith

  -- The created workers are those of the addresses.
  pub create_workers-backends :
      (addresses : List ℕ) (config : ProxyConfig) (now : Instant) (ws : List Worker)
      → create_workers N addresses config now ≡ ok ws
      → backends ws ≡ addresses
  unfolding create_workers
  create_workers-backends [] config now ws h = ground arith
  create_workers-backends (a ∷ more) config now ws h =
      elim (Result-cases (new N a config.connection_timeout config.timeout now)) [
        | inr (e, bad) ↦ absurd (ground (arith, bad, h))
        | inl (w, good) ↦ elim (Result-cases (create_workers N more config now)) [
          | inr (e, bad) ↦ absurd (ground (arith, good, bad, h))
          | inl (vs, rest) ↦ ground (
            arith,
            good,
            rest,
            h,
            new-backend a config.connection_timeout config.timeout now w good,
            create_workers-backends more config now vs rest,
          )
        ]
      ]

  initial-cons :
      (a : ℕ) (more : List ℕ) (config : ProxyConfig) (now : Instant)
      → (initial N (a ∷ more) config now ≡ initial N more config now)
        ⊎ ((w : Worker) × (w.backend ≡ a)
            × (initial N (a ∷ more) config now ≡ w ∷ initial N more config now))
  unfolding initial
  initial-cons a more config now =
      elim (Result-cases (new N a config.connection_timeout config.timeout now)) [
        | inr (e, bad) ↦ inl (ground (arith, bad))
        | inl (w, good) ↦ inr (
          w,
          new-backend a config.connection_timeout config.timeout now w good,
          ground (arith, good),
        )
      ]

  initial-nil : (config : ProxyConfig) (now : Instant) → initial N [] config now ≡ []
  unfolding initial
  initial-nil config now = refl

  -- The workers of a start have some of its addresses, each at most once.
  pub initial-IsDistinct :
      (addresses : List ℕ) (config : ProxyConfig) (now : Instant)
      → IsDistinct addresses
      → IsDistinct (backends (initial N addresses config now))
        × ((b : ℕ)
            → contains b addresses ≡ false
            → contains b (backends (initial N addresses config now)) ≡ false)
  unfolding contains
  initial-IsDistinct [] config now d = rw (initial-nil config now) (tt, λ b h. refl)
  initial-IsDistinct (a ∷ more) config now (fresh, d) =
      let (d', out) = initial-IsDistinct more config now d in
      elim (initial-cons a more config now) [
        | inl same ↦ rw same (d', λ b h. out b (ground arith))
        | inr (w, at, more_workers) ↦
            rw more_workers (
              (ground (arith, at, out a fresh), d'),
              λ b h. ground (arith, at, out b (ground arith)),
            )
      ]

  -- The workers after an update: a worker that cannot be created leaves all as it is.
  pub data Updated (update : UpdateWorkers) (ws : List Worker) : List Worker → Type 0 where
    refused : Updated update ws ws
    added :
        (vs : List Worker)
        → update.action ≡ add
        → backends vs ≡ update.workers
        → Updated update ws (add_workers vs ws)
    removed : (vs : List Worker) → update.action ≡ remove → Updated update ws (remove_workers vs ws)

  pub update_workers-Updated :
      (update : UpdateWorkers) (now : Instant) (s : LoadBalancerState)
      → Updated update s.workers (update_workers N update now s).0.workers
  unfolding update_workers
  update_workers-Updated update now s =
      elim (Result-cases (create_workers N update.workers s.config now)) [
        | inr (e, bad) ↦ as_is (ground (arith, bad)) refused
        | inl (vs, good) ↦
            let made = create_workers-backends update.workers s.config now vs good in
            go update.action refl vs good made
      ]
    where
      as_is :
          {ws : List Worker}
          → (update_workers N update now s).0.workers ≡ ws
          → Updated update s.workers ws
          → Updated update s.workers (update_workers N update now s).0.workers
      as_is e l = subst (λ ws. Updated update s.workers ws) (sym e) l

      go :
          (a : Action)
          → update.action ≡ a
          → (vs : List Worker) → create_workers N update.workers s.config now ≡ ok vs
          → backends vs ≡ update.workers
          → Updated update s.workers (update_workers N update now s).0.workers
      go add at vs good made = as_is (ground (arith, good, at)) (added vs at made)
      go remove at vs good made = as_is (ground (arith, good, at)) (removed vs at)
