-- ===== src/RemoteProver/Runs/Exclusive/Always.antt =====
-- Every step of the proxy of bin/remote-prover/src/proxy/mod.rs keeps the workers apart.
use miden_node.Prelude.{ℕ, ◌≡◌, refl, true, false, List, [], ◌∷◌, arith, ◌==◌, Bool-cases, inl, inr}
use mathlib.Core.Path.{subst, sym}
use miden_node.Collections.BTreeSet.{contains}
use miden_node.Collections.Distinct.{IsDistinct}
use miden_node.RemoteProver.Worker.{Worker, Network, Instant, ProofType}
use miden_node.RemoteProver.LoadBalancer.{
  LoadBalancerState, ProxyConfig, UpdateWorkers, update_workers, health_check, check_workers,
  new as new_state,
}
use miden_node.RemoteProver.LoadBalancer.Workers.{
  backends, available, add_workers_lem, remove_workers_lem,
}
use miden_node.RemoteProver.LoadBalancer.Creation.{
  initial-IsDistinct, Updated, refused, added, removed, update_workers-Updated,
}
use miden_node.RemoteProver.LoadBalancer.Health.{check_worker-backend, check_worker-busy}
use miden_node.RemoteProver.Proxy.{RequestContext, arrive}
use miden_node.RemoteProver.Proxy.Answers.{poll-Polled}
use miden_node.RemoteProver.Runs.{
  System, held, HeldHealthy, NoneHeld, UnheldIf, Step, start, Reach, arrives, starts, retries, ends,
  checks, updates, here, step,
}
use miden_node.RemoteProver.Runs.Exclusive.{
  IsExclusive, leave-IsExclusive, starts-IsExclusive, ends-IsExclusive,
}

module _ (N : Network) where
  check_workers-backends :
      (p : ProofType) (now : Instant) (ws : List Worker)
      → backends (check_workers N p now ws) ≡ backends ws
  unfolding check_workers
  check_workers-backends p now [] = refl
  check_workers-backends p now (w ∷ ws) =
      cc (check_worker-backend N p now w, check_workers-backends p now ws)

  check_workers-busy :
      (p : ProofType) (now : Instant) (busy : List ℕ) (ws : List Worker)
      → HeldHealthy busy ws
      → (b : ℕ) → contains b busy ≡ true
      → available b ws ≡ false
      → available b (check_workers N p now ws) ≡ false
  unfolding check_workers
  check_workers-busy p now busy [] healthy b h off = refl
  check_workers-busy p now busy (w ∷ ws) healthy b h off =
      let rest = check_workers-busy p now busy ws (ground arith) b h (ground arith) in
      let at = check_worker-backend N p now w in
      elim (Bool-cases (w.backend == b)) [
        | inr other ↦ ground (arith, rest, at, other)
        | inl same ↦
            let down = check_worker-busy N p now w (ground (arith, same)) (ground (arith, same)) in
            ground (arith, rest, down)
      ]

  checks-IsExclusive :
      (now : Instant) (s : LoadBalancerState) (running : List RequestContext)
      → HeldHealthy (held running) s.workers
      → IsExclusive s.workers running
      → IsExclusive (health_check N now s).workers running
  unfolding health_check
  checks-IsExclusive now s running healthy x =
      let p = s.config.proof_type in
      record {
        distinct = subst IsDistinct (sym (check_workers-backends p now s.workers)) x.distinct;
        alone = x.alone;
        busy = λ b h. check_workers-busy p now (held running) s.workers healthy b h (x.busy b h);
      }

  updates-IsExclusive :
      (update : UpdateWorkers) (now : Instant) (s : System)
      → NoneHeld update s
      → IsExclusive s.proxy.state.workers s.running
      → IsExclusive (update_workers N update now s.proxy.state).0.workers s.running
  updates-IsExclusive update now s free x = go (update_workers-Updated N update now s.proxy.state)
    where
      go : {ws : List Worker} → Updated N update s.proxy.state.workers ws → IsExclusive ws s.running
      go refused = x
      go (added vs at made) =
          let (d, same) = add_workers_lem vs s.proxy.state.workers x.distinct in
          let unheld = subst (UnheldIf update.workers (held s.running)) at free in
          record {
            distinct = d;
            alone = x.alone;
            busy = λ b h.
                let out : contains b (backends vs) ≡ false = ground (arith, made, unheld b, h) in
                ground (arith, same b out, x.busy b h);
          }
      go (removed vs at) =
          let (d, less) = remove_workers_lem vs s.proxy.state.workers x.distinct in
          record { distinct = d; alone = x.alone; busy = λ b h. ground (arith, less b, x.busy b h) }

  Step-IsExclusive :
      {s t : System}
      → Step true N s t
      → IsExclusive s.proxy.state.workers s.running
      → IsExclusive t.proxy.state.workers t.running
  unfolding arrive
  Step-IsExclusive (arrives request_id now) x = x
  Step-IsExclusive {s} (starts xs ys ctx ctx' p at run) x =
      starts-IsExclusive s.running ctx ctx' s.proxy p x (poll-Polled ctx ctx' s.proxy p run)
  Step-IsExclusive {s} (retries xs ys ctx ctx' now at run) x =
      let ws = s.proxy.state.workers in
      (leave-IsExclusive ws xs ys ctx (subst (IsExclusive ws) at x)).0
  Step-IsExclusive {s} (ends xs ys ctx at) x =
      ends-IsExclusive s.proxy xs ys ctx (subst (IsExclusive s.proxy.state.workers) at x)
  Step-IsExclusive {s} (checks now healthy) x =
      checks-IsExclusive now s.proxy.state s.running healthy x
  Step-IsExclusive {s} (updates update now free) x = updates-IsExclusive update now s free x

  start-IsExclusive :
      (addresses : List ℕ) (config : ProxyConfig) (now : Instant)
      → IsDistinct addresses
      → IsExclusive (new_state N addresses config now).workers []
  unfolding new_state contains
  start-IsExclusive addresses config now d = record {
    distinct = (initial-IsDistinct N addresses config now d).0;
    alone = tt;
    busy = λ b h. absurd (ground arith);
  }

-- Where the proxy starts with distinct addresses, no health check comes while a worker that a request
-- has is unhealthy, and no address of such a worker is added, then after every sequence of arrivals,
-- starts, retries, ends, health checks and updates of the workers: the workers have distinct
-- addresses, no two requests have the same worker, and a worker that a request has is not available.
pub exclusive :
    (N : Network) (addresses : List ℕ) (config : ProxyConfig) (now : Instant) (s : System)
    → IsDistinct addresses
    → Reach true N (start N addresses config now) s
    → IsExclusive s.proxy.state.workers s.running
exclusive N addresses config now s d r = go r
  where
    go :
        {t : System}
        → Reach true N (start N addresses config now) t
        → IsExclusive t.proxy.state.workers t.running
    go here = start-IsExclusive N addresses config now d
    go (step r e) = Step-IsExclusive N e (go r)
