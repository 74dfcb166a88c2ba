-- ===== src/RemoteProver/Runs/Exclusive.antt =====
-- No worker has two requests: the runs of the proxy of bin/remote-prover/src/proxy/mod.rs.
pub mod Always
use miden_node.Prelude.{
  ℕ, ◌≡◌, refl, ap, Bool, true, false, not, ◌&&◌, ◌||◌, none, some, List, [], ◌∷◌, ◌++◌, arith,
  ◌==◌, map, Bool-cases, Option-cases, inl, inr, Result-cases, ok, err,
}
use mathlib.Core.Path.{subst, sym}
use miden_node.Collections.BTreeSet.{contains}
use miden_node.Collections.Distinct.{
  IsDistinct, contains-append, contains-middle, IsDistinct-middle,
}
use miden_node.RemoteProver.Worker.{
  Worker, Network, Instant, ProofType, set_availability, is_healthy,
}
use miden_node.RemoteProver.LoadBalancer.{
  LoadBalancerState, ProxyConfig, UpdateWorkers, Action, add, remove, update_workers, health_check,
  check_workers, check_worker, create_workers, new as new_state, pop_available, take_worker,
}
use miden_node.RemoteProver.LoadBalancer.Workers.{
  backends, available, pop_available-backends, pop_available-some, take_worker-some,
  rotated-IsDistinct, available-rotate, add_workers_lem, remove_workers_lem, available-unknown,
}
use miden_node.RemoteProver.LoadBalancer.Creation.{create_workers-backends, initial-IsDistinct}
use miden_node.RemoteProver.LoadBalancer.Health.{check_worker-backend, check_worker-busy}
use miden_node.RemoteProver.Proxy.{Proxy, RequestContext, poll, arrive, fail_to_connect, logging}
use miden_node.RemoteProver.Proxy.Answers.{
  Polled, poll-Polled, Logged, logging-Logged, unassigned, unlisted, returned,
}
use miden_node.RemoteProver.Runs.{
  System, held, HeldHealthy, NoneHeld, Step, start, arrives, starts, retries, ends, checks, updates,
  here, step,
}

-- The workers have distinct addresses, no two requests have one worker, and a worker that a request
-- has is not available.
pub record IsExclusive (ws : List Worker) (running : List RequestContext) : Type 0 where
  pub distinct : IsDistinct (backends ws)
  pub alone : IsDistinct (held running)
  pub busy : (b : ℕ) → contains b (held running) ≡ true → available b ws ≡ false

held-append : (xs ys : List RequestContext) → held (xs ++ ys) ≡ held xs ++ held ys
held-append [] ys = refl
held-append (x ∷ xs) ys = elim (Option-cases x.worker) [
  | inl nobody ↦ rw nobody (held-append xs ys)
  | inr (w, assigned) ↦ rw assigned (ap (◌∷◌ w.backend) (held-append xs ys))
]

held-unassigned :
    (xs ys : List RequestContext) (ctx : RequestContext)
    → ctx.worker ≡ none
    → held (xs ++ ctx ∷ ys) ≡ held (xs ++ ys)
held-unassigned xs ys ctx h = cc (held-append xs (ctx ∷ ys), held-append xs ys, held-first)
  where
    held-first : held (ctx ∷ ys) ≡ held ys
    held-first = rw h refl

held-assigned :
    (xs ys : List RequestContext) (ctx : RequestContext) (w : Worker)
    → ctx.worker ≡ some w
    → held (xs ++ ctx ∷ ys) ≡ held xs ++ w.backend ∷ held ys
held-assigned xs ys ctx w h = cc (held-append xs (ctx ∷ ys), held-first)
  where
    held-first : held (ctx ∷ ys) ≡ w.backend ∷ held ys
    held-first = rw h refl

-- A request that is left out leaves the worker of no other.
pub leave-IsExclusive :
    (ws : List Worker) (xs ys : List RequestContext) (ctx : RequestContext)
    → IsExclusive ws (xs ++ ctx ∷ ys)
    → IsExclusive ws (xs ++ ys)
      × ((w : Worker) → ctx.worker ≡ some w → contains w.backend (held (xs ++ ys)) ≡ false)
leave-IsExclusive ws xs ys ctx x = elim (Option-cases ctx.worker) [
  | inl nobody ↦
      let same = held-unassigned xs ys ctx nobody in
      (
        record {
          distinct = x.distinct;
          alone = subst IsDistinct same x.alone;
          busy = λ b h. x.busy b (ground (arith, same));
        },
        λ w assigned. absurd (ground (arith, nobody, assigned)),
      )
  | inr (w, assigned) ↦
      let same = held-assigned xs ys ctx w assigned in
      let rest = held-append xs ys in
      let (d, out) =
        IsDistinct-middle w.backend (held xs) (held ys) (subst IsDistinct same x.alone) in
      (
        record {
          distinct = x.distinct;
          alone = subst IsDistinct (sym rest) d;
          busy = λ b h.
              x.busy b
                (ground (arith, same, rest, contains-middle b w.backend (held xs) (held ys)));
        },
        λ v assigned'. ground (arith, assigned, assigned', rest, out),
      )
]

starts-IsExclusive :
    (running : List RequestContext) (ctx ctx' : RequestContext) (p p' : Proxy)
    → IsExclusive p.state.workers running
    → Polled ctx p p' ctx'
    → IsExclusive p'.state.workers (ctx' ∷ running)
unfolding contains
starts-IsExclusive running ctx ctx' p p' x r =
    let w = r.worker in
    let (was, now) = pop_available-some p.state.workers w x.distinct r.found in
    let same : held (ctx' ∷ running) ≡ w.backend ∷ held running = rw r.assigned refl in
    let fresh : contains w.backend (held running) ≡ false = ground (arith, was, x.busy w.backend) in
    record {
      distinct =
          subst IsDistinct (cc (ap backends r.workers, pop_available-backends p.state.workers))
            x.distinct;
      alone = subst IsDistinct (sym same) (fresh, x.alone);
      busy = λ b h. ground (arith, same, r.workers, now b, x.busy b);
    }

returns-IsExclusive :
    (ws vs : List Worker) (running : List RequestContext) (w v : Worker)
    → IsExclusive ws running
    → contains w.backend (held running) ≡ false
    → take_worker w.backend ws ≡ some (v, vs)
    → IsExclusive (vs ++ set_availability true v ∷ []) running
unfolding set_availability
returns-IsExclusive ws vs running w v x fresh found =
    let (at, same, distinct, rest) = take_worker-some w.backend ws vs v found in
    let (d, out) = distinct x.distinct in
    record {
      distinct = rotated-IsDistinct vs (set_availability true v) (ground (arith, out, at)) d;
      alone = x.alone;
      busy = λ b h.
          ground
            (arith, at, fresh, available-rotate b vs (set_availability true v), rest b, x.busy b);
    }

pub ends-IsExclusive :
    (p : Proxy) (xs ys : List RequestContext) (ctx : RequestContext)
    → IsExclusive p.state.workers (xs ++ ctx ∷ ys)
    → IsExclusive (logging ctx p).0.state.workers (xs ++ ys)
ends-IsExclusive p xs ys ctx x =
    let (left, fresh) = leave-IsExclusive p.state.workers xs ys ctx x in
    go (logging-Logged ctx p) left fresh
  where
    go :
        {ws : List Worker}
        → Logged ctx p ws
        → IsExclusive p.state.workers (xs ++ ys)
        → ((w : Worker) → ctx.worker ≡ some w → contains w.backend (held (xs ++ ys)) ≡ false)
        → IsExclusive ws (xs ++ ys)
    go (unassigned _) left fresh = left
    go (unlisted _ _ _) left fresh = left
    go (returned w v vs assigned found) left fresh =
        returns-IsExclusive p.state.workers vs (xs ++ ys) w v left (fresh w assigned) found
