-- ===== src/RemoteProver/Proxy/Retries.antt =====
-- Retries, `fail_to_connect` of bin/remote-prover/src/proxy/mod.rs.
use miden_node.Prelude.{
  ℕ, ◌≡◌, refl, true, false, none, some, Option, List, arith, ◌+◌, leb, ltb, ◌==◌, ap, Bool-cases,
  inl, inr, zero, suc, if◌then◌else◌, ◌≤◌,
}
use mathlib.Core.Path.{subst}
use miden_node.Collections.Distinct.{IsDistinct}
use miden_node.RemoteProver.Worker.{Worker, Instant, set_availability}
use miden_node.RemoteProver.LoadBalancer.Workers.{
  backends, available, pop_available-backends, pop_available-some, take_worker-some,
  available-rotate,
}
use miden_node.RemoteProver.Proxy.{
  Proxy, RequestContext, new, poll, arrive, fail_to_connect, logging,
}
use miden_node.RemoteProver.Proxy.Answers.{
  Polled, poll-Polled, Logged, logging-Logged, unassigned, unlisted, returned,
}

-- So many failed connections one after the other; `none` if one of them is not retried.
abbrev pub retries : ℕ → Proxy → RequestContext → Option RequestContext
retries zero p ctx = some ctx
retries (suc n) p ctx =
    let (ctx', again) = fail_to_connect p ctx in
    let rest = retries n p ctx' in if again then rest else none

retries_from :
    (n tries : ℕ) (p : Proxy) (ctx : RequestContext)
    → ctx.tries ≡ tries
    → tries ≤ p.state.config.max_retries_per_request + 1
    → retries n p ctx ≡ (
        if leb (n + tries) (p.state.config.max_retries_per_request + 1)
        then some (record ctx { tries = n + tries })
        else none)
unfolding fail_to_connect
retries_from zero tries p ctx e h = ground (arith, e, h)
retries_from (suc n) tries p ctx e h =
    elim (Bool-cases (ltb p.state.config.max_retries_per_request ctx.tries)) [
      | inl last ↦ ground (arith, e, h, last)
      | inr more ↦
          let next =
            retries_from n (tries + 1) p (fail_to_connect p ctx).0 (ground (arith, e, more))
              (ground (arith, e, more)) in
          ground (arith, e, more, next)
    ]

-- A new request is retried after each of `n` failed connections exactly if `n` is at most one more than
-- the configured number of retries, and its tries then count them.
pub retries_lem :
    (n request_id : ℕ) (now : Instant) (p : Proxy)
    → retries n p (new request_id now) ≡ (
        if leb n (p.state.config.max_retries_per_request + 1)
        then some (record (new request_id now) { tries = n })
        else none)
unfolding new
retries_lem n request_id now p =
    let h = retries_from n 0 p (new request_id now) refl (omega arith) in ground (arith, h)

popped-IsDistinct :
    (ctx ctx' : RequestContext) (p p' : Proxy)
    → IsDistinct (backends p.state.workers)
    → Polled ctx p p' ctx'
    → IsDistinct (backends p'.state.workers)
popped-IsDistinct ctx ctx' p p' d r =
    subst IsDistinct (cc (ap backends r.workers, pop_available-backends p.state.workers)) d

apart :
    (b c : ℕ) (ws : List Worker) → available b ws ≡ false → available c ws ≡ true → (b == c) ≡ false
apart b c ws off on = elim (Bool-cases (b == c)) [
  | inr other ↦ other
  | inl same ↦
      let eq : b ≡ c = ground (arith, same) in
      absurd (ground (arith, off, on, ap (λ k. available k ws) eq))
]

-- The end of a request leaves another worker unavailable.
logging-other :
    (ctx : RequestContext) (p : Proxy) (w : Worker) (b : ℕ)
    → ctx.worker ≡ some w
    → (b == w.backend) ≡ false
    → available b p.state.workers ≡ false
    → available b (logging ctx p).0.state.workers ≡ false
unfolding set_availability
logging-other ctx p w b assigned other off = go (logging-Logged ctx p)
  where
    go : {ws : List Worker} → Logged ctx p ws → available b ws ≡ false
    go (unassigned _) = off
    go (unlisted _ _ _) = off
    go (returned u v vs assigned' found) =
        let same : u ≡ w = ground (arith, assigned, assigned') in
        let (at, _, _, rest) = take_worker-some u.backend p.state.workers vs v found in
        ground
          (arith, same, at, other, off, rest b, available-rotate b vs (set_availability true v))

-- Where the workers have distinct addresses, a request that gets a worker, fails to connect, enters the
-- queue again and at once gets a worker, the first worker was available, and is not after the end of
-- the request.
pub retry-leak :
    (p p1 p2 : Proxy) (ctx ctx1 ctx2 ctx3 : RequestContext) (now : Instant)
    → IsDistinct (backends p.state.workers)
    → poll ctx p ≡ some (p1, ctx1, true)
    → fail_to_connect p1 ctx1 ≡ (ctx2, true)
    → poll ctx2 (arrive ctx2 now p1) ≡ some (p2, ctx3, true)
    → (w : Worker) × (ctx1.worker ≡ some w)
      × (available w.backend p.state.workers ≡ true)
      × (available w.backend (logging ctx3 p2).0.state.workers ≡ false)
unfolding arrive
retry-leak p p1 p2 ctx ctx1 ctx2 ctx3 now d run1 fail run2 =
    let r1 = poll-Polled ctx ctx1 p p1 run1 in
    let r2 = poll-Polled ctx2 ctx3 (arrive ctx2 now p1) p2 run2 in
    let (was1, now1) = pop_available-some p.state.workers r1.worker d r1.found in
    let d1 = popped-IsDistinct ctx ctx1 p p1 d r1 in
    let (was2, now2) = pop_available-some p1.state.workers r2.worker d1 r2.found in
    let d2 = popped-IsDistinct ctx2 ctx3 (arrive ctx2 now p1) p2 d1 r2 in
    let off : available r1.worker.backend p1.state.workers ≡ false =
      ground (arith, r1.workers, now1 r1.worker.backend) in
    let off2 : available r1.worker.backend p2.state.workers ≡ false =
      ground (arith, r2.workers, off, now2 r1.worker.backend) in
    let other : (r1.worker.backend == r2.worker.backend) ≡ false =
      apart r1.worker.backend r2.worker.backend p1.state.workers off was2 in
    (
      r1.worker,
      r1.assigned,
      was1,
      logging-other ctx3 p2 r2.worker r1.worker.backend r2.assigned other off2,
    )
