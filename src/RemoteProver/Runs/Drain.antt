-- ===== src/RemoteProver/Runs/Drain.antt =====
-- The waiting requests of the proxy of bin/remote-prover/src/proxy/mod.rs get their turns.
use miden_node.Prelude.{
  ℕ, ◌≡◌, refl, ap, Bool, true, false, none, some, List, [], ◌∷◌, ◌++◌, arith, map, any, Bool-cases,
  Option-cases, inl, inr,
}
use mathlib.Core.List.{append-nil, append_assoc}
use miden_node.Collections.BTreeSet.{contains}
use miden_node.RemoteProver.Worker.{Worker, Network, set_availability}
use miden_node.RemoteProver.LoadBalancer.{pop_available, take_worker}
use miden_node.RemoteProver.LoadBalancer.Workers.{
  backends, pop_available-finds, pop_available-backends,
}
use miden_node.RemoteProver.Proxy.{Proxy, RequestContext, logging}
use miden_node.RemoteProver.Proxy.Answers.{
  queued, Polled, poll-Polled, poll-first, logging-queue, Logged, logging-Logged, unassigned,
  unlisted, returned,
}
use miden_node.RemoteProver.Runs.{System, Step, Reach, starts, ends, here, step}

abbrev pub any_available : List Worker → Bool
any_available = any (λ w. w.is_available)

pop_available-listed :
    (ws : List Worker) (w : Worker)
    → (pop_available ws).1 ≡ some w
    → contains w.backend (backends ws) ≡ true
unfolding pop_available set_availability contains
pop_available-listed [] w h = absurd (ground arith)
pop_available-listed (v ∷ ws) w h = elim (Bool-cases v.is_available) [
  | inl free ↦ ground (arith, free, h)
  | inr busy ↦
      let found : (pop_available ws).1 ≡ some w = ground (arith, busy, h) in
      ground (arith, pop_available-listed ws w found)
]

take_worker-none :
    (b : ℕ) (ws : List Worker) → take_worker b ws ≡ none → contains b (backends ws) ≡ false
unfolding take_worker contains
take_worker-none b [] h = refl
take_worker-none b (w ∷ ws) h = elim (Option-cases (take_worker b ws)) [
  | inl gone ↦ ground (arith, gone, h, take_worker-none b ws gone)
  | inr ((v, vs), found) ↦ absurd (ground (arith, found, h))
]

any_available-rotate :
    (ws : List Worker) (w : Worker) → any_available (ws ++ set_availability true w ∷ []) ≡ true
unfolding set_availability
any_available-rotate [] w = refl
any_available-rotate (v ∷ ws) w = ground (arith, any_available-rotate ws w)

-- A request that got a worker and ends gives it back.
gives_back :
    (ctx ctx' : RequestContext) (p p' : Proxy)
    → Polled ctx p p' ctx'
    → any_available (logging ctx' p').0.state.workers ≡ true
gives_back ctx ctx' p p' r = go (logging-Logged ctx' p')
  where
    go : {ws : List Worker} → Logged ctx' p' ws → any_available ws ≡ true
    go (unassigned nobody) = absurd (ground (arith, nobody, r.assigned))
    go (unlisted w assigned gone) =
        let ws = p.state.workers in
        let same : w ≡ r.worker = ground (arith, assigned, r.assigned) in
        let listed : contains w.backend (backends p'.state.workers) ≡ true = ground (
          arith,
          same,
          ap backends r.workers,
          pop_available-backends ws,
          pop_available-listed ws r.worker r.found,
        ) in
        absurd (ground (arith, listed, take_worker-none w.backend p'.state.workers gone))
    go (returned w v vs assigned found) = any_available-rotate vs v

-- All of the queue is served, in its order.
record Drained (s t : System) : Type 0 where
  waiting : t.waiting ≡ []
  queue : queued t.proxy.queue ≡ []
  running : t.running ≡ s.running
  served : t.served ≡ s.served ++ queued s.proxy.queue

Reach-before :
    {N : Network} {s t u : System} → Step true N s t → Reach true N t u → Reach true N s u
Reach-before e here = step here e
Reach-before e (step r e') = step (Reach-before e r) e'

serve_all :
    (N : Network) (waiting : List RequestContext) (s : System)
    → s.waiting ≡ waiting
    → any_available s.proxy.state.workers ≡ true
    → queued s.proxy.queue ≡ map (λ ctx. ctx.request_id) waiting
    → (t : System) × Reach true N s t × Drained s t
serve_all N [] s e free q = (
  s,
  here,
  record { waiting = e; queue = q; running = refl; served = cc (q, append-nil s.served) },
)
serve_all N (ctx ∷ more) s e free q =
    let p = s.proxy in
    let (w, found) = pop_available-finds p.state.workers free in
    let (p', ctx', run) = poll-first ctx p (map (λ c. c.request_id) more) w q found in
    let r = poll-Polled ctx ctx' p p' run in
    let s1 = record s {
      proxy = p';
      waiting = more;
      running = ctx' ∷ s.running;
      served = s.served ++ ctx.request_id ∷ [];
    } in
    let s2 = record s1 { proxy = (logging ctx' p').0; running = s.running } in
    let first : Step true N s s1 = starts [] more ctx ctx' p' e run in
    let last : Step true N s1 s2 = ends [] s.running ctx' refl in
    let same = logging-queue ctx' p' in
    let rest : queued p'.queue ≡ map (λ c. c.request_id) more = ground (arith, r.first, q) in
    let (t, reach, d) = serve_all N more s2 refl (gives_back ctx ctx' p p' r) (cc (same, rest)) in
    (
      t,
      Reach-before first (Reach-before last reach),
      record {
        waiting = d.waiting;
        queue = d.queue;
        running = d.running;
        served = cc (
          d.served,
          r.first,
          same,
          append_assoc s.served (ctx.request_id ∷ []) (queued p'.queue),
        );
      },
    )

-- From every system that has an available worker, and whose waiting requests are those of the queue in
-- its order, there is a sequence of steps after which no request waits, the queue is empty, all of the
-- queue has been served in its order, and no other request runs than before.
pub drain :
    (N : Network) (s : System)
    → any_available s.proxy.state.workers ≡ true
    → queued s.proxy.queue ≡ map (λ ctx. ctx.request_id) s.waiting
    → (t : System) × Reach true N s t
      × (t.waiting ≡ [])
      × (queued t.proxy.queue ≡ [])
      × (t.running ≡ s.running)
      × (t.served ≡ s.served ++ queued s.proxy.queue)
drain N s free q =
    let (t, reach, d) = serve_all N s.waiting s refl free q in
    (t, reach, d.waiting, d.queue, d.running, d.served)
