-- ===== src/RemoteProver/Proxy/Answers.antt =====
-- What the requests of bin/remote-prover/src/proxy/mod.rs do to the proxy.
use miden_node.Prelude.{
  ℕ, ◌≡◌, refl, ap, Bool, true, none, some, List, [], ◌∷◌, ◌++◌, arith, map, Option-cases, inl, inr,
  ◌⊎◌,
}
use mathlib.Core.Path.{subst, sym}
use miden_node.RemoteProver.Worker.{Worker, Instant, set_availability}
use miden_node.RemoteProver.LoadBalancer.{
  pop_available, pop_available_worker, take_worker, add_available_worker,
}
use miden_node.RemoteProver.Proxy.{
  RequestQueue, Proxy, RequestContext, enqueue, dequeue, peek, set_worker, arrive, poll,
  fail_to_connect, logging,
}

-- The queued identifiers, in order.
abbrev pub queued : RequestQueue → List ℕ
queued = map (λ e. e.0)

-- A request that gets a worker was the first of the queue.
pub record Polled (ctx : RequestContext) (p p' : Proxy) (ctx' : RequestContext) : Type 0 where
  pub worker : Worker
  pub found : (pop_available p.state.workers).1 ≡ some worker
  pub workers : p'.state.workers ≡ (pop_available p.state.workers).0
  pub assigned : ctx'.worker ≡ some worker
  pub same_id : ctx'.request_id ≡ ctx.request_id
  pub first : queued p.queue ≡ ctx.request_id ∷ queued p'.queue

pub poll-Polled :
    (ctx ctx' : RequestContext) (p p' : Proxy)
    → poll ctx p ≡ some (p', ctx', true)
    → Polled ctx p p' ctx'
unfolding poll peek dequeue pop_available_worker set_worker
poll-Polled ctx ctx' p p' h = go p.queue refl (Option-cases (pop_available p.state.workers).1)
  where
    go :
        (q : RequestQueue)
        → p.queue ≡ q
        → ((pop_available p.state.workers).1 ≡ none)
          ⊎ ((w : Worker) × ((pop_available p.state.workers).1 ≡ some w))
        → Polled ctx p p' ctx'
    go [] e _ = absurd (ground (arith, e, h))
    go (x ∷ q) e (inl gone) = absurd (ground (arith, e, gone, h))
    go (x ∷ q) e (inr (w, found)) = record {
      worker = w;
      found = found;
      workers = ground (arith, e, found, h);
      assigned = ground (arith, e, found, h);
      same_id = ground (arith, e, found, h);
      first = ground (arith, e, found, h);
    }

-- A poll panics on the empty queue alone.
pub poll-none : (ctx : RequestContext) (p : Proxy) → poll ctx p ≡ none → queued p.queue ≡ []
unfolding poll peek
poll-none ctx p h = go p.queue refl (Option-cases (pop_available_worker p.state).1)
  where
    go :
        (q : RequestQueue)
        → p.queue ≡ q
        → ((pop_available_worker p.state).1 ≡ none)
          ⊎ ((w : Worker) × ((pop_available_worker p.state).1 ≡ some w))
        → queued p.queue ≡ []
    go [] e _ = ground (arith, e)
    go (x ∷ q) e (inl gone) = absurd (ground (arith, e, gone, h))
    go (x ∷ q) e (inr (w, found)) = absurd (ground (arith, e, found, h))

-- The first request gets a worker if one is available.
pub poll-first :
    (ctx : RequestContext) (p : Proxy) (more : List ℕ) (w : Worker)
    → queued p.queue ≡ ctx.request_id ∷ more
    → (pop_available p.state.workers).1 ≡ some w
    → (p' : Proxy) × (ctx' : RequestContext) × (poll ctx p ≡ some (p', ctx', true))
unfolding poll peek dequeue pop_available_worker
poll-first ctx p more w first found = go p.queue refl
  where
    go :
        (q : RequestQueue)
        → p.queue ≡ q
        → (p' : Proxy) × (ctx' : RequestContext) × (poll ctx p ≡ some (p', ctx', true))
    go [] e = absurd (ground (arith, e))
    go (x ∷ q) e = (
      record { state = (pop_available_worker p.state).0; queue = (dequeue p.queue).0 },
      set_worker w ctx,
      ground (arith, e, found, first),
    )

-- The end of a request: it has no worker, or its worker is not in the list, or goes to the end.
pub data Logged (ctx : RequestContext) (p : Proxy) : List Worker → Type 0 where
  unassigned : ctx.worker ≡ none → Logged ctx p p.state.workers
  unlisted :
      (w : Worker)
      → ctx.worker ≡ some w
      → take_worker w.backend p.state.workers ≡ none
      → Logged ctx p p.state.workers
  returned :
      (w v : Worker) (vs : List Worker)
      → ctx.worker ≡ some w
      → take_worker w.backend p.state.workers ≡ some (v, vs)
      → Logged ctx p (vs ++ set_availability true v ∷ [])

pub logging-Logged :
    (ctx : RequestContext) (p : Proxy) → Logged ctx p (logging ctx p).0.state.workers
unfolding logging add_available_worker
logging-Logged ctx p = elim (Option-cases ctx.worker) [
  | inl nobody ↦ as_is (ground (arith, nobody)) (unassigned nobody)
  | inr (w, assigned) ↦ elim (Option-cases (take_worker w.backend p.state.workers)) [
    | inl gone ↦ as_is (ground (arith, assigned, gone)) (unlisted w assigned gone)
    | inr ((v, vs), found) ↦
        as_is (ground (arith, assigned, found)) (returned w v vs assigned found)
  ]
]
  where
    as_is :
        {ws : List Worker}
        → (logging ctx p).0.state.workers ≡ ws
        → Logged ctx p ws
        → Logged ctx p (logging ctx p).0.state.workers
    as_is e l = subst (λ ws. Logged ctx p ws) (sym e) l

pub logging-queue : (ctx : RequestContext) (p : Proxy) → (logging ctx p).0.queue ≡ p.queue
unfolding logging
logging-queue ctx p = ground arith

-- A retry keeps the identifier.
pub fail_to_connect-request_id :
    (p : Proxy) (ctx ctx' : RequestContext) (b : Bool)
    → fail_to_connect p ctx ≡ (ctx', b)
    → ctx'.request_id ≡ ctx.request_id
unfolding fail_to_connect
fail_to_connect-request_id p ctx ctx' b h = ground (arith, h)

queued-append :
    (q : RequestQueue) (id : ℕ) (now : Instant) → queued (q ++ (id, now) ∷ []) ≡ queued q ++ id ∷ []
queued-append [] id now = refl
queued-append ((x, _) ∷ q) id now = ap (◌∷◌ x) (queued-append q id now)

pub arrive-queued :
    (ctx : RequestContext) (now : Instant) (p : Proxy)
    → queued (arrive ctx now p).queue ≡ queued p.queue ++ ctx.request_id ∷ []
unfolding arrive enqueue
arrive-queued ctx now p = queued-append p.queue ctx.request_id now
