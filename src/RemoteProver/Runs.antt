-- ===== src/RemoteProver/Runs.antt =====
-- The runs of the proxy of bin/remote-prover/src/proxy/mod.rs: its requests, which are served at the
-- same time, between the health checks and the updates of the workers. A step is what one of them does
-- under the locks. Whether a connection fails is open, and so is the order of the steps.
pub mod Order
pub mod Exclusive
pub mod Drain
use miden_node.Prelude.{ℕ, Bool, ◌≡◌, true, false, some, List, [], ◌∷◌, ◌++◌, all, not, ◌||◌, none}
use miden_node.Collections.BTreeSet.{contains}
use miden_node.Collections.Distinct.{IsDistinct}
use miden_node.RemoteProver.Worker.{Worker, Network, Instant, is_healthy}
use miden_node.RemoteProver.LoadBalancer.{
  LoadBalancerState, ProxyConfig, UpdateWorkers, Action, add, remove, update_workers, health_check,
  new as new_state,
}
use miden_node.RemoteProver.Proxy.{
  Proxy, RequestContext, new, arrive, poll, fail_to_connect, logging,
}

-- The proxy with the contexts of its requests: those that wait for a worker and those that have one.
-- Each entry into the queue counts as an arrival, and `served` has the requests that got a worker.
pub record System : Type 0 where
  pub proxy : Proxy
  pub waiting : List RequestContext
  pub running : List RequestContext
  pub arrived : List ℕ
  pub served : List ℕ

-- The addresses of the workers that have a request.
abbrev pub held : List RequestContext → List ℕ
held [] = []
held (ctx ∷ more) = elim ctx.worker [ none ↦ held more | some w ↦ w.backend ∷ held more ]

-- No worker that has a request is unhealthy.
abbrev pub HeldHealthy : List ℕ → List Worker → Type 0
HeldHealthy busy ws = all (λ w. not (contains w.backend busy) || is_healthy w) ws ≡ true

abbrev pub UnheldIf : List ℕ → List ℕ → Action → Type 0
UnheldIf addresses busy remove = Unit
UnheldIf addresses busy add = (b : ℕ) → contains b addresses ≡ true → contains b busy ≡ false

-- No worker that has a request is added.
abbrev pub NoneHeld : UpdateWorkers → System → Type 0
NoneHeld update s = UnheldIf update.workers (held s.running) update.action

-- What a step asks for, if the run is a careful one.
abbrev pub When : Bool → Type 0 → Type 0
When true A = A
When false A = Unit

-- The steps. In a careful run no health check finds a worker unhealthy that has a request, and no
-- update adds one that has; otherwise checks and updates are free.
pub data Step (careful : Bool) (N : Network) (s : System) : System → Type 0 where
  arrives :
      (request_id : ℕ) (now : Instant)
      → Step careful N s (record s {
        proxy = arrive (new request_id now) now s.proxy;
        waiting = s.waiting ++ new request_id now ∷ [];
        arrived = s.arrived ++ request_id ∷ [];
      })
  starts :
      (xs ys : List RequestContext) (ctx ctx' : RequestContext) (p : Proxy)
      → s.waiting ≡ xs ++ ctx ∷ ys
      → poll ctx s.proxy ≡ some (p, ctx', true)
      → Step careful N s (record s {
        proxy = p;
        waiting = xs ++ ys;
        running = ctx' ∷ s.running;
        served = s.served ++ ctx.request_id ∷ [];
      })
  retries :
      (xs ys : List RequestContext) (ctx ctx' : RequestContext) (now : Instant)
      → s.running ≡ xs ++ ctx ∷ ys
      → fail_to_connect s.proxy ctx ≡ (ctx', true)
      → Step careful N s (record s {
        proxy = arrive ctx' now s.proxy;
        waiting = s.waiting ++ ctx' ∷ [];
        running = xs ++ ys;
        arrived = s.arrived ++ ctx'.request_id ∷ [];
      })
  ends :
      (xs ys : List RequestContext) (ctx : RequestContext)
      → s.running ≡ xs ++ ctx ∷ ys
      → Step careful N s (record s { proxy = (logging ctx s.proxy).0; running = xs ++ ys })
  checks :
      (now : Instant)
      → When careful (HeldHealthy (held s.running) s.proxy.state.workers)
      → Step careful N s
          (record s { proxy = record (s.proxy) { state = health_check N now s.proxy.state } })
  updates :
      (update : UpdateWorkers) (now : Instant)
      → When careful (NoneHeld update s)
      → Step careful N s (record s {
        proxy = record (s.proxy) { state = (update_workers N update now s.proxy.state).0 };
      })

-- The start, with workers at these addresses.
abbrev pub start : Network → List ℕ → ProxyConfig → Instant → System
start N addresses config now = record {
  proxy = record { state = new_state N addresses config now; queue = [] };
  waiting = [];
  running = [];
  arrived = [];
  served = [];
}

-- From a system on.
pub data Reach (careful : Bool) (N : Network) (s : System) : System → Type 0 where
  here : Reach careful N s s
  step : {t u : System} → Reach careful N s t → Step careful N t u → Reach careful N s u
