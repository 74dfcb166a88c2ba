-- ===== src/RemoteProver/Runs/Order.antt =====
-- The queue of the proxy of bin/remote-prover/src/proxy/mod.rs in its runs: its order, and its end.
use miden_node.Prelude.{ℕ, ◌≡◌, ◌≢◌, refl, false, none, List, [], ◌∷◌, ◌++◌, arith, length, ◌+◌}
use mathlib.Core.List.{append_assoc}
use miden_node.RemoteProver.Worker.{Network, Instant}
use miden_node.RemoteProver.LoadBalancer.{ProxyConfig}
use miden_node.RemoteProver.Proxy.{RequestContext, new, poll, arrive}
use miden_node.RemoteProver.Proxy.Answers.{
  queued, poll-Polled, poll-none, arrive-queued, logging-queue,
}
use miden_node.RemoteProver.Runs.{
  System, Step, start, Reach, arrives, starts, retries, ends, checks, updates, here, step,
}

-- The requests got their workers in the order of the arrivals, those that have none are in the queue,
-- and as many requests wait as are in the queue.
pub record IsOrdered (s : System) : Type 0 where
  pub order : s.arrived ≡ s.served ++ queued s.proxy.queue
  pub as_many : length s.waiting ≡ length (queued s.proxy.queue)

length-rotate : {A : Type 0} → (xs : List A) (x : A) → length (xs ++ x ∷ []) ≡ length xs + 1
length-rotate [] x = refl
length-rotate (y ∷ xs) x = ground (arith, length-rotate xs x)

length-middle :
    {A : Type 0} → (xs ys : List A) (x : A) → length (xs ++ x ∷ ys) ≡ length (xs ++ ys) + 1
length-middle [] ys x = omega arith
length-middle (y ∷ xs) ys x = ground (arith, length-middle xs ys x)

-- A request that enters the queue at its end.
enters-IsOrdered :
    (s : System) (ctx : RequestContext) (now : Instant) (rest : List RequestContext)
    → IsOrdered s
    → IsOrdered (record s {
      proxy = arrive ctx now s.proxy;
      waiting = s.waiting ++ ctx ∷ [];
      running = rest;
      arrived = s.arrived ++ ctx.request_id ∷ [];
    })
enters-IsOrdered s ctx now rest o =
    let at = arrive-queued ctx now s.proxy in
    record {
      order = cc (at, o.order, append_assoc s.served (queued s.proxy.queue) (ctx.request_id ∷ []));
      as_many = ground (
        arith,
        at,
        o.as_many,
        length-rotate s.waiting ctx,
        length-rotate (queued s.proxy.queue) ctx.request_id,
      );
    }

module _ (N : Network) where
  Step-IsOrdered : {s t : System} → Step false N s t → IsOrdered s → IsOrdered t
  unfolding new
  Step-IsOrdered {s} (arrives request_id now) o =
      enters-IsOrdered s (new request_id now) now s.running o
  Step-IsOrdered {s} (starts xs ys ctx ctx' p at run) o =
      let r = poll-Polled ctx ctx' s.proxy p run in
      record {
        order = cc (r.first, o.order, append_assoc s.served (ctx.request_id ∷ []) (queued p.queue));
        as_many = ground (arith, r.first, o.as_many, at, length-middle xs ys ctx);
      }
  Step-IsOrdered {s} (retries xs ys ctx ctx' now at run) o =
      enters-IsOrdered s ctx' now (xs ++ ys) o
  Step-IsOrdered {s} (ends xs ys ctx at) o =
      let same = logging-queue ctx s.proxy in
      record { order = cc (same, o.order); as_many = cc (same, o.as_many) }
  Step-IsOrdered {s} (checks now free) o = record { order = o.order; as_many = o.as_many }
  Step-IsOrdered {s} (updates update now free) o = record { order = o.order; as_many = o.as_many }

-- After every sequence of arrivals, starts, retries, ends, health checks and updates of the workers,
-- with no condition on which workers a check finds unhealthy or an update adds, the identifiers that got a worker, in the order in which they got it, followed by those in the
-- queue, are all that ever arrived, in the order of arrival, a retried one at each of its arrivals;
-- and no poll of a waiting request panics.
pub fifo :
    (N : Network) (addresses : List ℕ) (config : ProxyConfig) (now : Instant) (s : System)
    → Reach false N (start N addresses config now) s
    → (s.arrived ≡ s.served ++ queued s.proxy.queue)
      × ((xs ys : List RequestContext) (ctx : RequestContext)
          → s.waiting ≡ xs ++ ctx ∷ ys
          → poll ctx s.proxy ≢ none)
fifo N addresses config now s r =
    let o = go r in
    (
      o.order,
      λ xs ys ctx at panic.
          let empty = poll-none ctx s.proxy panic in
          absurd (ground (arith, empty, o.as_many, at, length-middle xs ys ctx)),
    )
  where
    go : {t : System} → Reach false N (start N addresses config now) t → IsOrdered t
    go here = record { order = refl; as_many = refl }
    go (step r e) = Step-IsOrdered N e (go r)
