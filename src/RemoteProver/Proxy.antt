-- ===== src/RemoteProver/Proxy.antt =====
-- The life of a request in the proxy, `RequestQueue` and `LoadBalancer` of
-- bin/remote-prover/src/proxy/mod.rs, with their method names. The metrics, headers and spans are left
-- out; an identifier of a request is a number.
pub mod Answers
pub mod Retries
use miden_node.Prelude.{
  ℕ, ◌+◌, ◌==◌, Bool, true, false, not, Option, none, some, List, [], ◌∷◌, ◌++◌, length, ltb, leb,
  if◌then◌else◌,
}
use miden_node.RemoteProver.Worker.{Worker, Instant}
use miden_node.RemoteProver.LoadBalancer.{
  LoadBalancerState, pop_available_worker, add_available_worker,
}

-- The identifiers, and when they were enqueued.
abbrev pub RequestQueue : Type 0
RequestQueue = List (ℕ × Instant)

unfoldable pub enqueue : ℕ → Instant → RequestQueue → RequestQueue
enqueue request_id now queue = queue ++ (request_id, now) ∷ []

unfoldable pub dequeue : RequestQueue → RequestQueue × Option ℕ
dequeue [] = ([], none)
dequeue ((request_id, _) ∷ queue) = (queue, some request_id)

unfoldable pub peek : RequestQueue → Option ℕ
peek [] = none
peek ((request_id, _) ∷ queue) = some request_id

-- The proxy: its workers, and the queue.
pub record Proxy : Type 0 where
  pub state : LoadBalancerState
  pub queue : RequestQueue

pub record RequestContext : Type 0 where
  pub tries : ℕ
  pub request_id : ℕ
  pub worker : Option Worker
  pub created_at : Instant

unfoldable pub new : ℕ → Instant → RequestContext
new request_id now = record { tries = 0; request_id = request_id; worker = none; created_at = now }

unfoldable pub set_worker : Worker → RequestContext → RequestContext
set_worker worker ctx = record ctx { worker = some worker }

-- What `request_filter` answers: the request goes on, or a response with this status.
pub data Filtered : Type 0 where
  goes_on : Filtered
  bad_request : Filtered
  too_many_requests : Filtered
  queue_full : Filtered

-- The address of the client, if it has one, and its requests in the current window.
unfoldable pub request_filter : Option ℕ → ℕ → Proxy → Filtered
request_filter none curr_window_requests proxy = bad_request
request_filter (some client_addr) curr_window_requests proxy =
    if ltb proxy.state.config.max_req_per_sec curr_window_requests
    then too_many_requests
    else if leb proxy.state.config.max_queue_items (length proxy.queue)
    then queue_full
    else goes_on

-- The start of `upstream_peer`.
unfoldable pub arrive : RequestContext → Instant → Proxy → Proxy
arrive ctx now proxy = record proxy { queue = enqueue ctx.request_id now proxy.queue }

-- A round of the loop of `upstream_peer`, with what is behind the loop: `true` if the request has a
-- worker. `none` is the panic on an empty queue.
unfoldable pub poll : RequestContext → Proxy → Option (Proxy × RequestContext × Bool)
poll ctx proxy = elim (peek proxy.queue) [
  | none ↦ none
  | some first ↦
      let (state, found) = pop_available_worker proxy.state in
      if not (first == ctx.request_id) then some (proxy, ctx, false) else elim found [
        | none ↦ some (proxy, ctx, false)
        | some worker ↦
            some (
              record { state = state; queue = (dequeue proxy.queue).0 },
              set_worker worker ctx,
              true,
            )
      ]
]

-- The retry that a failed connection asks for.
unfoldable pub fail_to_connect : Proxy → RequestContext → RequestContext × Bool
fail_to_connect proxy ctx =
    if ltb proxy.state.config.max_retries_per_request ctx.tries
    then (ctx, false)
    else (record ctx { tries = ctx.tries + 1 }, true)

-- The end of a request.
unfoldable pub logging : RequestContext → Proxy → Proxy × RequestContext
logging ctx proxy = elim ctx.worker [
  | none ↦ (proxy, ctx)
  | some worker ↦ (
    record proxy { state = add_available_worker worker proxy.state },
    record ctx { worker = none },
  )
]
