-- ===== src/RemoteProver/Tests.antt =====
-- Runs of the proxy of bin/remote-prover on concrete inputs.
use miden_node.Prelude.{
  ℕ, ◌≡◌, refl, Bool, true, false, none, some, List, [], ◌∷◌, ◌++◌, arith, ok, ◌≢◌,
}
use miden_node.Collections.BTreeSet.{contains}
use miden_node.RemoteProver.Worker.{
  Worker, Network, Instant, transaction, answered, healthy, unhealthy, unknown, backoff,
  set_availability, new as new_worker,
}
use miden_node.RemoteProver.LoadBalancer.{
  ProxyConfig, check_worker, pop_available_worker, pop_available, initial, new as new_state,
}
use miden_node.RemoteProver.LoadBalancer.Workers.{available}
use miden_node.RemoteProver.LoadBalancer.Backoff.{check_worker-backoff}
use miden_node.RemoteProver.Proxy.{
  Proxy, RequestContext, new, poll, logging, arrive, fail_to_connect, peek, enqueue, dequeue,
  set_worker,
}
use miden_node.RemoteProver.Proxy.Retries.{retries, retries_lem, retry-leak}
use miden_node.RemoteProver.Proxy.Answers.{queued}
use miden_node.RemoteProver.Runs.{System, Reach, start, arrives, starts, here, step}
use miden_node.RemoteProver.Runs.Exclusive.{IsExclusive}
use miden_node.RemoteProver.Runs.Exclusive.Always.{exclusive}
use miden_node.RemoteProver.Runs.Order.{fifo}
use miden_node.RemoteProver.Runs.Drain.{drain}

-- Every address answers to status requests that its worker proves transactions.
abbrev network : Network
network = record {
  is_address = λ _. true;
  create_status_client = λ _. ok tt;
  status = λ _. ok (record { version = 1; supported_proof_type = 0 });
  empty = 0;
  version_matches = λ _. some true;
  to_proof_type = λ _. some transaction;
}

abbrev config : ProxyConfig
config = record {
  timeout = 100;
  connection_timeout = 10;
  max_queue_items = 10;
  max_retries_per_request = 1;
  max_req_per_sec = 5;
  available_workers_polling_interval = 20;
  health_check_interval = 1;
  proof_type = transaction;
}

abbrev worker : ℕ → Bool → Worker
worker address free = record {
  backend = address;
  status_client = true;
  is_available = free;
  health_status = unknown;
  version = 0;
  connection_timeout = 10;
  total_timeout = 100;
}

abbrev proxy : List Worker → List (ℕ × Instant) → Proxy
proxy workers queue = record {
  state = record { workers = workers; config = config };
  queue = queue;
}

abbrev running : ℕ → ℕ → RequestContext
running request_id address = record {
  tries = 0;
  request_id = request_id;
  worker = some (worker address false);
  created_at = 0;
}

-- Request 7 has worker 1, and request 8 waits.
abbrev one_runs : System
one_runs = record {
  proxy = proxy (worker 1 false ∷ worker 2 true ∷ []) ((8, 5) ∷ []);
  waiting = new 8 5 ∷ [];
  running = running 7 1 ∷ [];
  arrived = 7 ∷ 8 ∷ [];
  served = 7 ∷ [];
}

one_runs-Reach :
    {careful : Bool} → Reach careful network (start network (1 ∷ 2 ∷ []) config 0) one_runs
unfolding poll arrive new pop_available_worker pop_available new_state initial new_worker
    set_availability peek enqueue dequeue set_worker
one_runs-Reach =
    step
      (step (step here (arrives 7 0)) (
        starts [] [] (new 7 0) (running 7 1) (proxy (worker 1 false ∷ worker 2 true ∷ []) []) refl
          refl))
      (arrives 8 5)

exclusive_example : IsExclusive one_runs.proxy.state.workers one_runs.running
unfolding contains
exclusive_example =
    exclusive network (1 ∷ 2 ∷ []) config 0 one_runs (refl, (refl, tt)) one_runs-Reach

fifo_example :
    (one_runs.arrived ≡ one_runs.served ++ queued one_runs.proxy.queue)
    × ((xs ys : List RequestContext) (ctx : RequestContext)
        → new 8 5 ∷ [] ≡ xs ++ ctx ∷ ys
        → poll ctx one_runs.proxy ≢ none)
fifo_example = fifo network (1 ∷ 2 ∷ []) config 0 one_runs one_runs-Reach

drain_example :
    (t : System) × Reach true network one_runs t
    × (t.waiting ≡ [])
    × (queued t.proxy.queue ≡ [])
    × (t.running ≡ running 7 1 ∷ [])
    × (t.served ≡ 7 ∷ 8 ∷ [])
unfolding new
drain_example = drain network one_runs refl refl

abbrev sick_worker : Worker
sick_worker = record (worker 1 false) { health_status = unhealthy 3 0 (answered 9) }

-- The check after one second, where it is due after eight.
check_worker-backoff_example :
    check_worker network transaction 1_000_000_000 sick_worker
    ≡ record (worker 1 true) { health_status = healthy }
unfolding backoff
check_worker-backoff_example =
    check_worker-backoff network transaction 1_000_000_000 0 3 (answered 9) sick_worker refl
      (omega arith)

retries_lem_example : retries 3 (proxy [] []) (new 7 0) ≡ none
retries_lem_example = retries_lem 3 7 0 (proxy [] [])

-- Request 7 gets worker 1, fails to connect, and gets worker 2.
retry-leak_example :
    (w : Worker) × (some (worker 1 false) ≡ some w)
    × (available w.backend (worker 1 true ∷ worker 2 true ∷ []) ≡ true)
    × (available w.backend
          (logging
            (record (running 7 2) { tries = 1 })
            (proxy (worker 1 false ∷ worker 2 false ∷ []) [])).0.state.workers
        ≡ false)
unfolding poll arrive new pop_available_worker pop_available new_state initial new_worker
    set_availability peek enqueue dequeue set_worker contains fail_to_connect
retry-leak_example =
    retry-leak (proxy (worker 1 true ∷ worker 2 true ∷ []) ((7, 0) ∷ []))
      (proxy (worker 1 false ∷ worker 2 true ∷ []) [])
      (proxy (worker 1 false ∷ worker 2 false ∷ []) []) (new 7 0) (running 7 1)
      (record (running 7 1) { tries = 1 }) (record (running 7 2) { tries = 1 }) 4 (refl, (refl, tt))
      refl refl refl
