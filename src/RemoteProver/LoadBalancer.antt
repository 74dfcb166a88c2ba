-- ===== src/RemoteProver/LoadBalancer.antt =====
-- The workers that the proxy balances, `LoadBalancerState` of bin/remote-prover/src/proxy/mod.rs with
-- its method names, and the health checks of bin/remote-prover/src/proxy/health_check.rs. The metrics
-- are left out. The lock is held through each operation.
pub mod Workers
pub mod Creation
pub mod Health
pub mod Backoff
use miden_node.Prelude.{
  ℕ, ◌==◌, Bool, true, false, not, Option, none, some, List, [], ◌∷◌, ◌++◌, length, filter, any,
  if◌then◌else◌, Result, ok, err,
}
use miden_node.RemoteProver.Worker.{
  Worker, Network, Instant, ProofType, RemoteProverError, new as new_worker, set_availability,
  check_status, update_status,
}

-- The fields of `ProxyConfig` that the proxy uses.
pub record ProxyConfig : Type 0 where
  pub timeout : ℕ
  pub connection_timeout : ℕ
  pub max_queue_items : ℕ
  pub max_retries_per_request : ℕ
  pub max_req_per_sec : ℕ
  pub available_workers_polling_interval : ℕ
  pub health_check_interval : ℕ
  pub proof_type : ProofType

pub record LoadBalancerState : Type 0 where
  pub workers : List Worker
  pub config : ProxyConfig

pub data Action : Type 0 where
  add : Action
  remove : Action

pub record UpdateWorkers : Type 0 where
  pub action : Action
  pub workers : List ℕ

-- Equality of workers is that of their backends.
abbrev pub same_worker : Worker → Worker → Bool
same_worker v w = v.backend == w.backend

-- `iter_mut().find(|w| w.is_available())`, with the found worker marked as unavailable.
unfoldable pub pop_available : List Worker → List Worker × Option Worker
pop_available [] = ([], none)
pop_available (w ∷ ws) =
    let taken = set_availability false w in
    let (ws', found) = pop_available ws in
    if w.is_available then (taken ∷ ws, some taken) else (w ∷ ws', found)

unfoldable pub pop_available_worker : LoadBalancerState → LoadBalancerState × Option Worker
pop_available_worker s =
    let (workers, found) = pop_available s.workers in (record s { workers = workers }, found)

-- `position` and `remove`, of the first worker with the backend.
unfoldable pub take_worker : ℕ → List Worker → Option (Worker × List Worker)
take_worker backend [] = none
take_worker backend (w ∷ ws) =
    let rest = take_worker backend ws in
    if w.backend == backend
    then some (w, ws)
    else elim rest [ none ↦ none | some (v, vs) ↦ some (v, w ∷ vs) ]

unfoldable pub add_available_worker : Worker → LoadBalancerState → LoadBalancerState
add_available_worker worker s = elim (take_worker worker.backend s.workers) [
  | none ↦ s
  | some (w, ws) ↦ record s { workers = ws ++ set_availability true w ∷ [] }
]

-- The loop of the addition.
unfoldable pub add_workers : List Worker → List Worker → List Worker
add_workers [] workers = workers
add_workers (w ∷ ws) workers =
    add_workers ws (if any (same_worker w) workers then workers else workers ++ w ∷ [])

-- The loop of the removal.
unfoldable pub remove_workers : List Worker → List Worker → List Worker
remove_workers [] workers = workers
remove_workers (w ∷ ws) workers = remove_workers ws (filter (λ v. not (same_worker v w)) workers)

unfoldable pub num_workers : LoadBalancerState → ℕ
num_workers s = length s.workers

unfoldable pub num_busy_workers : LoadBalancerState → ℕ
num_busy_workers s = length (filter (λ w. not w.is_available) s.workers)

module _ (N : Network) where
  -- The loop of `new`, which skips the workers that cannot be created.
  unfoldable pub initial : List ℕ → ProxyConfig → Instant → List Worker
  initial [] config now = []
  initial (address ∷ addresses) config now =
      let rest = initial addresses config now in
      elim (new_worker N address config.connection_timeout config.timeout now) [
        | err _ ↦ rest
        | ok w ↦ w ∷ rest
      ]

  unfoldable pub new : List ℕ → ProxyConfig → Instant → LoadBalancerState
  new initial_workers config now = record {
    workers = initial initial_workers config now;
    config = config;
  }

  -- The loop of `update_workers` that creates the workers; the first failure ends it.
  unfoldable pub create_workers :
      List ℕ → ProxyConfig → Instant → Result (List Worker) RemoteProverError
  create_workers [] config now = ok []
  create_workers (address ∷ addresses) config now =
      let rest = create_workers addresses config now in
      elim (new_worker N address config.connection_timeout config.timeout now) [
        | err e ↦ err e
        | ok w ↦ elim rest [ err e ↦ err e | ok ws ↦ ok (w ∷ ws) ]
      ]

  unfoldable pub update_workers :
      UpdateWorkers
      → Instant
      → LoadBalancerState
      → LoadBalancerState × Result (Unit {0}) RemoteProverError
  update_workers update now s = elim (create_workers update.workers s.config now) [
    | err e ↦ (s, err e)
    | ok native_workers ↦ elim update.action [
      | add ↦ (record s { workers = add_workers native_workers s.workers }, ok tt)
      | remove ↦ (record s { workers = remove_workers native_workers s.workers }, ok tt)
    ]
  ]

  -- The health check of one worker.
  unfoldable pub check_worker : ProofType → Instant → Worker → Worker
  check_worker proof_type now w =
      let (w', status_result) = check_status N proof_type now w in
      update_status status_result now w'

  -- The loop of the health check.
  unfoldable pub check_workers : ProofType → Instant → List Worker → List Worker
  check_workers proof_type now [] = []
  check_workers proof_type now (w ∷ ws) =
      check_worker proof_type now w ∷ check_workers proof_type now ws

  -- A round of the health check; all of it at one time.
  unfoldable pub health_check : Instant → LoadBalancerState → LoadBalancerState
  health_check now s = record s { workers = check_workers s.config.proof_type now s.workers }
