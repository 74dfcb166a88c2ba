-- ===== src/RemoteProver/LoadBalancer/Backoff.antt =====
-- The health check of an unhealthy worker that is not due: `check_status` of
-- bin/remote-prover/src/proxy/worker.rs and the loop of bin/remote-prover/src/proxy/health_check.rs.
use miden_node.Prelude.{ℕ, ◌≡◌, ◌≤◌, ◌-◌, true, arith}
use miden_node.RemoteProver.Worker.{
  Worker, Network, Instant, ProofType, Reason, healthy, unhealthy, is_healthy, backoff,
  should_do_health_check, set_health_status, update_status, check_status,
}
use miden_node.RemoteProver.LoadBalancer.{check_worker}

-- The check of a worker that has failed `n` times, the first time at `first`, and whose next check is
-- not due, makes the worker healthy and available, whatever the worker would answer.
pub check_worker-backoff :
    (N : Network) (p : ProofType) (now first : Instant) (n : ℕ) (reason : Reason) (w : Worker)
    → w.health_status ≡ unhealthy n first reason
    → now - first ≤ backoff n
    → check_worker N p now w ≡ record w { health_status = healthy; is_available = true }
unfolding check_worker check_status should_do_health_check update_status set_health_status
    is_healthy
check_worker-backoff N p now first n reason w h early = ground (arith, h, early)
