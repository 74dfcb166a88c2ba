-- ===== src/RemoteProver/LoadBalancer/Health.antt =====
-- The health of a worker under its checks: bin/remote-prover/src/proxy/worker.rs and
-- bin/remote-prover/src/proxy/health_check.rs.
use miden_node.Prelude.{◌≡◌, true, false, arith, Result, ok, err}
use miden_node.RemoteProver.Worker.{
  Worker, Network, Instant, ProofType, Reason, is_healthy, set_health_status, update_status,
  recreate_status_client, check_answer, request_status, check_status,
}
use miden_node.RemoteProver.LoadBalancer.{check_worker}

-- What a check leaves alone: it writes the client and the version.
record Checked (w w' : Worker) : Type 0 where
  backend : w'.backend ≡ w.backend
  is_available : w'.is_available ≡ w.is_available
  health_status : w'.health_status ≡ w.health_status

module _ (N : Network) where
  request_status-Checked : (p : ProofType) (w : Worker) → Checked w (request_status N p w).0
  unfolding request_status check_answer
  request_status-Checked p w = record {
    backend = ground arith;
    is_available = ground arith;
    health_status = ground arith;
  }

  check_status-Checked :
      (p : ProofType) (now : Instant) (w : Worker) → Checked w (check_status N p now w).0
  unfolding check_status recreate_status_client
  check_status-Checked p now w =
      let c = request_status-Checked p w in
      let c' = request_status-Checked p (record w { status_client = true }) in
      record {
        backend = ground (arith, c.backend, c'.backend);
        is_available = ground (arith, c.is_available, c'.is_available);
        health_status = ground (arith, c.health_status, c'.health_status);
      }

  update_status-backend :
      (r : Result (Unit {0}) Reason) (now : Instant) (w : Worker)
      → (update_status r now w).backend ≡ w.backend
  unfolding update_status set_health_status
  update_status-backend (ok _) now w = ground arith
  update_status-backend (err e) now w = ground arith

  -- A healthy worker that is busy is not made available.
  update_status-busy :
      (r : Result (Unit {0}) Reason) (now : Instant) (w : Worker)
      → is_healthy w ≡ true
      → w.is_available ≡ false
      → (update_status r now w).is_available ≡ false
  unfolding update_status set_health_status
  update_status-busy (ok _) now w h busy = ground arith
  update_status-busy (err e) now w h busy = ground arith

  pub check_worker-backend :
      (p : ProofType) (now : Instant) (w : Worker) → (check_worker N p now w).backend ≡ w.backend
  unfolding check_worker
  check_worker-backend p now w =
      let c = check_status-Checked p now w in
      ground (
        arith,
        c.backend,
        update_status-backend (check_status N p now w).1 now (check_status N p now w).0,
      )

  pub check_worker-busy :
      (p : ProofType) (now : Instant) (w : Worker)
      → is_healthy w ≡ true
      → w.is_available ≡ false
      → (check_worker N p now w).is_available ≡ false
  unfolding check_worker is_healthy
  check_worker-busy p now w h busy =
      let c = check_status-Checked p now w in
      update_status-busy (check_status N p now w).1 now (check_status N p now w).0
        (ground (arith, c.health_status)) (ground (arith, c.is_available))
