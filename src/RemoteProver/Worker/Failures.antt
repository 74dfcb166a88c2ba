-- ===== src/RemoteProver/Worker/Failures.antt =====
-- Failures in a row, `update_status` and `should_do_health_check` of
-- bin/remote-prover/src/proxy/worker.rs.
use miden_node.Prelude.{
  ℕ, ◌≡◌, refl, true, false, List, [], ◌∷◌, arith, length, ◌+◌, ◌-◌, ◌*◌, ltb, err,
}
use mathlib.Core.Path.{subst}
use Prim.Native.Nat.{◌^◌, min}
use miden_node.RemoteProver.Worker.{
  Worker, Instant, Reason, WorkerHealthStatus, unhealthy, healthy, unknown, is_healthy,
  num_failures, backoff, should_do_health_check, set_health_status, update_status,
}

-- Failures, each with its time.
abbrev pub fails : List (Instant × Reason) → Worker → Worker
fails [] w = w
fails ((now, reason) ∷ more) w = fails more (update_status (err reason) now w)

-- What a row of failures leaves: their number, and the time of the first.
record IsFailing (n : ℕ) (first : Instant) (w : Worker) : Type 0 where
  failures : num_failures w ≡ n
  unavailable : w.is_available ≡ false
  next_check : (now : Instant) → should_do_health_check w now ≡ ltb (backoff n) (now - first)
  sick : (reason : Reason) × (w.health_status ≡ unhealthy n first reason)

failing :
    (n : ℕ) (first : Instant) (reason : Reason) (w : Worker)
    → w.health_status ≡ unhealthy n first reason
    → w.is_available ≡ false
    → IsFailing n first w
unfolding num_failures should_do_health_check
failing n first reason w h off = record {
  failures = ground (arith, h);
  unavailable = off;
  next_check = λ now. ground (arith, h);
  sick = (reason, h);
}

first_failure :
    (now : Instant) (reason : Reason) (w : Worker)
    → is_healthy w ≡ true
    → IsFailing 1 now (update_status (err reason) now w)
unfolding update_status set_health_status is_healthy num_failures
first_failure now reason w h =
    failing 1 now reason (update_status (err reason) now w) (go w.health_status refl) refl
  where
    go :
        (s : WorkerHealthStatus)
        → w.health_status ≡ s
        → (update_status (err reason) now w).health_status ≡ unhealthy 1 now reason
    go healthy e = ground (arith, e)
    go unknown e = ground (arith, e)
    go (unhealthy _ _ _) e = absurd (ground (arith, e, h))

next_failure :
    (n : ℕ) (first now : Instant) (reason : Reason) (w : Worker)
    → IsFailing n first w
    → IsFailing (n + 1) first (update_status (err reason) now w)
unfolding update_status set_health_status num_failures
next_failure n first now reason w f =
    let (before, h) = f.sick in
    failing (n + 1) first reason (update_status (err reason) now w) (ground (arith, h))
      (ground (arith, h))

fails-IsFailing :
    (n : ℕ) (first : Instant) (more : List (Instant × Reason)) (w : Worker)
    → IsFailing n first w
    → IsFailing (n + length more) first (fails more w)
fails-IsFailing n first [] w f = subst (λ k. IsFailing k first w) (omega arith) f
fails-IsFailing n first ((now, reason) ∷ more) w f =
    let rest =
      fails-IsFailing (n + 1) first more (update_status (err reason) now w)
        (next_failure n first now reason w f) in
    subst (λ k. IsFailing k first (fails more (update_status (err reason) now w))) (omega arith)
      rest

-- After a failure of a worker that was healthy and any number of further failures, the number of
-- failures is their count, the worker is unavailable, and a health check is due exactly when more than
-- 2^k seconds have passed since the first of these failures, where k is the count, and 9 at most.
pub fails-backoff :
    (w : Worker) (first : Instant) (reason : Reason) (more : List (Instant × Reason))
    → is_healthy w ≡ true
    → (num_failures (fails ((first, reason) ∷ more) w) ≡ 1 + length more)
      × ((fails ((first, reason) ∷ more) w).is_available ≡ false)
      × ((now : Instant)
          → should_do_health_check (fails ((first, reason) ∷ more) w) now
            ≡ ltb (2 ^ min (1 + length more) 9 * 1_000_000_000) (now - first))
unfolding backoff
fails-backoff w first reason more h =
    let f =
      fails-IsFailing 1 first more (update_status (err reason) first w)
        (first_failure first reason w h) in
    (f.failures, f.unavailable, f.next_check)
