-- ===== src/RemoteProver/Worker.antt =====
-- The workers of the proxy, bin/remote-prover/src/proxy/worker.rs, with the method names of `Worker`;
-- also the proof types of bin/remote-prover/src/api/prover.rs and the errors of
-- bin/remote-prover/src/error.rs. A time is in nanoseconds, and an address and a text are numbers.
pub mod Failures
use miden_node.Prelude.{
  ℕ, ◌+◌, ◌-◌, ◌*◌, ◌==◌, Bool, true, false, not, Option, none, some, ltb, if◌then◌else◌, Result,
  ok, err,
}
use Prim.Native.Nat.{◌^◌, min}

pub data ProofType : Type 0 where
  transaction : ProofType
  batch : ProofType
  block : ProofType

abbrev pub proof_type_eq : ProofType → ProofType → Bool
proof_type_eq transaction transaction = true
proof_type_eq batch batch = true
proof_type_eq block block = true
proof_type_eq _ _ = false

pub data RemoteProverError : Type 0 where
  invalid_uri : ℕ → RemoteProverError
  connection_failed : ℕ → RemoteProverError
  backend_creation_failed : RemoteProverError
  pingora_config_failed : ℕ → RemoteProverError
  parse_error : RemoteProverError
  port_already_in_use : ℕ → RemoteProverError

-- The errors of `check_status`, which are texts: `reported` and `answered` hold a text of another
-- crate.
pub data Reason : Type 0 where
  failed_to_create : RemoteProverError → Reason
  failed_to_recreate : RemoteProverError → Reason
  answered : ℕ → Reason
  empty_version : Reason
  invalid_version : ℕ → Reason
  unknown_proof_type : ℕ → Reason
  unsupported_proof_type : ProofType → Reason

-- A time in nanoseconds.
abbrev pub Instant : Type 0
Instant = ℕ

pub data WorkerHealthStatus : Type 0 where
  healthy : WorkerHealthStatus
  unhealthy : ℕ → Instant → Reason → WorkerHealthStatus
  unknown : WorkerHealthStatus

-- The backend is its address, and of the client only counts whether there is one.
pub record Worker : Type 0 where
  pub backend : ℕ
  pub status_client : Bool
  pub is_available : Bool
  pub health_status : WorkerHealthStatus
  pub version : ℕ
  pub connection_timeout : ℕ
  pub total_timeout : ℕ

-- The answer of a worker to a status request.
pub record WorkerStatus : Type 0 where
  pub version : ℕ
  pub supported_proof_type : ℕ

-- What other crates answer about an address: whether it is one, the connection to it, and its status.
-- `empty` is the empty text, `version_matches` the requirement on versions (`none` if the text is
-- malformed), and `to_proof_type` the conversion of the generated code.
pub record Network : Type 0 where
  pub is_address : ℕ → Bool
  pub create_status_client : ℕ → Result (Unit {0}) RemoteProverError
  pub status : ℕ → Result WorkerStatus ℕ
  pub empty : ℕ
  pub version_matches : ℕ → Option Bool
  pub to_proof_type : ℕ → Option ProofType

abbrev pub max_backoff_exponent : ℕ
max_backoff_exponent = 9

abbrev pub nanos_per_sec : ℕ
nanos_per_sec = 1_000_000_000

-- `2u64.pow(failed_attempts.min(MAX_BACKOFF_EXPONENT) as u32)` seconds.
unfoldable pub backoff : ℕ → ℕ
backoff failed_attempts = 2 ^ min failed_attempts max_backoff_exponent * nanos_per_sec

unfoldable pub is_healthy : Worker → Bool
is_healthy w = elim w.health_status [ unhealthy _ _ _ ↦ false | _ ↦ true ]

unfoldable pub num_failures : Worker → ℕ
num_failures w = elim w.health_status [ unhealthy failed_attempts _ _ ↦ failed_attempts | _ ↦ 0 ]

unfoldable pub should_do_health_check : Worker → Instant → Bool
should_do_health_check w now = elim w.health_status [
  | healthy ↦ true
  | unknown ↦ true
  | unhealthy failed_attempts first_fail _ ↦ ltb (backoff failed_attempts) (now - first_fail)
]

unfoldable pub set_availability : Bool → Worker → Worker
set_availability available w = record w { is_available = available }

unfoldable pub set_health_status : WorkerHealthStatus → Worker → Worker
unfolding is_healthy
set_health_status status w =
    let available = if not (is_healthy w) then true else w.is_available in
    elim status [
      | unhealthy n at reason ↦ record w {
        health_status = unhealthy n at reason;
        is_available = false;
      }
      | other ↦ record w { health_status = other; is_available = available }
    ]

-- The timestamp of the first failure of the row.
abbrev pub first_fail_timestamp : Worker → Instant → Instant
first_fail_timestamp w now = elim w.health_status [
  | unhealthy _ first_fail _ ↦ first_fail
  | _ ↦ now
]

unfoldable pub update_status : Result (Unit {0}) Reason → Instant → Worker → Worker
update_status (ok _) now w = set_health_status healthy w
update_status (err reason) now w =
    set_health_status (unhealthy (num_failures w + 1) (first_fail_timestamp w now) reason) w

module _ (N : Network) where
  open N use {is_address, create_status_client, status, empty, version_matches, to_proof_type}

  unfoldable pub new : ℕ → ℕ → ℕ → Instant → Result Worker RemoteProverError
  new address connection_timeout total_timeout now =
      if not (is_address address)
      then err backend_creation_failed
      else ok (elim (create_status_client address) [
        | ok _ ↦ record {
          backend = address;
          status_client = true;
          is_available = true;
          health_status = unknown;
          version = empty;
          connection_timeout = connection_timeout;
          total_timeout = total_timeout;
        }
        | err e ↦ record {
          backend = address;
          status_client = false;
          is_available = false;
          health_status = unhealthy 1 now (failed_to_create e);
          version = empty;
          connection_timeout = connection_timeout;
          total_timeout = total_timeout;
        }
      ])

  unfoldable pub recreate_status_client : Worker → Worker × Result (Unit {0}) RemoteProverError
  recreate_status_client w = elim (create_status_client w.backend) [
    | ok _ ↦ (record w { status_client = true }, ok tt)
    | err e ↦ (w, err e)
  ]

  -- `check_status`, behind the answer of the worker.
  unfoldable pub check_answer :
      ProofType → WorkerStatus → Worker → Worker × Result (Unit {0}) Reason
  check_answer supported_proof_type answer w =
      if answer.version == empty
      then (w, err empty_version)
      else if not (elim (version_matches answer.version) [ some true ↦ true | _ ↦ false ])
      then (w, err (invalid_version answer.version))
      else (
        record w { version = answer.version },
        elim (to_proof_type answer.supported_proof_type) [
          | none ↦ err (unknown_proof_type answer.supported_proof_type)
          | some worker_type ↦
              if proof_type_eq supported_proof_type worker_type
              then ok tt
              else err (unsupported_proof_type supported_proof_type)
        ],
      )

  -- `check_status`, with a client.
  unfoldable pub request_status : ProofType → Worker → Worker × Result (Unit {0}) Reason
  request_status supported_proof_type w = elim (status w.backend) [
    | err message ↦ (w, err (answered message))
    | ok answer ↦ check_answer supported_proof_type answer w
  ]

  unfoldable pub check_status : ProofType → Instant → Worker → Worker × Result (Unit {0}) Reason
  check_status supported_proof_type now w =
      if not (should_do_health_check w now)
      then (w, ok tt)
      else if w.status_client
      then request_status supported_proof_type w
      else let (w', created) = recreate_status_client w in
        elim created [
          | err e ↦ (w', err (failed_to_recreate e))
          | ok _ ↦ request_status supported_proof_type w'
        ]
