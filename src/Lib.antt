-- ===== src/Lib.antt =====
-- The parts of the repository that hold state and decide: the mempool of the block producer, the state
-- of the network transaction builder, the store's state, the proof of work of the faucet, the
-- proxy of the remote prover, and the check of a client's version.
--
-- The mempool, crates/block-producer/src/mempool. A transaction that is submitted to the node is
-- checked against the inflight state, which layers the uncommitted transactions over the recently
-- committed blocks. It is then queued in a graph of transactions, whose roots are selected into
-- batches; a batch is queued in a graph of batches, whose proven roots are selected into blocks. Both
-- graphs are instances of one dependency graph. An admitted transaction's parents come from the
-- inflight state: the last uncommitted transaction of its account, and the creators of the
-- unauthenticated notes that it consumes.
--
-- The network transaction builder, crates/ntx-builder. It hears of the transactions that the mempool
-- adds, commits and reverts, and keeps the network accounts and the notes that wait for them. From
-- these it selects an account with its next notes, for a transaction that it then builds.
--
-- The store, crates/store. A proven block is checked against the chain and the trees in memory, written
-- to the database and to a file, and then the state in memory follows, so that it is what a restart
-- would load.
--
-- The faucet, bin/faucet. A request for tokens has to bring the solution of a challenge that the
-- server made and signed, for its account and API key, and each challenge serves once.
--
-- The proxy of the remote prover, bin/remote-prover/src/proxy. Requests wait in one queue, and the
-- first of them takes the first available worker. A worker is given back when its request ends, and a
-- request whose connection fails waits again. Health checks and updates of the list of workers come
-- between.
--
-- The files, and the code that each models:
--
--   * Collections/BTreeSet, Collections/BTreeMap: the ordered sets and maps of the standard
--     library, as ascending lists, with the operations that the code uses. Collections/Distinct: lists
--     without repetition.
--   * BlockProducer/Graph: crates/block-producer/src/mempool/graph/mod.rs, `DependencyGraph`. A
--     method that can fail returns the new graph and a `Result`. The files below it hold the
--     invariant (WellFormed) and the proofs for one method each; Descends holds paths.
--   * BlockProducer/Account: crates/block-producer/src/mempool/inflight_state/account_state.rs,
--     `InflightAccountState`.
--   * BlockProducer/Inflight: crates/block-producer/src/mempool/inflight_state/mod.rs,
--     `InflightState`, up to the admission of a transaction; Inflight/Lifecycle has the methods
--     that revert transactions, and commit and prune blocks.
--   * BlockProducer/Expirations: crates/block-producer/src/mempool/transaction_expiration.rs,
--     `TransactionExpirations`.
--   * BlockProducer/Transaction: crates/block-producer/src/domain/transaction.rs, with the inputs
--     of crates/block-producer/src/store/mod.rs and the errors of crates/block-
--     producer/src/errors.rs.
--   * BlockProducer/Budget: the budgets of crates/block-producer/src/mempool/mod.rs and the limits
--     of crates/block-producer/src/lib.rs.
--   * BlockProducer/TransactionGraph: crates/block-producer/src/mempool/transaction_graph.rs,
--     `TransactionGraph`.
--   * BlockProducer/BatchGraph: crates/block-producer/src/mempool/batch_graph.rs, `BatchGraph`.
--   * BlockProducer/Subscription: crates/block-producer/src/mempool/subscription.rs,
--     `SubscriptionProvider` and its tracker of inflight transactions (`track`, `untrack` for its
--     `insert`, `remove`), with the events of crates/proto/src/domain/mempool.rs.
--   * BlockProducer/Mempool: crates/block-producer/src/mempool/mod.rs, `Mempool`, which composes
--     the above; `subscribe_events` is its `subscribe`. Mempool/Placement, Mempool/Linked and Mempool/Batching
--     relate its parts.
--   * NtxBuilder/Account: crates/ntx-builder/src/state/account.rs, `AccountState` and
--     `NetworkAccountUpdate`, with the account prefix of crates/proto/src/domain/account.rs;
--     `account_state_is_empty` is its `is_empty`. Account/Notes has the state machine of a note.
--   * NtxBuilder/State, NtxBuilder/Added, NtxBuilder/Settled, NtxBuilder/Events:
--     crates/ntx-builder/src/state/mod.rs, `State`, with the loading and the selection, the handling
--     of an added transaction, that of a committed and a reverted one, and `mempool_update`. `rotate`
--     is one turn of the loop of `select_candidate`. Events/Reach has the runs.
--   * Faucet/Challenge: bin/faucet/src/server/challenge.rs, `Challenge`, with the errors of
--     bin/faucet/src/server/get_tokens.rs; Faucet/Bytes has the numbers as bytes.
--   * Faucet/ChallengeCache, Faucet/Pow: bin/faucet/src/server/pow.rs, `ChallengeCache` and `PoW`.
--     Pow/Replay has the runs of a server: submissions, clean-ups and the clock.
--   * Store/Block: the errors of crates/store/src/errors.rs, with the accessors of a proven block.
--   * Store/Database: the functions of crates/store/src/db/sql/mod.rs that write a block, on the tables
--     of crates/store/src/db/migrations/001-init.sql that the state in memory is loaded from;
--     `write_block` is its `apply_block`, and `select_block_header` the query of the last header.
--   * Store/State: `State` of crates/store/src/state.rs, with `apply_block` in its parts: `check_header`,
--     `save_block`, `compute_updates`, `note_records`, `write` and `update_inner`. `load_inner` is the
--     part of `load` that builds the trees. State/Chain is about the tables, State/Consistent about what
--     the parts of `apply_block` give, State/Await about the task that writes the block file, State/Grow
--     about the update in memory, State/Apply about the whole, State/LateSave about a task that a
--     refused call leaves, and State/Limit about the limit on nullifiers.
--   * Rpc/Accept: crates/rpc/src/server/accept.rs, with `tag` and `take_until` of nom on the characters of
--     a text. Accept/Parse has the form of a header value.
--   * RemoteProver/Worker: bin/remote-prover/src/proxy/worker.rs, `Worker`, with the proof types of
--     bin/remote-prover/src/api/prover.rs and the errors of bin/remote-prover/src/error.rs.
--     `check_answer` and `request_status` are parts of `check_status`. Worker/Failures has failures in
--     a row.
--   * RemoteProver/LoadBalancer: `LoadBalancerState` of bin/remote-prover/src/proxy/mod.rs, with the
--     health check of bin/remote-prover/src/proxy/health_check.rs and the updates of
--     bin/remote-prover/src/commands/update_workers.rs. LoadBalancer/Workers, LoadBalancer/Creation and
--     LoadBalancer/Health say what the operations do to the list of workers, LoadBalancer/Backoff what
--     a check does that is not due.
--   * RemoteProver/Proxy: `RequestQueue`, `RequestContext` and `LoadBalancer` of
--     bin/remote-prover/src/proxy/mod.rs; `arrive` is the start of `upstream_peer`, and `poll` a round
--     of its loop. Proxy/Retries is about `fail_to_connect`.
--   * RemoteProver/Runs: the whole proxy as a step relation. Runs/Exclusive, Runs/Order and Runs/Drain
--     are about its runs. A step of a careful run has side conditions on health checks and updates:
--     Runs/Exclusive assumes them, Runs/Order does not.
--   * BlockProducer/Outside, NtxBuilder/Outside, Store/Outside: what belongs to other crates.
--
-- Identifiers, commitments, nullifiers, block numbers and times are natural numbers: the code only
-- compares them, and adds small constants to block numbers, whose 32-bit overflow is out of the model.
-- The arithmetic of the faucet keeps its width. Debug assertions are left out. The proven transaction
-- of miden_objects is a record of what the accessors of `AuthenticatedTransaction` return. The proven
-- batch and its identifier, the hash that names a batch, the block header, the contents of events that
-- only pass through, and the channel are fields of `Outside` and `Channel`, which the definitions take;
-- so are the network accounts, their deltas and notes. The store of the builder is an argument that
-- answers each request in one way while a call runs. The hash, the hexadecimal text and the
-- serialization of accounts are fields of `Encoding`, and `IsEncoding` says what the faucet relies on.
-- Hash maps are modelled by ordered ones, since their order is not observed.
--
-- A proven block of the store is a record of what its accessors return. The trees of the store and its
-- chain are fields of `Outside`, and `IsOutside` says what is relied on.
-- `Faults` tells what fails of the database and the disk in one call of `apply_block`. The writer lock
-- makes a call one step. Its task that writes the block file is in `saves` from its start on, and the
-- call writes the file where it waits for the task; a refused call leaves the task there, and
-- `finish_save` is its late write, a step between two calls. The tables for the details
-- of accounts, notes and transactions are left out, and what they were given is kept in `others`.
--
-- The versions that a client asks for are those of `Semver`. The addresses, the connections, the
-- versions and the answers of workers are fields of `Network`.
--
-- A round of the loop of `upstream_peer` takes its locks one after the other and is one step here: only
-- the first request of the queue goes on, and in between others enqueue behind it. A health check holds
-- its lock while it asks all workers, and has one time. The identifiers of requests are random in the
-- code, and any in the model.
--
-- `none`, where the code returns no option, is a panic, or a loop that runs out of rounds. The
-- rounds: the loop of `revert_subgraphs` has one for each vertex, and that of `purge_subgraphs`
-- one for each entry of the children, since each round settles a node for good; the loops that
-- select a batch or a block have one more than the budget has room for, since each round but the
-- last takes from it. The loop of `select_candidate` has one for each entry of the queue, as in the
-- code.
--
-- Not modelled: logging and telemetry, the locks and channels, the asynchronous builders, gRPC, the
-- queries and the server of the store, the command line, and the other crates of the repository. A
-- submission to the faucet reads the clock once and runs to its end before the next step.
pub mod BlockProducer
pub mod Collections
pub mod Faucet
pub mod Prelude
pub mod NtxBuilder
pub mod RemoteProver
pub mod Store
pub mod Rpc
