-- ===== src/Lib.antt =====
-- forkyard: sessions that fork a chain's state, run transactions against it, and never touch the
-- chain.
--
-- The program and the modules that model it:
-- * crates/engine/src/lib.rs. Engine/Snapshot is `BaseSnapshot`, Engine/Session and Engine/Database
--   are `Session` with `Database` and `DatabaseCommit`, Engine/State is `SessionState` with
--   `Session::state` and `Session::restore`. Engine/Rollback is about undoing speculative reads,
--   Engine/Branching about branches, Engine/Views about what a
--   read depends on, Engine/Gathering and Restoring about state and restore.
-- * crates/fetch/src/lib.rs. Fetch/Keys is `StateKey`, Fetch/Speculation is `speculate` with its
--   thread-local record of misses, Fetch/ReadThrough is the read cache in front of an upstream.
--   Fetch/Placeholders is the interface that a worker relies on. Fetch/Flights is `claim`, `Landing`
--   and the loop of `resolve`, as steps of threads over one cache, and Fetch/Claims, Landing, Flying,
--   Places, Moves and Sharing are about it. Fetch/Retry, Batch and Upstream are `retry_delay`,
--   `send_batch` and `resolve_batched`, which Fetch/Filling, Blocking, Batches, Resolving and Backoff are
--   about. Fetch/Forking is `fork`, `fork_at`, `fork_with_block_env` and `latest_block_env`,
--   Fetch/Connections is `shared_upstream` with its cap.
-- * crates/session/src/lib.rs. Sessions/Jobs, Execute, Attempt and Handle are `Job`, what a job
--   runs, `attempt`, and `Worker::handle` with `handle_job`. Sessions/Worker is `Worker` and
--   `worker_loop`, Sessions/Pinned is `PinnedBlocks`, Sessions/Resolver is `default_resolver` and
--   `SessionManager::new`.
--   Sessions/Keeping and Reading are about what reads leave as it is, Sessions/Harmless about which
--   calls only read. The other modules of Sessions are about these.
-- * crates/engine/src/persist.rs. Engine/Files is what its two kinds of file share, with
--   `write_atomically`; Engine/Persist is `ForkCache`, Engine/SnapshotStore is `SnapshotStore`.
--   Engine/Disk states what std::fs and serde document, as records of laws.
-- * crates/session/src/lib.rs, `SessionManager`. Sessions/Calls and Sessions/Manager give each call
--   as a sequence of steps on the shared fields and jobs for the workers; Sessions/Requests lists
--   the calls. The steps of several calls may come in any order between each other.
-- * Base has what the modules share: maps, sorting, results, tests. Tests has the runs.
-- * crates/api-http/src/lib.rs. Http/Surface is `dispatch` and `open_session`, whose methods are in
--   Http/Reads and Http/Writes; Http/Params, Transactions, Receipts, SideTable, Errors, Methods,
--   Codec, Json and Digits are what these use, Http/Rpc is what is left of a call. Http/Scope,
--   ReadOnly, Refusals and Sending are about them.
-- * crates/api-mcp/src/lib.rs. Mcp/Tools is `ForkyardMcpServer` with its tools, Mcp/Args are their
--   arguments, Mcp/Transfers is `run_transfer` and what it uses, Mcp/Tool is what is left of a call.
--   Mcp/Every, Scope, Atomic, Refused and Pricing are about them, Mcp/Twins about both surfaces.
-- * crates/bin/src/main.rs. Binary/Cache is `persist_cache` and `load_cache`, Binary/Start is how
--   `main` chooses its fork and its seed; Fetch/CacheSnapshot is `cache_snapshot` of crates/fetch.
--   Fetch/Snapshotting, Binary/Union, Restart and Seeding are about them.
-- * crates/ingest/src/lib.rs. Ingest is `ChainTipFollower`.
-- * crates/loadgen/src/main.rs. Loadgen is `truncate` and `csv_field`, with a reader of CSV fields.
--
-- A session's reads go through its overlay, its base and its fallback, which is a `ReadThrough`; a
-- worker runs a job's reads speculatively, parks the job with the keys that it missed, and runs it
-- again on `Unblock`. A worker is a function of the events of its inbox: `Sessions.Worker.turn`
-- gives the worker and its effects (replies, dropped replies, keys handed to a resolver) after one
-- event. Other threads appear through what they change: each event carries the thread's view of
-- the shared cache at the time, so that any change by a resolver or another worker is allowed
-- between two events. Within one event the view changes by the event's own reads.
--
-- Numbers: addresses, hashes, slots, balances and times are natural numbers, and only the surface
-- adds any; `rounds` and the counts of a worker stay far below their machine bounds, the first by
-- `MAX_SPECULATIVE_ROUNDS`. A reply channel is a ticket, a number.
-- A hash map is a list of entries in order of insertion. The code reads maps by key, but
-- `Session::state` iterates over one where it gathers code, so there two accounts that share a code
-- hash and hold different code would be met in another order than the source's.
-- Retries are counted down from `RATE_LIMIT_RETRIES`; digits are printed with fuel for the 64 hex or
-- 78 decimal digits of a 256-bit word, which are as many as it can have. No other definition takes
-- fuel: each loop runs over a list that it consumes. The sums of u64 on the JSON-RPC surface wrap
-- around, as they do in a release build.
--
-- The surface: a call is what is left of it, a tree of requests to the manager (`Sessions.Requests`)
-- and changes of the side table of receipts under its lock. `Http.Every` is what holds of a whole
-- tree, `Http.Run` runs one alone.
--
-- Parameters: revm's EVM is a program of database reads that an interface gives for a transaction
-- (`Evm`); the inner database of a `ReadThrough` is any `DatabaseRef`; a panic is an outcome. alloy's
-- client, its parsers and its printing of bytes, revm's results, serde's reading of a body and the
-- store of foundry-fork-db are records of functions (`Batcher`, `Codec`, `Reasons`).
--
-- Not modelled: opening the connection to the provider and keeping it alive, binding and routing
-- of the HTTP server, rmcp's transports and schemas, the command line, and the load generator's
-- agents with their random choices. Starting a backend over a URL's client is a parameter. The
-- cache may grow while a thread claims keys; a claim then sees one state of it for each key, even
-- where a key is listed twice. What a fetch puts into the cache while others run is any growth of
-- it. Logging is left out.
pub mod Base
pub mod Binary
pub mod Engine
pub mod Fetch
pub mod Http
pub mod Ingest
pub mod Loadgen
pub mod Mcp
pub mod Sessions
pub mod Tests
