-- ===== src/Lib.antt =====
-- AlphaRouting, the liquidation and routing bot: its Rust crates and its contract. Paths are from the
-- repository's root.
--
-- Nonce (crates/chain/src/nonce.rs): `NonceQueue` is the counter and the release pool, and `next`,
-- `release`, `peek`, `released_count` and `reconcile` are the methods of those names. The pool's
-- `BTreeSet` is the ordered list of OrderedSet. Nonce.Ledger follows where each nonce is over a
-- history of calls by one caller at a time; Nonce.Threads splits `next` and `reconcile` at the
-- accesses of the mutex and the atomic and runs any number of threads under any schedule. The
-- counter wraps at 2^64 as `fetch_add` does; theorems over histories assume that it stays clear of
-- that. The loop of `reconcile` takes fuel; one round is enough for a lone caller.
--
-- PriorityQueue (crates/workers/src/priority_queue.rs): `Entry`, its comparisons, and the queue with
-- `try_push`, `pop`, `len` and `is_empty`. `BinaryHeap` is the list of its entries, of which `pop`
-- takes the greatest. PriorityQueue.Spec is the bounded list that a client may think of, and
-- PriorityQueue.Rank orders the entries by a number.
--
-- Observability (crates/observability/src/lib.rs), Observability.Buffer (buffer.rs beside it) and
-- Observability.Summary (summary.rs beside it): the events, the ring buffer with eviction, its
-- queries, its summary and its export. `f64` is the parameter Float64, the clock and serde_json are
-- parameters too, and texts are lists of bytes (Text). `ReplayBuffer::record` is `record_event`.
-- `render_for_telegram` takes Rust's formatting of a float as a parameter.
--
-- Metrics (crates/workers/src/metrics.rs): the worker pool's counters and the two moving averages,
-- over Float64.
--
-- Api (crates/api/src/lib.rs): the five handlers and, as `respond`, the table of routes of `run`
-- with the methods that `get` takes. Values are the JSON of Api.Value. A request finds an
-- AppState: the answers of the storage and of the route registry, the replay buffer and the
-- statuses of the RPC pool; `url::Url` is the parameter UrlParts, and the clock's reading an
-- argument. /metrics locks the buffer twice, and what others do in between is an argument too.
--
-- Liquidator.Select (crates/liquidator/src/select.rs), Liquidator.Aave (aave.rs beside it) and
-- Liquidator.Discovery (discovery.rs beside it): the choice of what to repay and seize, the decoder
-- of Aave's bitmap of reserves, and the registry of borrowers with its scan. Addresses and `U256`
-- values are numbers, and `U256` arithmetic is the parameter Liquidator.Uint256. The decoder takes
-- the build profile, since a shift by 128 bits panics only with overflow checks. The scan's provider
-- is a function on a state of its own. The scan's loop has fuel for one round per block from the
-- last scanned one to the head; a round covers at least a block.
--
-- Liquidator.Bot (crates/liquidator/src/main.rs and router.rs): `check_and_liquidate`, cut into
-- `read_position` with the loop `read_balances`, `submit` and `send`. The contracts are the
-- parameter Contracts, whose state is threaded through the calls and of which any may fail; alloy's
-- encoder is the parameter Abi. `Checked` says how a check ends and which transaction it sent.
--
-- Liquidator.Discovery.File: `load_or_default` and `save`, on the parameters FileSystem and
-- RegistryJson. Liquidator.Settings (settings.rs): `from_env`, on the environment as a function; the
-- integer parsers are Text.Decimal.
--
-- Liquidator.Main (main.rs): `launch` is `main` up to its loop, and `round` the body of the loop:
-- `scan`, `save_if_new` and `check_all`, with `finish` for how it ends. Main.Reach has the states over
-- rounds, panics and restarts. Liquidator.Samples is data for the tests.
--
-- Config (crates/config/src/chain_spec.rs): the chains, what each allows, and the lookup, with the
-- tests on it at the liquidator's start (main.rs).
--
-- Contract (src/AlphaRouting.sol): a call is a function of the contract's state that ends in a new
-- one or reverts, and a call that reverts leaves no state behind. The transient slots are fields
-- of the state, and an event is an entry of its logs. Contract.Entry has the constructor,
-- `executeLiquidation`, the withdrawals and, as `dispatch`, a call of any function of its own;
-- Contract.Strategy has the flash loan's callback `executeOperation` with `_runLiquidation`, cut
-- into `seize`, `sell` and `settle`; Contract.Swap has `_swap` and `_routerFor`. OpenZeppelin's
-- modifiers, the contracts that are called, abi.encode and abi.decode, and keccak256 are the
-- parameter Contract.Evm. A call of another contract takes the whole state, since it may call
-- back: Contract.Reentry has, as the relation Meanwhile, what can happen while another contract
-- runs. The pool is to call back as Aave documents (Contract.Lending), and nobody else can make it
-- name this contract as the initiator. Numbers are uint256 values, with the panic of checked
-- arithmetic where the code adds or subtracts. Contract.Deploy (script/Deploy.s.sol) has the
-- script's `run` as `deploy`, with the routers of each chain. Contract.Bot runs in the contract
-- what the liquidator sends. Contract.Answers says of the other contracts what lets a liquidation
-- go through. Contract.Mock is a world like the one of test/mocks, for the tests.
--
-- Prelude and OrderedSet hold what the components share.
--
-- Not modelled: the getters of the contract's public variables, and `Ownable`'s own functions,
-- which stand as a change of the ownership between and during calls; gas, and the broadcast of the
-- deployment; the constants, structs, errors and events of the contract's strategies that are not
-- yet implemented; the logging; axum's server and its listening socket; what a write that fails
-- leaves in the file; and the crates that are not part of the repository, which are parameters
-- where the code relies on them.
pub mod Prelude
pub mod OrderedSet
pub mod Float64
pub mod Text
pub mod Nonce
pub mod PriorityQueue
pub mod Observability
pub mod Liquidator
pub mod Config
pub mod Metrics
pub mod Api
pub mod Contract
