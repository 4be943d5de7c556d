-- ===== src/Lib.antt =====
-- Verification of Forktower, a daemon for a lightning node during a chain split.
--
-- Forktower watches two chains at once: SF, the chain that the user's own node follows, and SQ, the
-- other one. The sentinel reads both views every tick and decides whether the chains have
-- separated. When they have, the registry says which channels are still exposed on the other
-- chain, the deadline package says how long the user has to answer a close there, and the mirror
-- copies those of the user's own transactions to the other chain that an allowlist permits. The
-- watcher reads the blocks of the other chain for spends of the channels' outputs and records them;
-- what it publishes of them is what starts and settles the countdowns of the deadline engine. The
-- alerter turns what all of them publish into alerts for the user.
--
-- The files, and the code that each is about:
--   Common            shared names: tests, lists, int32 and int64 with their wrap-around, and the
--                     interface Float64 to double precision, with exact fractions as an instance
--   ChainView         internal/chainview/types.go (Types) and verify.go (Verify): VerifyNetwork and
--                     VerifyBranch over two functions that answer the hash of a height
--   Sentinel          internal/sentinel/logic.go (Phase, State, Track, Anchor, Decide), cadence.go
--                     (Cadence) and forkpoint.go (ForkPoint, HeaderCache). `step` is Step; it is
--                     `prepare`, the bookkeeping of a tick, and then `conclude`, the decision and
--                     applyPhase. `run` is the state after a list of ticks
--   Store             internal/store: the enumerations that the other parts decide by (Types), and
--                     the tables of deadlines.go (Deadlines), spends.go (Spends) and
--                     alerts.go (Alerts) as lists of rows
--   Deadline          internal/deadline/compute.go (Compute) and deadline.go (Engine, Handlers, Events):
--                     `handle` is the engine's handler of an event
--   Mirror            internal/responder/mirror/policy.go (Policy)
--   Api               internal/api/headline.go (Headline)
--   Alert             internal/alert/policy.go (Policy), alerter.go (Alerter) and sweep.go (Sweep)
--   Registry          internal/registry: relevance.go (Relevance), scid.go (ShortId), and what a poll of
--                     registry.go does to one channel (Merge, Apply) and to the table (Sources)
--   Tower             internal/responder/tower/coverage.go (Coverage)
--   Watcher           internal/watcher: watchset.go (Targets), scan.go (Scan), classify.go (Classify),
--                     reorg.go and secondorder.go (Record, Blocks, Reorg), watcher.go (State, Tip),
--                     rescan.go (Sweep) and mempool.go (Mempool). `handle_tip` is handleTip,
--                     `process_to` processTo, and `sweep_slice` sweepSlice
-- The other files under these names hold the proofs, each named for what it proves; those called
-- Tests, EvidenceTests, SearchTests, EngineTests, Examples and Watcher/Samples hold concrete inputs.
--
-- How the code is read. A Go function that changes a state through a pointer returns the new state,
-- next to the effects that it appends. A pointer that may be nil is an Option. Hashes are numbers,
-- for the code only compares them. A string enumeration has a constructor for each named value, and
-- one for every other string. Integers are int32 or int64 with wrap-around where the code adds or
-- subtracts; heights and times from outside are any integer, and a theorem that needs a range says
-- so. Floating point is a parameter: a theorem on all of Step holds for any arithmetic, and the few
-- that need one of its properties name it as a condition. The texts for users are constructors.
--
-- That a statement of the database fails is a parameter of the deadline engine, for every lookup
-- and every write; for the watcher it is a part of Answers, which are given anew for each attempt at
-- each block. A write that fails leaves its table as it was. The stopping of the daemon, logs, the
-- wall-clock estimate and the status for the dashboard are left out.
--
-- Loops are recursions on the lists they read. The search for the separation is a recursion on its
-- budget, the source's maxWalk, which is also where the source gives up; the eviction of the cache
-- is a recursion on the number of entries, of which each round removes one.
--
-- Not modelled: what reads a node or a database or writes to the network (the sentinel's loop, the
-- rest of the store, the transports, the API but for its headline), the watcher's loop over its
-- channels and the loading of its saved mark, the delivery of alerts, the towers but for their
-- coverage, the registry's loops over its sources, the cleaning of a peer's alias (an argument),
-- and the bootstrap of the second node.
pub mod Common
pub mod Alert
pub mod Api
pub mod ChainView
pub mod Sentinel
pub mod Store
pub mod Deadline
pub mod Mirror
pub mod Registry
pub mod Tower
pub mod Watcher
