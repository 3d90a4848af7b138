-- ===== src/Lib.antt =====
-- defi-toolbox-avalanche: quoting and routing of swaps on Avalanche, over a local copy of the chain's
-- state.
--
-- The program's parts. statedb/ keeps the state: an immutable state per block (statedb/immutable.go),
-- a lookup cache built from it (statedb/fastcache.go), a layer of values fetched from a node
-- (statedb/statedb.go), and the overlay that one EVM call writes to (statedb/callstate.go). formulas/
-- computes what each kind of pool pays from its storage. pathfinder/ finds routes and merges the legs
-- of a split swap into one sequence of pool calls (pathfinder/merge.go), which it encodes for the
-- router contract. quoter/, cmd/ and the rest run these.
--
-- Which file models which part:
--   Common            lists, options, Boolean tests, Go maps as association lists; Int has the signed
--                     integers and maps with integer keys, Bytes the big-endian bytes of words
--   Uint256           the interface of github.com/holiman/uint256, which is not part of the
--                     repository: each law is what it documents of one method. Uint256/Concrete is an
--                     instance of it, at which the examples run.
--   Statedb/Nested    the maps of maps of statedb/
--   Statedb/CallState statedb/callstate.go. Overlay: the fields that the journal can undo, the
--                     journal's entries and their revert methods. Ops: the methods, one definition
--                     each (GetState is get_state, and so on). Calls and Runs: any sequence of method
--                     calls. Session: Reset and Prepare. Undo, Access, Trail and Snapshot are about
--                     the journal and snapshots, Reads about the reads.
--   Statedb/Immutable statedb/immutable.go: ImmutableState, BlockDiff, ApplyDiffInPlace
--   Statedb/FastCache statedb/fastcache.go
--   Statedb/StateDb   statedb/statedb.go: the reads through three layers, the writes, block diffs and
--                     snapshots; Layers is about their order
--   Formulas/MulDiv   formulas/shared.go and formulas/shared_u256.go: rounding division over math/big
--                     and over uint256
--   Formulas/Price    the amounts between two prices, the next price, and computeSwapStep of
--                     formulas/v3.go; Words has the versions over uint256
--   Formulas/TickMath the square-root price of a tick in both versions, and its cache
--   Formulas/V2       formulas/pool_v2.go, the constant-product pools
--   Formulas/V3       formulas/pool_v3.go, the concentrated-liquidity pools. Slots: the storage layouts
--                     and readers of formulas/v3.go and formulas/v3_u256.go. Bitmap: the search for the
--                     next tick. Precompute: the steps that are computed ahead. TickOf: the tick of a
--                     price, of formulas/shared_u256.go. Swap: Quote and its loop. Build: newV3Pool.
--                     Position, Bits, Next and NextTick are about the search, Lossless about the
--                     stored steps, TickFree about Quote, Consistent about construction.
--   Pathfinder/Route  RouteStep and SquishRoute of pathfinder/bfs.go and pathfinder/encode.go
--   Pathfinder/Adjacency BuildGraph of pathfinder/pools.go and BuildAdjacency of pathfinder/bfs.go
--   Pathfinder/QuotePath QuotePath of pathfinder/bfs.go
--   Pathfinder/Search FindTopRoutes and FindBestRoute of pathfinder/bfs.go: the layers of the search;
--                     Trial has the order of the candidates and their trial in the EVM. Paths, Layers
--                     and Found are about the nodes of the search, Routes about the result.
--   Pathfinder/Encode pathfinder/encode.go: the calldata of the router; Squished encodes merged routes.
--                     Decode is a reader of the Solidity ABI, written from its description and not
--                     from the encoder.
--   Pathfinder/Merge  pathfinder/merge.go: the trie of reversed routes (Trie, Entering), first-hop
--                     merging (FirstHops), collapseDuplicates (Collapse) and MergeRoutes (Whole)
--   Pathfinder/Splitter splitting an input into legs: pathfinder/splitter/greedy.go, greedydynamic.go
--                     (Dynamic), greedymixed.go (Mixed) and optimized2.go (Allocate, Optimized)
--   Tests             examples
--
-- How state corresponds. A struct is a record, a method that changes it is a function to the new
-- record, and a panic is none. Addresses, hashes and other fixed byte arrays are the numbers that they
-- spell. A 256-bit word is a number, and every operation of uint256 is a call of the interface, so
-- that wrapping is written out; math/big is exact. A Go map is an association list; where the order of
-- a walk over it matters, in the route search, the order is an argument; that no key stands twice in a
-- map is a named hypothesis where a proof needs it. The parallel slices of steps and amounts in
-- pathfinder/merge.go are one list of pairs, since each append goes to both. Locks are not modelled:
-- each method is one step.
--
-- Parameters are what the repository does not hold: keccak256, the base state's and the fetcher's
-- answers, a storage read, the EVM call of balanceOf, and the quoter that MergeRoutesWithQuoter gets.
-- QuotePath and the route search take the quote of one pool, and the search the EVM's run of a route's
-- calldata. The bytes that encodeV4ExtraData makes of a text are a function. newV3Pool is told whether
-- the pool is in the generated table of Pharaoh pools. The split strategies take the route search and
-- the EVM's run of a swap as an interface, Market, so that what is said of them holds for every answer
-- of these.
--
-- Fuel: collapseDuplicates runs on fuel for one round per leg and a last one, which is enough because
-- a round that changes anything removes a leg. GreedyMixed, whose loop has no bound, runs on fuel for
-- one more round than the input, which is enough because a round that goes on routes some of the
-- input; AllocateAcrossPaths has one more for each path, because a round that fails ends a path.
-- GreedyDynamic has 200 rounds in the source, and Quote and precomputeSteps of a V3 pool 500 steps.
-- The walk from a candidate back to the root has as much fuel as there are nodes, which is enough
-- because a node stands after its parent. Every other loop is structural.
--
-- Not modelled: the V4 and Algebra pools and the other pool kinds, the text of pools.txt and of the V4
-- extra data, the cache of hashed slots in front of the V3 readers, the other
-- split strategies, the quoter. Nor are network and file access, the EVM itself, generated tables, the
-- contracts and the command-line programs.
pub mod Common
pub mod Uint256
pub mod Statedb
pub mod Formulas
pub mod Pathfinder
mod Tests
