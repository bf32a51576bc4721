-- ===== src/Lib.antt =====
-- Verification library for the Polkadot client and the Substrate framework that it is built on.
--
-- The program. Substrate is a framework for blockchain nodes: a client with its database and
-- pruning, a state machine that runs a WebAssembly runtime, networking and block synchronization,
-- a BFT consensus engine, and a library of runtime modules (balances, staking, democracy,
-- sessions, contracts). Polkadot adds parachains: the validators of a group attest to candidates
-- by signed statements, which each node collects in a statement table; a relay-chain block takes
-- the candidates that have enough votes, and the authorities agree on the block by the BFT engine.
-- Democracy decides referenda in the runtime.
--
-- The files. `Prelude` passes on the names that all parts share: Boolean tests and `if`, lists
-- with their length, equality as an instance (`Eq`), sets and maps as lists.
--
-- `Bft` models the consensus engine, substrate/bft.
--   Bft/Messages       substrate/bft/src/generic/mod.rs: votes, proposals and messages
--   Bft/Threshold      `bft_threshold` there, and `max_faulty_of` and `bft_threshold` (here
--                      `required_signatures`) of substrate/bft/src/lib.rs
--   Bft/Justification  `UncheckedJustification` with `check`, and `Justification`, of
--                      substrate/bft/src/generic/accumulator.rs; Voters: what `check` accepts
--   Bft/Accumulator    `Accumulator` of the same file. Each method is a function from the
--                      accumulator to the new one and the result. Below it: Invariant (with
--                      Prepares, Commits, Imports, one handler each), Evidence (errors), Runs
--                      (sequences of messages), Signers and Checks (justifications), Senders,
--                      Agreement and Safety (two nodes), Quorum, Progress, Tests
--   Bft/Strategy       `Strategy` of substrate/bft/src/generic/mod.rs, the view of one node: its
--                      state, imports and the step to another round. Below it: Sound (the
--                      invariant of a node), Rounds (locks and later rounds), and
--   Bft/Strategy/Turns `poll_once` with `propose`, `prepare`, `commit` and `vote_advance`; Drive:
--                      the loop of `poll`, and the sequence of inputs and turns of a node. Below
--                      it: Sent (the order of messages), Steps, Ranks, Propose, Judge, Polls and
--                      Conclude (one call each), Runs (sequences), Loop, Locks, Tests
--
-- `StatementTable` models polkadot/statement-table/src/generic.rs.
--   StatementTable/Types   the data, and the methods of `CandidateData`. The trait `Context` is a
--                          record of functions, a parameter of what uses it
--   StatementTable/Import  `import_statement` and the methods below it, one function each. Below
--                          it: Counts (`update_includable_count`), Valid (the invariant), Steps
--                          (votes), Proposals and Candidates (new candidates), Statements (all
--                          kinds); Signed, Accusations, Fair and Accused (evidence of
--                          misbehavior); Tests
--
-- `Consensus` models when a block can be proposed.
--   Consensus/DynamicInclusion  polkadot/consensus/src/dynamic_inclusion.rs; Waiting: its promises
--   Consensus/Includable        polkadot/consensus/src/shared_table/includable.rs; Tracking and
--                               Resolution: when the future of a proposal resolves
--
-- `Network` models the block collection of synchronization.
--   Network/Blocks  substrate/network/src/blocks.rs; Spaced: ranges apart and the next range to
--                   download; Drained: the blocks that are taken for import
--
-- `StateDb` models the database of states, substrate/state-db/src.
--   StateDb/Types        lib.rs: sets of changes, constraints and the keys of metadata
--   StateDb/Pruning      pruning.rs: `RefWindow`. Below it: Window (what the blocks of a window
--                        delete for good), Index and Entries (the index), Refined (windows stand
--                        for blocks), Kept (the states in a window), Restore and Restore/Journal
--                        (`new`, which reads the journal)
--   StateDb/Unfinalized  unfinalized.rs: `UnfinalizedOverlay`. Below it: Finalizing (`discard` and
--                        `finalize`), Values (`get`), Tree and Descend (blocks as a tree, and its
--                        descendants), Inserted, Unlinked, Retained and Discarded (`discard`),
--                        Located and Finalized, Tests (a journal key that two blocks get)
--   StateDb/Sync         lib.rs: `StateDbSync`. Below it: Loop (`prune`) and Blocks
--                        (`finalize_block`)
--
-- `StateMachine` models the changes on top of a backend.
--   StateMachine/Overlay  `OverlayedChanges` of substrate/state-machine/src/lib.rs; Transactions:
--                         changes followed by a commit or a discard
--
-- `Report` models BFT messages and reports of misbehavior as bytes.
--   Report            substrate/runtime/primitives/src/bft.rs, and the trait `Slicable` of
--                     substrate/codec/src/slicable.rs as a record of functions with its law; the
--                     codecs of `u32`, hashes, blocks, authorities and signatures are parameters
--   Report/RoundTrip  decoding what was encoded
--   Report/MisbehaviorCheck  substrate/misbehavior-check/src/lib.rs; `ed25519_verify`, of the host,
--                     is a parameter. Verdict: when a report is accepted
--
-- `Democracy` models substrate/runtime/democracy/src/vote_threshold.rs. Compare is about
-- `compare_rationals`, Approval about `approved` and the byte code of thresholds.
--
-- How code becomes definitions.
--   * `&mut self` becomes an argument and a component of the result.
--   * `HashMap` is an association list with at most one entry for a key, `HashSet` a list without
--     repetition. Both keep the order of insertion, which stands for the arbitrary order of the
--     source: an old key keeps its place and a new one is added at the end.
--   * `BTreeMap` is an association list in ascending order (`insert_range`).
--   * `usize`, local block numbers and `Balance` are natural numbers without a bound: rounds are
--     `u32` in a message, and approving and opposing votes sum up to no more than the electorate.
--     Subtraction on them stops at zero, where the source would overflow. The best number of a peer,
--     which it chooses, is a `u64`: the sum of `needed_blocks` on it wraps around.
--   * Instants and durations are numbers of nanoseconds. Numbers of microseconds are `u64`, with
--     their wrap-around (`wrap64`).
--   * Values, journal keys and journal records are lists of bytes; `Encoders` are the codecs of
--     hashes, keys and numbers, parameters. The backing database is a function. The recursion of
--     `discard` has the depth of the levels, and its loop gets the call below as an argument.
--   * A panic (`expect`, `panic!`, `assert!`) is the result `none`.
--   * The types of candidates, digests, authorities and signatures are parameters, with `Eq`.
--   * `check_message`, a closure that recovers the signer of a signature, is a pure function.
--     `integer_sqrt`, of an external crate, is a parameter.
--   * `restore`, the loop of `RefWindow::new`, has a number of turns; one more than there are
--     records is enough.
--   * `compare_rationals` loops on fuel, d₁ + d₂ + 1, since the denominators fall in each round.
--   * `Context` of a BFT node is a record of functions; `sign_local` is an external signer, and
--     `Signs` says what it returns. Futures are polled at most once in a turn: an `Environment`
--     holds what they answer then, and the loop of `poll` has a list of such answers.
--   * The calls of `Strategy` end with a result, with the error of a future, or with a panic
--     (`Outcome`). `fetching_proposal` and `evaluating_proposal` say if there is a future.
--   * Logging is left out.
--
-- What is not modelled: the sink and the stream of a BFT `Agreement`, and the signature checks of
-- substrate/bft/src/lib.rs, which call ed25519; `proposed_candidates` and `fill_batch` of the
-- statement table; `new` of the overlay and of `StateDbSync`, and the lock of `StateDb` around it;
-- the rest of networking, the client database, RPC, the executor and the other runtime modules, whose
-- core stands in external crates, in I/O or in macros.
pub mod Prelude
pub mod Bft
pub mod Democracy
pub mod StatementTable
pub mod Consensus
pub mod Network
pub mod StateMachine
pub mod StateDb
pub mod Report
