-- ===== src/Lib.antt =====
-- A verification library for RaftKV: a key-value store replicated by Raft, written in Go.
--
-- The program. `internal/raft` is the consensus module: a node with a log, its elections, the
-- replication of the leader's log, the commit rule and the loop that applies what is committed.
-- `internal/storage` is the write-ahead log (WAL) to which a node persists its term, its vote and its
-- entries, and from which it is restored after a crash. `internal/kvstore` is the state machine: the
-- commands of the committed entries act on a map. `cmd/server` puts them together; `internal/api` and
-- `internal/transport` connect them to HTTP and gRPC.
--
-- How the code is modelled. The handlers of a node run under its mutex, so each function here is what
-- runs under one hold of it: it takes a node and gives the node after it, with its result. `none` is a
-- panic (an index out of range). Goroutines and timers become events of `Raft.Run`, in any order.
-- Integers are natural numbers with the wrap-around of uint64 written out (`add64`, `sub64`); the
-- conversion to `int` that indexing makes is `to_int`. Terms in messages, replies and timing are
-- arbitrary: a reply is given to the handler that waits for it, `none` where the RPC failed.
-- `Raft.Cluster` puts nodes together: a step is one hold of one node's mutex, or a message that
-- leaves; a message that was sent stays, and any step may take any message, also more than once and
-- also in another order than it was sent, so that loss, delay, repetition and reordering are all
-- runs. Nodes may also crash and restart from their WAL. The cluster keeps, for the record only, the
-- votes that were cast and the log that each message was built from.
--
-- The files.
--   Base              Boolean tests, lists with Go's slices, words, maps, the panic monad
--   Storage/Record    the records of internal/storage/wal.go
--   Storage/Wal       `Append` as its callers see it, on the records that Replay will give,
--                     with the outcome of each write given
--   Storage/Codec     what is asked of encoding/json for the payloads
--   Storage/Frame     the bytes of a record, with its CRC-32
--   Storage/Replay    `replayFile`: Scan reads one record, Fuel ends the loop, File the whole file,
--                     Truncated what a truncation leaves
--   Storage/Disk      `Append` on the files with their rotation, and `Replay` over them
--   Storage/Handle    `Append` and `Close` with the errors of opening and closing files: Stuck
--   Storage/Repair    `Replay` with `truncateFile` and the errors of both: Again
--   Storage/Directory `NewWAL` on a directory: Order of its files, Reopen
--   Raft/Types, Log, Node     internal/raft/types.go, log.go, and the state of node.go
--   Raft/Vote         `HandleRequestVote`; Grant says when a vote is given
--   Raft/Append       `HandleAppendEntries`; Merge, Outcome and Entries on its loop and branches,
--                     Safety, Commit and Refusal on what it keeps, commits and refuses,
--                     Description puts the branches together
--   Raft/Election     `startElection`, the replies to it, `becomeLeaderLocked`; Campaign counts the votes
--   Raft/Commit       `advanceCommitIndexLocked`
--   Raft/Replication  `sendHeartbeats`, `replicateLog`, `handleConflictLocked`; CatchUp plays their turns
--                     with the handler of the peer
--   Raft/Apply, Submit        `applyLoop`, `SubmitCommand`, `Status`
--   Raft/Run          the events of one node, and what holds over all runs: Votes, Ballot, Quiet, Reign and
--                     Leader on terms, votes and roles, Restarts and Timers on the timers
--   Raft/Recovery     `Replay` of a node, crashes and restarts
--   Raft/Cluster      several nodes and the messages between them: Votes, Elections and Leaders on who
--                     may lead; Reigns, Onward, Matching, Crowns, Sending and LogMatching on the logs; CatchUp
--                     on a leader and a peer left alone
--   Raft/Completeness why what is committed stays: the invariant, over the reigns of all terms with
--                     their voters and all answers that were given. Logs, Moves, Kept and Moved are on
--                     one step; Appending, Following and Followed on a message of a leader; Voting and
--                     Voted on votes; Crowned, Winning, Grown and Commanded on a new leader and a new
--                     entry; Counting, Reaching, Counted and Quorums on commits; Hints and Telling on
--                     what is sent; Calm on all else; Onto, Answered, Told and Steps put them together;
--                     Safety draws the conclusions
--   Transport         internal/transport: Proto converts the messages, Client and Server call and
--                     serve, Calls compares a remote call with a local one, Connections is the cache
--   Kvstore           internal/kvstore/store.go and the consumer of cmd/server/main.go; Replicas is on
--                     the stores of a cluster
--   Api               the handlers of internal/api/handler.go: Writes on puts, Readiness on the probe
--   Config            internal/config/config.go: Text is what it takes from `strings`; RoundTrip and
--                     Addresses are on the lists of peers and addresses
--   Tests             concrete inputs
--
-- Bounds and fuel. Theorems about indexing ask that lengths and indices fit an `int` (`IsLog`,
-- `Fits`), since past it the conversion goes negative and indexing panics. The loop of `replayFile`
-- runs on fuel, one more than the length of the file, which is enough since each record takes bytes.
-- The other loops are structural.
--
-- What stands outside. encoding/json is a parameter (`Codec`, `CommandCodec`) with the law that a
-- value that was marshalled unmarshals to itself; the file system's answers to writes are the list of
-- outcomes that a `Wal` holds; the random source is the list of draws of a node; gRPC is what each
-- attempt to connect and each call gives (`Grpc`), and the flag package the values of the flags. Not
-- modelled: net/http, logging, the listening and stopping of servers, and the order in which cmd/server
-- starts and stops its parts, which is calls of these only. The theorems on the logs of a
-- cluster are about runs without crashes, since a restart does not give back every log (see
-- `Raft.Recovery.Entries.recovers_iff`).
pub mod Base
pub mod Storage
pub mod Raft
pub mod Transport
pub mod Kvstore
pub mod Api
pub mod Config
pub mod Tests
