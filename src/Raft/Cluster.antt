-- ===== src/Raft/Cluster.antt =====
-- Several nodes of internal/raft and the messages between them. A message that was sent stays, so
-- that it is lost, delayed, repeated or overtaken as the network pleases.
pub mod Votes
pub mod Elections
pub mod Leaders
pub mod Reigns
pub mod Onward
pub mod Matching
pub mod Crowns
pub mod Sending
pub mod LogMatching
pub mod CatchUp
use gammaflow.Base.{
  ◌+◌, ◌<◌, ◌≡◌, Bool, true, Option, some, List, [], ◌∷◌, ◌++◌, map, if◌then◌else◌, In, update,
  length, int_max, u64_mod,
}
use gammaflow.Raft.Types.{
  NodeId, Term, RequestVoteArgs, RequestVoteReply, AppendEntriesArgs, AppendEntriesReply, Bytes,
}
use gammaflow.Raft.Log.{RaftLog}
use gammaflow.Raft.Node.{Node, reset_election_timer}
use gammaflow.Raft.Vote.{handle_request_vote}
use gammaflow.Raft.Append.{handle_append_entries}
use gammaflow.Raft.Election.{start_election, handle_vote_response}
use gammaflow.Raft.Replication.{
  Round, heartbeat_round, heartbeat_args, handle_heartbeat_response, replicate_tick, send,
  handle_replicate_response, reset_heartbeat_timer,
}
use gammaflow.Raft.Apply.{Batch, delivered}
use gammaflow.Raft.Submit.{submit}
use gammaflow.Raft.Recovery.{restart}

-- RequestVote on its way, and its response, with the term that the candidate's goroutine holds.
pub record Ask : Type 0 where
  pub candidate : NodeId
  pub voter : NodeId
  pub args : RequestVoteArgs

pub record Ballot : Type 0 where
  pub voter : NodeId
  pub candidate : NodeId
  pub term : Term
  pub reply : RequestVoteReply

-- AppendEntries on its way, and its response. The log of the sender at that moment is kept for the
-- record: no node reads it.
pub record Append : Type 0 where
  pub leader : NodeId
  pub follower : NodeId
  pub args : AppendEntriesArgs
  pub log : RaftLog

pub record Ack : Type 0 where
  pub request : Append
  pub reply : AppendEntriesReply

-- A vote that was cast, for the record.
pub record Vote : Type 0 where
  pub voter : NodeId
  pub candidate : NodeId
  pub term : Term

pub record Cluster : Type 0 where
  pub nodes : NodeId → Node
  pub asks : List Ask
  pub ballots : List Ballot
  pub rounds : List (NodeId × Round)
  pub appends : List Append
  pub acks : List Ack
  pub votes : List Vote

abbrev pub set : NodeId → Node → Cluster → Cluster
set i n s = record s { nodes = update s.nodes i n }

-- What the goroutines of `startElection` send.
abbrev pub asks_of : NodeId → RequestVoteArgs → List NodeId → List Ask
asks_of i args = map (λ p. record { candidate = i; voter = p; args = args })

-- A candidate votes for itself.
abbrev pub stands : NodeId → Node → Cluster → RequestVoteArgs → Cluster
stands i n s args = record (set i n s) {
  asks = asks_of i args n.peers ++ s.asks;
  votes = record { voter = i; candidate = i; term = args.term } ∷ s.votes;
}

abbrev pub cast : Ask → RequestVoteReply → List Vote
cast a r =
    if r.vote_granted
    then record { voter = a.voter; candidate = a.candidate; term = a.args.term } ∷ []
    else []

abbrev pub answers : Ask → Node → RequestVoteReply → Cluster → Cluster
answers a n r s = record (set a.voter n s) {
  ballots =
      record { voter = a.voter; candidate = a.candidate; term = a.args.term; reply = r }
      ∷ s.ballots;
  votes = cast a r ++ s.votes;
}

abbrev pub sends : NodeId → NodeId → AppendEntriesArgs → Cluster → Cluster
sends i p args s = record s {
  appends = record { leader = i; follower = p; args = args; log = (s.nodes i).log } ∷ s.appends;
}

abbrev pub replies : Append → Node → AppendEntriesReply → Cluster → Cluster
replies m n r s = record (set m.follower n s) { acks = record { request = m; reply = r } ∷ s.acks }

-- One hold of a node's mutex, or one message that leaves. Where an RPC fails no node changes. With
-- `faults` nodes crash and restart. (No slice is longer than an `int`: a longer append panics.)
pub data Step (faults : Bool) (members : List NodeId) (s : Cluster) : Cluster → Type 0 where
  timeout :
      (i : NodeId) {n : Node} {args : RequestVoteArgs}
      → In i members
      → (s.nodes i).current_term + 1 < u64_mod
      → start_election (s.nodes i) ≡ some (n, args)
      → Step faults members s (stands i n s args)
  vote :
      (a : Ask) {n : Node} {r : RequestVoteReply}
      → In a s.asks
      → handle_request_vote a.args (s.nodes a.voter) ≡ some (n, r)
      → Step faults members s (answers a n r s)
  count :
      (b : Ballot)
      → In b s.ballots
      → Step faults members s (
          set b.candidate
            (handle_vote_response b.term b.voter (some b.reply) (s.nodes b.candidate))
            s)
  beat :
      (i : NodeId) {r : Round}
      → heartbeat_round (s.nodes i) ≡ some r
      → Step faults members s (record s { rounds = (i, r) ∷ s.rounds })
  beat_to :
      (i : NodeId) (r : Round) (p : NodeId) {args : AppendEntriesArgs}
      → In (i, r) s.rounds
      → In p r.peers
      → heartbeat_args r p (s.nodes i) ≡ some args
      → Step faults members s (sends i p args s)
  replicate :
      (i p : NodeId) {args : AppendEntriesArgs}
      → In p (s.nodes i).peers
      → replicate_tick p (s.nodes i) ≡ some (send args)
      → Step faults members s (sends i p args s)
  append :
      (m : Append) {n : Node} {r : AppendEntriesReply}
      → In m s.appends
      → handle_append_entries m.args (s.nodes m.follower) ≡ some (n, r)
      → Step faults members s (replies m n r s)
  beat_answered :
      (a : Ack) {n : Node}
      → In a s.acks
      → handle_heartbeat_response a.request.args.term a.request.follower a.request.args.entries
          (some a.reply)
          (s.nodes a.request.leader)
        ≡ some n
      → Step faults members s (set a.request.leader n s)
  replicate_answered :
      (a : Ack) {n : Node} {more : Bool}
      → In a s.acks
      → handle_replicate_response a.request.args.term a.request.follower a.request.args.entries
          (some a.reply)
          (s.nodes a.request.leader)
        ≡ some (n, more)
      → Step faults members s (set a.request.leader n s)
  command :
      (i : NodeId) (c : Bytes)
      → length (s.nodes i).log.entries + 1 < int_max
      → Step faults members s (set i (submit c (s.nodes i)).0 s)
  start : (i : NodeId) → Step faults members s (set i (reset_election_timer (s.nodes i)) s)
  beats_started : (i : NodeId) → Step faults members s (set i (reset_heartbeat_timer (s.nodes i)) s)
  applied : (i : NodeId) (b : Batch) → Step faults members s (set i (delivered b (s.nodes i)) s)
  crash : (i : NodeId) → faults ≡ true → Step faults members s (set i (restart (s.nodes i)) s)

pub data Reach (faults : Bool) (members : List NodeId) (s : Cluster) : Cluster → Type 0 where
  here : Reach faults members s s
  next :
      {t u : Cluster}
      → Reach faults members s t
      → Step faults members t u
      → Reach faults members s u
