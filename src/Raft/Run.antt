-- ===== src/Raft/Run.antt =====
-- One node of internal/raft through a sequence of events: each is what one goroutine does under
-- one hold of the mutex, in any order that the scheduler and the network choose.
pub mod Fields
pub mod Votes
pub mod Ballot
pub mod Quiet
pub mod Reign
pub mod Restarts
pub mod Timers
pub mod Leader
use gammaflow.Base.{◌≡◌, arith, ◌+◌, ◌<◌, Bool, Option, none, some, List, [], ◌∷◌, u64_mod, ◌>>=◌}
use gammaflow.Raft.Types.{
  NodeId, Term, Bytes, LogEntry, RequestVoteArgs, RequestVoteReply, AppendEntriesArgs,
  AppendEntriesReply,
}
use gammaflow.Raft.Node.{Node, reset_election_timer}
use gammaflow.Raft.Vote.{handle_request_vote}
use gammaflow.Raft.Append.{handle_append_entries}
use gammaflow.Raft.Election.{start_election, handle_vote_response}
use gammaflow.Raft.Replication.{
  handle_heartbeat_response, handle_replicate_response, reset_heartbeat_timer,
}
use gammaflow.Raft.Apply.{Batch, delivered}
use gammaflow.Raft.Submit.{submit}

-- A response is `none` where the RPC failed. What only reads the node is no event.
pub data Event : Type 0 where
  start : Event
  election_timeout : Event
  vote_request : RequestVoteArgs → Event
  append_request : AppendEntriesArgs → Event
  vote_response : Term → NodeId → Option RequestVoteReply → Event
  heartbeat_response : Term → NodeId → List LogEntry → Option AppendEntriesReply → Event
  replicate_response : Term → NodeId → List LogEntry → Option AppendEntriesReply → Event
  heartbeats_sent : Event
  client_command : Bytes → Event
  batch_delivered : Batch → Event

abbrev pub state_of {ℓ} : {A : Type ℓ} → Option (Node × A) → Option Node
state_of none = none
state_of (some (n, a)) = some n

pub state_of-eq-some {ℓ} :
    {A : Type ℓ} (o : Option (Node × A)) {n : Node}
    → state_of o ≡ some n
    → (a : A) × (o ≡ some (n, a))
state_of-eq-some none h = cc
state_of-eq-some (some (m, a)) h = (a, ground arith)

-- `none` is a panic, which ends the process.
unfoldable pub step : Event → Node → Option Node
step start n = some (reset_election_timer n)
step election_timeout n = state_of (start_election n)
step (vote_request args) n = state_of (handle_request_vote args n)
step (append_request args) n = state_of (handle_append_entries args n)
step (vote_response term p reply) n = some (handle_vote_response term p reply n)
step (heartbeat_response term p es reply) n = handle_heartbeat_response term p es reply n
step (replicate_response term p es reply) n = state_of (handle_replicate_response term p es reply n)
step heartbeats_sent n = some (reset_heartbeat_timer n)
step (client_command command) n = some (submit command n).0
step (batch_delivered b) n = some (delivered b n)

unfoldable pub run : List Event → Node → Option Node
run [] n = some n
run (e ∷ es) n = step e n >>= run es

-- The term counter does not wrap: no election starts in the last term that a uint64 holds.
abbrev pub StepFits : Event → Node → Type 0
StepFits election_timeout n = n.current_term + 1 < u64_mod
StepFits _ n = Unit

abbrev pub FitsAfter : (Node → Type 0) → Option Node → Type 0
FitsAfter P none = Unit
FitsAfter P (some n) = P n

abbrev pub TermsFit : List Event → Node → Type 0
TermsFit [] n = Unit
TermsFit (e ∷ es) n = StepFits e n × FitsAfter (TermsFit es) (step e n)
