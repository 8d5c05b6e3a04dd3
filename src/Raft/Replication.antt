-- ===== src/Raft/Replication.antt =====
-- internal/raft/node.go and replication.go, the leader's side of AppendEntries: `sendHeartbeats`,
-- `replicateLog` and `handleConflictLocked`. Each function is one hold of the mutex.
pub mod Conflict
pub mod Built
pub mod CatchUp
use gammaflow.Base.{
  zero, suc, ◌-◌, Bool, true, false, Option, none, some, List, ltb, ◌==◌, if◌then◌else◌, length,
  get_elem?, update, add64, sub64, ◌>>=◌,
}
use gammaflow.Raft.Types.{NodeId, Term, LogIndex, LogEntry, AppendEntriesArgs, AppendEntriesReply}
use gammaflow.Raft.Log.{RaftLog, last_index, term_at, entries_from}
use gammaflow.Raft.Node.{
  Node, is_leader_state, become_follower, heartbeat_interval, Timer, absent, running,
}
use gammaflow.Raft.Commit.{advance_commit_index}

-- `for i := n.log.LastIndex(); i > 0; i--`, stopped at the last entry of the term; 0 if none.
unfoldable pub last_index_of_term : RaftLog → Term → LogIndex → Option LogIndex
last_index_of_term l term zero = some 0
last_index_of_term l term (suc i) = do
  let next = last_index_of_term l term i
  t ← term_at l (suc i)
  if t == term then some (suc i) else next

-- `handleConflictLocked`
unfoldable pub handle_conflict : NodeId → AppendEntriesReply → Node → Option Node
handle_conflict peer reply n =
    let go_to : LogIndex → Node = λ i. record n { next_index = update n.next_index peer i } in
    if ltb 0 reply.conflict_term
    then (do
      last ← last_index_of_term n.log reply.conflict_term (last_index n.log)
      some (go_to (if ltb 0 last then add64 last 1 else reply.conflict_index)))
    else if ltb 0 reply.conflict_index
    then some (go_to reply.conflict_index)
    else some (if ltb 1 (n.next_index peer) then go_to (sub64 (n.next_index peer) 1) else n)

-- A success: `nextIndex` and `matchIndex` of the peer rise to the last entry sent.
unfoldable pub record_match : NodeId → List LogEntry → Node → Option Node
record_match peer entries n = do
  last ← get_elem? entries (length entries - 1)
  let new_next = add64 last.index 1
  let new_match = sub64 new_next 1
  some (record n {
    next_index =
        if ltb (n.next_index peer) new_next
        then update n.next_index peer new_next
        else n.next_index;
    match_index =
        if ltb (n.match_index peer) new_match
        then update n.match_index peer new_match
        else n.match_index;
  })

-- The branch on `reply.Success` where entries were sent.
unfoldable pub settle : NodeId → List LogEntry → AppendEntriesReply → Node → Option Node
settle peer entries reply n =
    if reply.success
    then (do n₁ ← record_match peer entries n; advance_commit_index n₁)
    else handle_conflict peer reply n

-- What `sendHeartbeats` reads before it starts a goroutine for each peer.
pub record Round : Type 0 where
  pub term : Term
  pub leader_id : NodeId
  pub commit_index : LogIndex
  pub peers : List NodeId

-- `none` where the node is not the leader.
unfoldable pub heartbeat_round : Node → Option Round
heartbeat_round n =
    if is_leader_state n.state
    then some (record {
      term = n.current_term;
      leader_id = n.id;
      commit_index = n.commit_index;
      peers = n.peers;
    })
    else none

-- The message for one peer, built by its goroutine: the log is read now, the rest was read before.
unfoldable pub heartbeat_args : Round → NodeId → Node → Option AppendEntriesArgs
heartbeat_args r p n = do
  let prev = sub64 (n.next_index p) 1
  prev_term ← term_at n.log prev
  entries ← entries_from n.log (n.next_index p)
  some (record {
    term = r.term;
    leader_id = r.leader_id;
    prev_log_index = prev;
    prev_log_term = prev_term;
    entries = entries;
    leader_commit = r.commit_index;
  })

-- The goroutine after its RPC. An empty message that succeeds changes nothing.
unfoldable pub handle_heartbeat_response :
    Term → NodeId → List LogEntry → Option AppendEntriesReply → Node → Option Node
handle_heartbeat_response term p entries none n = some n
handle_heartbeat_response term p entries (some reply) n =
    let settled = settle p entries reply n in
    if is_leader_state n.state
    then (if n.current_term == term
        then (if ltb n.current_term reply.term
            then some (become_follower reply.term n)
            else if reply.success
            then (if ltb 0 (length entries) then settled else some n)
            else settled)
        else some n)
    else some n

abbrev restarted : Timer → Timer
restarted absent = absent
restarted _ = running heartbeat_interval

-- `run`, after the heartbeats were started.
unfoldable pub reset_heartbeat_timer : Node → Node
reset_heartbeat_timer n = record n { heartbeat_timer = restarted n.heartbeat_timer }

-- One turn of `replicateLog` up to its RPC: return, continue, or send.
pub data Tick : Type 0 where
  finished idle : Tick
  send : AppendEntriesArgs → Tick

unfoldable pub replicate_tick : NodeId → Node → Option Tick
replicate_tick peer n =
    if is_leader_state n.state
    then (do
      let next = n.next_index peer
      let prev = sub64 next 1
      prev_term ← term_at n.log prev
      entries ← entries_from n.log next
      some (
          if length entries == 0
          then idle
          else send (record {
            term = n.current_term;
            leader_id = n.id;
            prev_log_index = prev;
            prev_log_term = prev_term;
            entries = entries;
            leader_commit = n.commit_index;
          })))
    else some finished

-- The rest of the turn. The `Bool` is whether the loop goes on.
unfoldable pub handle_replicate_response :
    Term → NodeId → List LogEntry → Option AppendEntriesReply → Node → Option (Node × Bool)
handle_replicate_response term peer entries none n = some (n, true)
handle_replicate_response term peer entries (some reply) n =
    let settled = settle peer entries reply n >>= λ n₁. some (n₁, true) in
    if is_leader_state n.state
    then (if n.current_term == term
        then (if ltb n.current_term reply.term
            then some (become_follower reply.term n, false)
            else settled)
        else some (n, false))
    else some (n, false)
