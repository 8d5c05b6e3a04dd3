-- ===== src/Raft/Run/Quiet.antt =====
-- The handlers that start and win no campaign.
use gammaflow.Base.{
  ◌∙◌, ◌≡◌, Bool, Bool-cases, inl, inr, Option, none, some, List, arith, ltb, bind-eq-some,
}
use gammaflow.Raft.Types.{
  NodeId, Term, LogEntry, RequestVoteArgs, RequestVoteReply, AppendEntriesArgs, AppendEntriesReply,
}
use gammaflow.Raft.Node.{Node, save_vote, stop_leading, reset_election_timer}
use gammaflow.Raft.Node.Frame.{
  SameVote, SameDisk-SameVote, Quiet, SameVote-Quiet, become_follower-Quiet, catch_up-Quiet,
}
use gammaflow.Raft.Vote.{handle_request_vote, is_log_up_to_date}
use gammaflow.Raft.Append.{follow_leader, check_consistency, handle_append_entries}
use gammaflow.Raft.Replication.{
  settle, handle_heartbeat_response, handle_replicate_response, reset_heartbeat_timer,
}
use gammaflow.Raft.Apply.{delivered}
use gammaflow.Raft.Run.{
  Event, start, election_timeout, vote_request, append_request, vote_response, heartbeat_response,
  replicate_response, heartbeats_sent, client_command, batch_delivered, state_of-eq-some, step,
}
use gammaflow.Raft.Run.Fields.{settle-SameDisk, submit-SameVote}
use gammaflow.Raft.Run.Votes.{finish_append-SameVote}

Quiet-trans : {a b c : Node} → Quiet a b → SameVote b c → Quiet a c
Quiet-trans q s = record {
  id = s.id ∙ q.id;
  peers = s.peers ∙ q.peers;
  ballot = elim q.ballot [
    | inl follows ↦ inl (s.state ∙ follows)
    | inr b ↦ inr (record {
      current_term = s.current_term ∙ b.current_term;
      state = s.state ∙ b.state;
      votes = s.votes ∙ b.votes;
      votes_received = s.votes_received ∙ b.votes_received;
    })
  ];
}

pub handle_request_vote-Quiet :
    (args : RequestVoteArgs) (n : Node) {n' : Node} {r : RequestVoteReply}
    → handle_request_vote args n ≡ some (n', r)
    → Quiet n n'
unfolding handle_request_vote is_log_up_to_date save_vote reset_election_timer
handle_request_vote-Quiet args n h = ground (arith, h, catch_up-Quiet args.term n)

follow_leader-Quiet : (args : AppendEntriesArgs) (n : Node) → Quiet n (follow_leader args n)
unfolding follow_leader stop_leading reset_election_timer
follow_leader-Quiet args n = ground (arith, catch_up-Quiet args.term n)

handle_append_entries-Quiet :
    (args : AppendEntriesArgs) (n : Node) {n' : Node} {r : AppendEntriesReply}
    → handle_append_entries args n ≡ some (n', r)
    → Quiet n n'
unfolding handle_append_entries
handle_append_entries-Quiet args n h = elim (Bool-cases (ltb args.term n.current_term)) [
  | inl stale ↦ ground (arith, h, stale)
  | inr fresh ↦
      let n₁ = follow_leader args n in
      let (c, _, k) = bind-eq-some (check_consistency args n₁.log) _ (rw fresh at h) in
      Quiet-trans (follow_leader-Quiet args n) (finish_append-SameVote args n₁ _ c k)
]

settle-Quiet :
    (p : NodeId) (es : List LogEntry) (r : AppendEntriesReply) (n : Node) {n' : Node}
    → settle p es r n ≡ some n'
    → Quiet n n'
settle-Quiet p es r n h = SameVote-Quiet (SameDisk-SameVote (settle-SameDisk p es r n h))

handle_heartbeat_response-Quiet :
    (t : Term) (p : NodeId) (es : List LogEntry) (r : Option AppendEntriesReply) (n : Node)
    {n' : Node}
    → handle_heartbeat_response t p es r n ≡ some n'
    → Quiet n n'
unfolding handle_heartbeat_response
handle_heartbeat_response-Quiet t p es none n h = ground (arith, h)
handle_heartbeat_response-Quiet t p es (some r) n {n'} h =
    ground (arith, h, become_follower-Quiet r.term n, settle-Quiet p es r n {n' = n'})

handle_replicate_response-Quiet :
    (t : Term) (p : NodeId) (es : List LogEntry) (r : Option AppendEntriesReply) (n : Node)
    {n' : Node} {b : Bool}
    → handle_replicate_response t p es r n ≡ some (n', b)
    → Quiet n n'
unfolding handle_replicate_response
handle_replicate_response-Quiet t p es none n h = ground (arith, h)
handle_replicate_response-Quiet t p es (some r) n {n'} h =
    ground (arith, h, become_follower-Quiet r.term n, settle-Quiet p es r n {n' = n'})

-- The events that neither start nor win a campaign.
abbrev pub IsQuiet : Event → Type 0
IsQuiet election_timeout = ⊥
IsQuiet (vote_response t p r) = ⊥
IsQuiet _ = Unit

pub step-Quiet : (e : Event) (n : Node) {n' : Node} → IsQuiet e → step e n ≡ some n' → Quiet n n'
unfolding step reset_election_timer reset_heartbeat_timer delivered
step-Quiet start n f h = ground (arith, h)
step-Quiet election_timeout n f h = absurd f
step-Quiet (vote_request args) n f h =
    handle_request_vote-Quiet args n (state_of-eq-some (handle_request_vote args n) h).1
step-Quiet (append_request args) n f h =
    handle_append_entries-Quiet args n (state_of-eq-some (handle_append_entries args n) h).1
step-Quiet (vote_response t p r) n f h = absurd f
step-Quiet (heartbeat_response t p es r) n f h = handle_heartbeat_response-Quiet t p es r n h
step-Quiet (replicate_response t p es r) n f h =
    handle_replicate_response-Quiet t p es r n
      (state_of-eq-some (handle_replicate_response t p es r n) h).1
step-Quiet heartbeats_sent n f h = ground (arith, h)
step-Quiet (client_command b) n f h = ground (arith, h, SameVote-Quiet (submit-SameVote b n))
step-Quiet (batch_delivered b) n f h = ground (arith, h)
