-- ===== src/Raft/Run/Restarts.antt =====
-- Which events start the election timer anew.
use gammaflow.Base.{
  ℕ, ◌+◌, ◌<◌, ◌≡◌, ◌∙◌, ◌⊎◌, false, tests, Bool, Bool-cases, refl, inl, inr, Option, none, some,
  List, arith, ltb, bind-eq-some,
}
use gammaflow.Raft.Types.{
  NodeId, Term, LogEntry, RequestVoteArgs, RequestVoteReply, AppendEntriesArgs, AppendEntriesReply,
}
use gammaflow.Raft.Node.{
  Node, Timer, running, int63n, later_draws, save_term, save_vote, stop_leading,
  reset_election_timer, adopt_term, become_follower, catch_up,
}
use gammaflow.Raft.Vote.{handle_request_vote, is_log_up_to_date}
use gammaflow.Raft.Append.{follow_leader, check_consistency, handle_append_entries}
use gammaflow.Raft.Election.{stand, start_election, become_leader, count_vote, handle_vote_response}
use gammaflow.Raft.Replication.{
  handle_heartbeat_response, handle_replicate_response, reset_heartbeat_timer,
}
use gammaflow.Raft.Apply.{delivered}
use gammaflow.Raft.Run.{
  Event, start, election_timeout, vote_request, append_request, vote_response, heartbeat_response,
  replicate_response, heartbeats_sent, client_command, batch_delivered, state_of-eq-some, step,
}
use gammaflow.Raft.Run.Fields.{settle-SameDisk, submit-SameVote}
use gammaflow.Raft.Run.Votes.{finish_append-SameVote}

-- The election timer runs anew, with the next draw, or with the one after it where the term changed
-- on the way.
abbrev pub drawn : List ℕ → Timer
drawn ds = running (150000000 + int63n 150000000 ds)

abbrev pub Restarted : Node → Node → Type 0
Restarted n n' =
    (n'.election_timer ≡ drawn n.draws) ⊎ (n'.election_timer ≡ drawn (later_draws n.draws))

-- No vote is given.
pub record Refused (args : RequestVoteArgs) (n : Node) : Type 0 where
  pub after : Node
  pub reply : RequestVoteReply
  pub handled : handle_request_vote args n ≡ some (after, reply)
  pub refused : reply.vote_granted ≡ false

abbrev pub SameTerm : Node → Node → Type 0
SameTerm n n' = n'.current_term ≡ n.current_term

-- What restarts the timer: a start, a timeout, a message of a leader whose term is not old, a vote
-- that is given, and whatever else brings a new term.
abbrev pub Restarts : Event → Node → Node → Type 0
Restarts start n n' = Restarted n n'
Restarts election_timeout n n' = Restarted n n'
Restarts (append_request args) n n' = (args.term < n.current_term) ⊎ Restarted n n'
Restarts (vote_request args) n n' = (Refused args n × SameTerm n n') ⊎ Restarted n n'
Restarts _ n n' = SameTerm n n' ⊎ Restarted n n'

follow_leader-Restarted : (args : AppendEntriesArgs) (n : Node) → Restarted n (follow_leader args n)
unfolding follow_leader stop_leading reset_election_timer catch_up become_follower adopt_term
    save_term
follow_leader-Restarted args n = ground arith

become_follower-Restarted : (t : Term) (n : Node) → Restarted n (become_follower t n)
unfolding become_follower adopt_term save_term stop_leading reset_election_timer
become_follower-Restarted t n = ground arith

refused_or-Restarted :
    (args : RequestVoteArgs) (n : Node) {n' : Node} {r : RequestVoteReply}
    → handle_request_vote args n ≡ some (n', r)
    → ((r.vote_granted ≡ false) × SameTerm n n') ⊎ Restarted n n'
unfolding handle_request_vote is_log_up_to_date save_vote save_term reset_election_timer catch_up
    become_follower adopt_term stop_leading
refused_or-Restarted args n h = ground (arith, h)

handle_append_entries-Restarted :
    (args : AppendEntriesArgs) (n : Node) {n' : Node} {r : AppendEntriesReply}
    → handle_append_entries args n ≡ some (n', r)
    → (args.term < n.current_term) ⊎ Restarted n n'
unfolding handle_append_entries
handle_append_entries-Restarted args n h = elim (Bool-cases (ltb args.term n.current_term)) [
  | inl stale ↦ inl (omega tests)
  | inr fresh ↦
      let n₁ = follow_leader args n in
      let (c, _, k) = bind-eq-some (check_consistency args n₁.log) _ (rw fresh at h) in
      let same = (finish_append-SameVote args n₁ _ c k).election_timer in
      inr (elim (follow_leader-Restarted args n) [
        | inl first ↦ inl (same ∙ first)
        | inr second ↦ inr (same ∙ second)
      ])
]

handle_request_vote-Restarted :
    (args : RequestVoteArgs) (n : Node) {n' : Node} {r : RequestVoteReply}
    → handle_request_vote args n ≡ some (n', r)
    → (Refused args n × SameTerm n n') ⊎ Restarted n n'
handle_request_vote-Restarted args n {n'} {r} h = elim (refused_or-Restarted args n h) [
  | inl (refused, same) ↦
      inl (record { after = n'; reply = r; handled = h; refused = refused }, same)
  | inr restarted ↦ inr restarted
]

handle_vote_response-Restarted :
    (t : Term) (p : NodeId) (r : Option RequestVoteReply) (n : Node)
    → SameTerm n (handle_vote_response t p r n) ⊎ Restarted n (handle_vote_response t p r n)
unfolding handle_vote_response count_vote become_leader
handle_vote_response-Restarted t p none n = inl refl
handle_vote_response-Restarted t p (some r) n = ground (arith, become_follower-Restarted r.term n)

handle_heartbeat_response-Restarted :
    (t : Term) (p : NodeId) (es : List LogEntry) (r : Option AppendEntriesReply) (n : Node)
    {n' : Node}
    → handle_heartbeat_response t p es r n ≡ some n'
    → SameTerm n n' ⊎ Restarted n n'
unfolding handle_heartbeat_response
handle_heartbeat_response-Restarted t p es none n h = ground (arith, h)
handle_heartbeat_response-Restarted t p es (some r) n {n'} h =
    ground (arith, h, become_follower-Restarted r.term n, settle-SameDisk p es r n {n' = n'})

handle_replicate_response-Restarted :
    (t : Term) (p : NodeId) (es : List LogEntry) (r : Option AppendEntriesReply) (n : Node)
    {n' : Node} {b : Bool}
    → handle_replicate_response t p es r n ≡ some (n', b)
    → SameTerm n n' ⊎ Restarted n n'
unfolding handle_replicate_response
handle_replicate_response-Restarted t p es none n h = ground (arith, h)
handle_replicate_response-Restarted t p es (some r) n {n'} h =
    ground (arith, h, become_follower-Restarted r.term n, settle-SameDisk p es r n {n' = n'})

pub step-Restarts : (e : Event) (n : Node) {n' : Node} → step e n ≡ some n' → Restarts e n n'
unfolding step reset_election_timer start_election stand save_term save_vote reset_heartbeat_timer
    delivered
step-Restarts start n h = inl (ground (arith, h))
step-Restarts election_timeout n h = inl (ground (arith, h))
step-Restarts (vote_request args) n h =
    handle_request_vote-Restarted args n (state_of-eq-some (handle_request_vote args n) h).1
step-Restarts (append_request args) n h =
    handle_append_entries-Restarted args n (state_of-eq-some (handle_append_entries args n) h).1
step-Restarts (vote_response t p r) n h = ground (arith, h, handle_vote_response-Restarted t p r n)
step-Restarts (heartbeat_response t p es r) n h = handle_heartbeat_response-Restarted t p es r n h
step-Restarts (replicate_response t p es r) n h =
    handle_replicate_response-Restarted t p es r n
      (state_of-eq-some (handle_replicate_response t p es r n) h).1
step-Restarts heartbeats_sent n h = inl (ground (arith, h))
step-Restarts (client_command c) n h = inl (ground (arith, h, submit-SameVote c n))
step-Restarts (batch_delivered b) n h = inl (ground (arith, h))
