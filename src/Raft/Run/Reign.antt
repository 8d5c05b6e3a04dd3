-- ===== src/Raft/Run/Reign.antt =====
-- The reign of a leader: what a node keeps as long as its term lasts.
use gammaflow.Base.{
  ◌+◌, ◌≤◌, ◌<◌, ◌≡◌, ◌++◌, ◌∙◌, ◌⊎◌, inl, inr, refl, Bool, true, Bool-cases, Option, none, some,
  List, [], ◌∷◌, arith, tests, ltb, bind-eq-some, u64_mod, add64,
}
use gammaflow.Raft.Types.{
  Bytes, follower, candidate, leader, NodeId, Term, LogEntry, RequestVoteArgs, RequestVoteReply,
  AppendEntriesArgs, AppendEntriesReply,
}
use gammaflow.Raft.Node.{
  Node, is_leader_state, save_term, save_vote, stop_leading, reset_election_timer, catch_up,
  become_follower,
}
use gammaflow.Raft.Node.Frame.{
  SameDisk, SameBallot, state-become_follower, become_follower-SameData,
  current_term-become_follower,
}
use gammaflow.Raft.Vote.{handle_request_vote, is_log_up_to_date}
use gammaflow.Raft.Append.{follow_leader, check_consistency, handle_append_entries}
use gammaflow.Raft.Election.{start_election, stand, handle_vote_response, count_vote, become_leader}
use gammaflow.Raft.Replication.{
  settle, handle_heartbeat_response, handle_replicate_response, reset_heartbeat_timer,
}
use gammaflow.Raft.Apply.{delivered}
use gammaflow.Raft.Run.{
  Event, start, election_timeout, vote_request, append_request, vote_response, heartbeat_response,
  replicate_response, heartbeats_sent, client_command, batch_delivered, state_of-eq-some, step,
}
use gammaflow.Raft.Run.Fields.{settle-SameDisk}
use gammaflow.Raft.Run.Votes.{finish_append-SameVote}
use gammaflow.Raft.Append.Outcome.{current_term-follow_leader}
use gammaflow.Raft.Submit.{submit}
use gammaflow.Raft.Log
use gammaflow.Raft.Log.{last_index}

-- The role lasts as long as the term, and the log stays.
pub record Holds (n n' : Node) : Type 0 where
  pub log : n'.log ≡ n.log
  pub ballot : (n.current_term < n'.current_term) ⊎ SameBallot n n'

SameDisk-Holds : {n n' : Node} → SameDisk n n' → Holds n n'
SameDisk-Holds s = record {
  log = s.log;
  ballot = inr (record {
    current_term = s.current_term;
    state = s.state;
    votes = s.votes;
    votes_received = s.votes_received;
  });
}

-- To follow a newer term ends the old one.
become_follower-Holds :
    (t : Term) (n : Node) → ltb n.current_term t ≡ true → Holds n (become_follower t n)
become_follower-Holds t n newer = record {
  log = (become_follower-SameData t n).log;
  ballot = inl (ground (arith, newer, current_term-become_follower t n));
}

catch_up-Holds : (t : Term) (n : Node) → Holds n (catch_up t n)
unfolding catch_up
catch_up-Holds t n = ground (arith, become_follower-Holds t n)

handle_request_vote-Holds :
    (args : RequestVoteArgs) (n : Node) {n' : Node} {r : RequestVoteReply}
    → handle_request_vote args n ≡ some (n', r)
    → Holds n n'
unfolding handle_request_vote is_log_up_to_date save_vote reset_election_timer
handle_request_vote-Holds args n h = ground (arith, h, catch_up-Holds args.term n)

settle-Holds :
    (p : NodeId) (es : List LogEntry) (r : AppendEntriesReply) (n : Node) {n' : Node}
    → settle p es r n ≡ some n'
    → Holds n n'
settle-Holds p es r n h = SameDisk-Holds (settle-SameDisk p es r n h)

handle_heartbeat_response-Holds :
    (t : Term) (p : NodeId) (es : List LogEntry) (r : Option AppendEntriesReply) (n : Node)
    {n' : Node}
    → handle_heartbeat_response t p es r n ≡ some n'
    → Holds n n'
unfolding handle_heartbeat_response
handle_heartbeat_response-Holds t p es none n h = ground (arith, h)
handle_heartbeat_response-Holds t p es (some r) n {n'} h =
    ground (arith, h, become_follower-Holds r.term n, settle-Holds p es r n {n' = n'})

handle_replicate_response-Holds :
    (t : Term) (p : NodeId) (es : List LogEntry) (r : Option AppendEntriesReply) (n : Node)
    {n' : Node} {b : Bool}
    → handle_replicate_response t p es r n ≡ some (n', b)
    → Holds n n'
unfolding handle_replicate_response
handle_replicate_response-Holds t p es none n h = ground (arith, h)
handle_replicate_response-Holds t p es (some r) n {n'} h =
    ground (arith, h, become_follower-Holds r.term n, settle-Holds p es r n {n' = n'})

-- Events that touch neither the log nor, within its term, the role.
abbrev pub IsCalm : Event → Type 0
IsCalm election_timeout = ⊥
IsCalm (vote_response t p r) = ⊥
IsCalm (append_request args) = ⊥
IsCalm (client_command c) = ⊥
IsCalm _ = Unit

pub step-Holds : (e : Event) (n : Node) {n' : Node} → IsCalm e → step e n ≡ some n' → Holds n n'
unfolding step reset_election_timer reset_heartbeat_timer delivered
step-Holds start n f h = ground (arith, h)
step-Holds election_timeout n f h = absurd f
step-Holds (vote_request args) n f h =
    handle_request_vote-Holds args n (state_of-eq-some (handle_request_vote args n) h).1
step-Holds (append_request args) n f h = absurd f
step-Holds (vote_response t p r) n f h = absurd f
step-Holds (heartbeat_response t p es r) n f h = handle_heartbeat_response-Holds t p es r n h
step-Holds (replicate_response t p es r) n f h =
    handle_replicate_response-Holds t p es r n
      (state_of-eq-some (handle_replicate_response t p es r n) h).1
step-Holds heartbeats_sent n f h = ground (arith, h)
step-Holds (client_command b) n f h = absurd f
step-Holds (batch_delivered b) n f h = ground (arith, h)

-- A timeout starts a new term.
pub start_election-turn :
    (n : Node) {n' : Node} {args : RequestVoteArgs}
    → n.current_term + 1 < u64_mod
    → start_election n ≡ some (n', args)
    → (n'.state ≡ candidate) × (n.current_term < n'.current_term) × (n'.log ≡ n.log)
unfolding start_election stand save_term save_vote reset_election_timer
start_election-turn n fits h = ground (arith, h)

-- A vote response ends the term, changes no role, or makes the leader.
pub handle_vote_response-turn :
    (t : Term) (p : NodeId) (r : RequestVoteReply) (n : Node)
    → let n' = handle_vote_response t p (some r) n in
      (n'.log ≡ n.log)
      × (((n.current_term < n'.current_term) × (n'.state ≡ follower))
          ⊎ ((n'.current_term ≡ n.current_term) × (n'.state ≡ n.state))
          ⊎ ((n'.current_term ≡ n.current_term) × (n.state ≡ candidate) × (n'.state ≡ leader)))
unfolding handle_vote_response count_vote become_leader
handle_vote_response-turn t p r n = ground (
  arith,
  (become_follower-SameData r.term n).log,
  current_term-become_follower r.term n,
  state-become_follower r.term n,
)

pub state-follow_leader :
    (args : AppendEntriesArgs) (n : Node) → (follow_leader args n).state ≡ follower
unfolding follow_leader stop_leading reset_election_timer
state-follow_leader args n = ground arith

-- A message of a leader is stale, or is followed.
pub handle_append_entries-turn :
    (args : AppendEntriesArgs) (n : Node) {n' : Node} {r : AppendEntriesReply}
    → handle_append_entries args n ≡ some (n', r)
    → (n' ≡ n)
      ⊎ ((n'.state ≡ follower) × (n'.current_term ≡ args.term) × (n.current_term ≤ args.term))
unfolding handle_append_entries
handle_append_entries-turn args n h = elim (Bool-cases (ltb args.term n.current_term)) [
  | inl stale ↦ ground (arith, h, stale)
  | inr fresh ↦
      let n₁ = follow_leader args n in
      let (c, _, k) = bind-eq-some (check_consistency args n₁.log) _ (rw fresh at h) in
      let same = finish_append-SameVote args n₁ _ c k in
      inr (
        same.state ∙ state-follow_leader args n,
        same.current_term ∙ current_term-follow_leader args n (omega tests),
        omega tests,
      )
]

-- A command is refused, or is the last entry of the leader's log.
pub submit-turn :
    (c : Bytes) (n : Node)
    → let n' = (submit c n).0 in
      (n' ≡ n)
      ⊎ ((n.state ≡ leader)
          × ((e : LogEntry) × (e.term ≡ n.current_term)
              × (n'.log.entries ≡ n.log.entries ++ e ∷ [])))
unfolding submit Log.append
submit-turn c n = elim (Bool-cases (is_leader_state n.state)) [
  | inr other ↦ inl (rw other refl)
  | inl leads ↦
      let e : LogEntry = record {
        term = n.current_term;
        index = add64 (last_index n.log) 1;
        command = c;
      } in
      inr (ground (arith, leads), (e, refl, ground (arith, leads)))
]
