-- ===== src/Raft/Run/Votes.antt =====
-- The term and the vote of a node through its handlers.
use gammaflow.Base.{
  ◌+◌, ◌≤◌, ◌<◌, ◌≡◌, refl, ◌≢◌, ◌∙◌, Option, none, some, List, arith, u64_mod, Bool, Bool-cases,
  inl, inr, ltb, bind-eq-some,
}
use gammaflow.Raft.Types.{
  NodeId, Term, LogIndex, LogEntry, RequestVoteArgs, RequestVoteReply, AppendEntriesArgs,
  AppendEntriesReply,
}
use gammaflow.Raft.Node.{
  Node, become_follower, stop_leading, reset_election_timer, save_term, save_vote,
}
use gammaflow.Raft.Node.Frame.{
  SameVote, current_term-become_follower, voted_for-become_follower, current_term-catch_up,
  voted_for-catch_up,
}
use gammaflow.Raft.Vote.{handle_request_vote}
use gammaflow.Raft.Vote.Grant.{reply_current, handle_request_vote-vote_kept}
use gammaflow.Raft.Append.{
  follow_leader, follow_commit, finish_append, handle_append_entries, check_consistency,
  store_entries,
}
use gammaflow.Raft.Election.{stand, start_election, become_leader, count_vote, handle_vote_response}
use gammaflow.Raft.Replication.{handle_heartbeat_response, handle_replicate_response}
use gammaflow.Raft.Run.Fields.{store_entries-SameVote, settle-SameDisk}

-- Later, in one order of terms: no smaller term, and in the same term the same vote.
pub record VoteKept (n n' : Node) : Type 0 where
  pub grows : n.current_term ≤ n'.current_term
  pub kept : n'.current_term ≡ n.current_term → n.voted_for ≢ "" → n'.voted_for ≡ n.voted_for

pub VoteKept-refl : (n : Node) → VoteKept n n
VoteKept-refl n = record { grows = omega arith; kept = λ _ _. refl }

pub VoteKept-trans : {a b c : Node} → VoteKept a b → VoteKept b c → VoteKept a c
VoteKept-trans {a} {b} {c} h k = record {
  grows = omega arith;
  kept = λ e v.
      let same : b.current_term ≡ a.current_term = omega arith in
      let first = h.kept same v in k.kept (omega arith) (rw first v) ∙ first;
}

pub SameVote-VoteKept : {n n' : Node} → SameVote n n' → VoteKept n n'
SameVote-VoteKept s = record { grows = omega arith; kept = λ _ _. s.voted_for }

become_follower-VoteKept : (t : Term) (n : Node) → VoteKept n (become_follower t n)
become_follower-VoteKept t n =
    ground (arith, current_term-become_follower t n, voted_for-become_follower t n)

pub handle_request_vote-VoteKept :
    (args : RequestVoteArgs) (n : Node) {n' : Node} {r : RequestVoteReply}
    → handle_request_vote args n ≡ some (n', r)
    → VoteKept n n'
handle_request_vote-VoteKept args n h = record {
  grows = (reply_current args n h).1;
  kept = handle_request_vote-vote_kept args n h;
}

follow_leader-VoteKept : (args : AppendEntriesArgs) (n : Node) → VoteKept n (follow_leader args n)
unfolding follow_leader stop_leading reset_election_timer
follow_leader-VoteKept args n =
    ground (arith, current_term-catch_up args.term n, voted_for-catch_up args.term n)

pub finish_append-SameVote :
    (args : AppendEntriesArgs) (n : Node) (reply : AppendEntriesReply)
    (c : Option (Term × LogIndex)) {n' : Node} {r : AppendEntriesReply}
    → finish_append args n reply c ≡ some (n', r)
    → SameVote n n'
unfolding finish_append follow_commit
finish_append-SameVote args n reply (some (t, i)) h = ground arith
finish_append-SameVote args n reply none h =
    let (m, stored, k) = bind-eq-some (store_entries args.prev_log_index 0 args.entries n) _ h in
    ground (arith, store_entries-SameVote args.prev_log_index 0 args.entries n stored, k)

pub handle_append_entries-VoteKept :
    (args : AppendEntriesArgs) (n : Node) {n' : Node} {r : AppendEntriesReply}
    → handle_append_entries args n ≡ some (n', r)
    → VoteKept n n'
unfolding handle_append_entries
handle_append_entries-VoteKept args n {n'} {r} h =
    elim (Bool-cases (ltb args.term n.current_term)) [
      | inl stale ↦ ground (arith, VoteKept-refl n)
      | inr fresh ↦
          let n₁ = follow_leader args n in
          let (c, _, k) = bind-eq-some (check_consistency args n₁.log) _ (rw fresh at h) in
          VoteKept-trans (follow_leader-VoteKept args n)
            (SameVote-VoteKept (finish_append-SameVote args n₁ _ c k))
    ]

pub start_election-VoteKept :
    (n : Node) {n' : Node} {args : RequestVoteArgs}
    → n.current_term + 1 < u64_mod
    → start_election n ≡ some (n', args)
    → VoteKept n n'
unfolding start_election stand save_term save_vote reset_election_timer
start_election-VoteKept n fits h = ground arith

pub handle_vote_response-VoteKept :
    (t : Term) (p : NodeId) (r : Option RequestVoteReply) (n : Node)
    → VoteKept n (handle_vote_response t p r n)
unfolding handle_vote_response count_vote become_leader
handle_vote_response-VoteKept t p none n = VoteKept-refl n
handle_vote_response-VoteKept t p (some r) n = ground (arith, become_follower-VoteKept r.term n)

pub handle_heartbeat_response-VoteKept :
    (t : Term) (p : NodeId) (es : List LogEntry) (r : Option AppendEntriesReply) (n : Node)
    {n' : Node}
    → handle_heartbeat_response t p es r n ≡ some n'
    → VoteKept n n'
unfolding handle_heartbeat_response
handle_heartbeat_response-VoteKept t p es none n h = ground arith
handle_heartbeat_response-VoteKept t p es (some r) n {n'} h =
    ground (arith, become_follower-VoteKept r.term n, settle-SameDisk p es r n {n' = n'})

pub handle_replicate_response-VoteKept :
    (t : Term) (p : NodeId) (es : List LogEntry) (r : Option AppendEntriesReply) (n : Node)
    {n' : Node} {b : Bool}
    → handle_replicate_response t p es r n ≡ some (n', b)
    → VoteKept n n'
unfolding handle_replicate_response
handle_replicate_response-VoteKept t p es none n h = ground arith
handle_replicate_response-VoteKept t p es (some r) n {n'} h =
    ground (arith, become_follower-VoteKept r.term n, settle-SameDisk p es r n {n' = n'})
