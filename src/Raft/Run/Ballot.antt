-- ===== src/Raft/Run/Ballot.antt =====
-- INVARIANTS 1 and 2 of node.go over the runs of a node.
use gammaflow.Base.{◌≡◌, ◌≢◌, ◌∙◌, sym, some, List, [], ◌∷◌, arith, true, bind-eq-some}
use gammaflow.Raft.Types.{RequestVoteArgs, RequestVoteReply}
use gammaflow.Raft.Node.{Node, reset_election_timer}
use gammaflow.Raft.Vote.{handle_request_vote}
use gammaflow.Raft.Vote.Grant.{granted_recorded}
use gammaflow.Raft.Append.{handle_append_entries}
use gammaflow.Raft.Election.{start_election}
use gammaflow.Raft.Replication.{handle_replicate_response, reset_heartbeat_timer}
use gammaflow.Raft.Apply.{delivered}
use gammaflow.Raft.Run.{
  Event, start, election_timeout, vote_request, append_request, vote_response, heartbeat_response,
  replicate_response, heartbeats_sent, client_command, batch_delivered, state_of-eq-some, step, run,
  StepFits, TermsFit,
}
use gammaflow.Raft.Run.Fields.{submit-SameVote}
use gammaflow.Raft.Run.Votes.{
  VoteKept, VoteKept-refl, VoteKept-trans, handle_request_vote-VoteKept,
  handle_append_entries-VoteKept, start_election-VoteKept, handle_vote_response-VoteKept,
  handle_heartbeat_response-VoteKept, handle_replicate_response-VoteKept,
}

pub step-VoteKept :
    (e : Event) (n : Node) {n' : Node} → StepFits e n → step e n ≡ some n' → VoteKept n n'
unfolding step reset_election_timer reset_heartbeat_timer delivered
step-VoteKept start n f h = ground arith
step-VoteKept election_timeout n f h =
    start_election-VoteKept n f (state_of-eq-some (start_election n) h).1
step-VoteKept (vote_request args) n f h =
    handle_request_vote-VoteKept args n (state_of-eq-some (handle_request_vote args n) h).1
step-VoteKept (append_request args) n f h =
    handle_append_entries-VoteKept args n (state_of-eq-some (handle_append_entries args n) h).1
step-VoteKept (vote_response t p r) n f h = ground (arith, handle_vote_response-VoteKept t p r n)
step-VoteKept (heartbeat_response t p es r) n f h = handle_heartbeat_response-VoteKept t p es r n h
step-VoteKept (replicate_response t p es r) n f h =
    handle_replicate_response-VoteKept t p es r n
      (state_of-eq-some (handle_replicate_response t p es r n) h).1
step-VoteKept heartbeats_sent n f h = ground arith
step-VoteKept (client_command c) n f h = ground (arith, submit-SameVote c n)
step-VoteKept (batch_delivered b) n f h = ground arith

-- Over any run that does not panic the term never falls, and as long as it stays the same a vote
-- that was cast is kept. (The term counter is assumed not to wrap.)
pub run-VoteKept :
    (es : List Event) (n : Node) {n' : Node} → TermsFit es n → run es n ≡ some n' → VoteKept n n'
unfolding run
run-VoteKept [] n f h = ground (arith, VoteKept-refl n)
run-VoteKept (e ∷ es) n f h =
    let (m, stepped, rest) = bind-eq-some (step e n) (run es) h in
    VoteKept-trans (step-VoteKept e n f.0 stepped) (run-VoteKept es m (rw stepped at f.1) rest)

-- No double vote: a node that granted its vote for a term, and then lives through any run, grants a
-- vote for the same term to the same candidate only. (Candidates have a name, and the term counter
-- is assumed not to wrap in the run.)
pub vote_once :
    (a b : RequestVoteArgs) (es : List Event) (n : Node) {n₁ n₂ n₃ : Node} {r s : RequestVoteReply}
    → handle_request_vote a n ≡ some (n₁, r)
    → r.vote_granted ≡ true
    → a.candidate_id ≢ ""
    → TermsFit es n₁
    → run es n₁ ≡ some n₂
    → handle_request_vote b n₂ ≡ some (n₃, s)
    → s.vote_granted ≡ true
    → b.term ≡ a.term
    → b.candidate_id ≡ a.candidate_id
vote_once a b es n {n₁} {n₂} first g named fits ran second g' same =
    let (cast, term) = granted_recorded a n first g in
    let (cast', term') = granted_recorded b n₂ second g' in
    let later =
      VoteKept-trans (run-VoteKept es n₁ fits ran) (handle_request_vote-VoteKept b n₂ second) in
    sym cast' ∙ later.kept (term' ∙ same ∙ sym term) (rw cast named) ∙ cast
