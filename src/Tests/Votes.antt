-- ===== src/Tests/Votes.antt =====
-- Votes: the theorems of Raft/Vote and Raft/Run at concrete inputs.
use mathlib.Core.Bool.{false≢true}
use gammaflow.Base.{inl, ◌≡◌, refl, ◌↔◌, some, true, false, [], ◌∷◌, arith, eq_iff}
use gammaflow.Raft.Types.{RequestVoteReply}
use gammaflow.Raft.Node.{Node, reset_election_timer}
use gammaflow.Raft.Vote.{handle_request_vote}
use gammaflow.Raft.Vote.Grant.{Deserves, granted_iff}
use gammaflow.Raft.Election.{start_election, handle_vote_response}
use gammaflow.Raft.Election.Campaign.{supporters}
use gammaflow.Raft.Commit.Advance.{IsMajority}
use gammaflow.Raft.Run.Leader.{leader-IsMajority}
use gammaflow.Raft.Run.Restarts.{Restarts}
use gammaflow.Raft.Run.{election_timeout, vote_response, vote_request, heartbeats_sent}
use gammaflow.Raft.Run.Votes.{VoteKept}
use gammaflow.Raft.Run.Ballot.{run-VoteKept, vote_once}
use gammaflow.Tests.Data.{node_1, ask, node_after, raft_calls}

abbrev voted : Node
voted = node_after (handle_request_vote (ask "node-2" 1) node_1)

-- node-2 gets the vote, the heartbeat timer is reset, and node-2 asks again.
vote_once_example : (ask "node-2" 1).candidate_id ≡ (ask "node-2" 1).candidate_id
unfolding raft_calls
vote_once_example =
    vote_once (ask "node-2" 1) (ask "node-2" 1) (heartbeats_sent ∷ []) node_1 refl refl
      (λ e. false≢true ((eq_iff "node-2" "").1 e)) (tt, tt) refl refl refl refl

-- Another candidate of the term is refused.
second_refused :
    (n : Node) × (handle_request_vote (ask "node-3" 1) voted
      ≡ some (n, record { term = 1; vote_granted = false }))
unfolding raft_calls
second_refused = (voted, refl)

-- A node that voted for node-2 in term 1 stands for term 2, and is asked for its vote there.
run-VoteKept_example : VoteKept voted (node_after (start_election voted))
unfolding raft_calls
run-VoteKept_example =
    run-VoteKept (election_timeout ∷ vote_request (ask "node-3" 2) ∷ []) voted
      (omega arith, (tt, tt)) refl

granted_iff_example :
    let r : RequestVoteReply = record { term = 1; vote_granted = true } in
    (r.vote_granted ≡ true) ↔ Deserves (ask "node-2" 1) node_1 0
unfolding raft_calls
granted_iff_example = granted_iff (ask "node-2" 1) node_1 refl 0 refl

abbrev granted : RequestVoteReply
granted = record { term = 1; vote_granted = true }

abbrev chosen : Node
chosen = handle_vote_response 1 "node-2" (some granted) (node_after (start_election node_1))

-- node-1 stands for term 1, node-2 grants its vote, and the two are enough.
leader-IsMajority_example :
    IsMajority (supporters chosen.votes_received ("node-1" ∷ "node-2" ∷ "node-3" ∷ [])) chosen
unfolding raft_calls
leader-IsMajority_example =
    leader-IsMajority (election_timeout ∷ vote_response 1 "node-2" (some granted) ∷ []) node_1 refl
      (
        (
          λ e. absurd (false≢true ((eq_iff "node-2" "node-1").1 e)),
          (λ e. absurd (false≢true ((eq_iff "node-3" "node-1").1 e)), tt),
        ),
        ((λ e. absurd (false≢true ((eq_iff "node-3" "node-2").1 e)), tt), (tt, tt)),
      )
      (tt, (inl refl, tt)) refl refl

-- A candidate of term 1, after a start and a timeout, hears of the leader of term 3.
abbrev campaigning : Node
campaigning = node_after (start_election (reset_election_timer node_1))
