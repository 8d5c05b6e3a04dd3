-- ===== src/Raft/Vote/Grant.antt =====
-- When `HandleRequestVote` grants a vote, and what it leaves behind.
use gammaflow.Base.{◌≤◌, ◌<◌, ◌≡◌, ◌≢◌, ◌↔◌, ◌⊎◌, true, some, arith, eq_iff}
use gammaflow.Raft.Types.{Term, RequestVoteArgs, RequestVoteReply}
use gammaflow.Raft.Log.{RaftLog, last_index, last_term}
use gammaflow.Raft.Node.{Node, catch_up, reset_election_timer, save_vote}
use gammaflow.Raft.Node.Frame.{
  SameData, current_term-catch_up, voted_for-catch_up, catch_up-SameData,
}
use gammaflow.Raft.Vote.{is_log_up_to_date, handle_request_vote}

-- The candidate's log is at least as up to date as a log with the given last term and index.
abbrev pub UpToDate : RequestVoteArgs → Term → RaftLog → Type 0
UpToDate args t l =
    (t < args.last_log_term) ⊎ ((args.last_log_term ≡ t) × (last_index l ≤ args.last_log_index))

abbrev pub IsFree : RequestVoteArgs → Node → Type 0
IsFree args n =
    (n.current_term < args.term) ⊎ (n.voted_for ≡ "") ⊎ (n.voted_for ≡ args.candidate_id)

-- The rule for granting a vote, where `t` is the term of the voter's last entry.
pub record Deserves (args : RequestVoteArgs) (n : Node) (t : Term) : Type 0 where
  pub current : n.current_term ≤ args.term
  pub free : IsFree args n
  pub up_to_date : UpToDate args t n.log

module _ (args : RequestVoteArgs) (n : Node) {n' : Node} {r : RequestVoteReply}
    (handled : handle_request_vote args n ≡ some (n', r)) where
  -- A request that returns is granted exactly when the rule allows it: the term is not behind, the
  -- vote is free (a newer term, no vote yet, or the same candidate), and the log is up to date.
  pub granted_iff :
      (t : Term) → last_term n.log ≡ some t → (r.vote_granted ≡ true) ↔ Deserves args n t
  unfolding handle_request_vote is_log_up_to_date reset_election_timer save_vote
  granted_iff t e = ground (
    arith,
    current_term-catch_up args.term n,
    voted_for-catch_up args.term n,
    (catch_up-SameData args.term n).log,
    eq_iff (catch_up args.term n).voted_for args.candidate_id,
    eq_iff (catch_up args.term n).voted_for "",
  )

  -- The reply carries the voter's term afterwards, which is behind neither its old one nor the
  -- candidate's.
  pub reply_current :
      (r.term ≡ n'.current_term)
      × (n.current_term ≤ n'.current_term)
      × (args.term ≤ n'.current_term)
  unfolding handle_request_vote is_log_up_to_date reset_election_timer save_vote
  reply_current = ground (arith, current_term-catch_up args.term n)

  pub granted_recorded :
      r.vote_granted ≡ true → (n'.voted_for ≡ args.candidate_id) × (n'.current_term ≡ args.term)
  unfolding handle_request_vote is_log_up_to_date reset_election_timer save_vote
  granted_recorded g = ground (arith, current_term-catch_up args.term n)

  pub handle_request_vote-vote_kept :
      n'.current_term ≡ n.current_term → n.voted_for ≢ "" → n'.voted_for ≡ n.voted_for
  unfolding handle_request_vote is_log_up_to_date reset_election_timer save_vote
  handle_request_vote-vote_kept e v = ground (
    arith,
    current_term-catch_up args.term n,
    voted_for-catch_up args.term n,
    eq_iff (catch_up args.term n).voted_for args.candidate_id,
    eq_iff (catch_up args.term n).voted_for "",
  )

  -- A vote request touches neither the log nor any index.
  pub handle_request_vote-SameData : SameData n n'
  unfolding handle_request_vote is_log_up_to_date reset_election_timer save_vote
  handle_request_vote-SameData = ground (arith, catch_up-SameData args.term n)
