-- ===== src/Raft/Node/Frame.antt =====
-- What the shared transitions of node.go write, field by field, and what they leave alone.
use gammaflow.Base.{◌⊎◌, inl, inr, ◌≡◌, arith, ltb, if◌then◌else◌}
use gammaflow.Storage.Wal.{persist_term}
use gammaflow.Raft.Types.{Term, follower}
use gammaflow.Raft.Node.{
  Node, reset_election_timer, save_term, stop_leading, adopt_term, become_follower, catch_up,
  wal_after,
}

-- The two nodes agree on identity, log, commit and apply positions and the leader's bookkeeping.
pub record SameData (n n' : Node) : Type 0 where
  pub id : n'.id ≡ n.id
  pub peers : n'.peers ≡ n.peers
  pub log : n'.log ≡ n.log
  pub commit_index : n'.commit_index ≡ n.commit_index
  pub last_applied : n'.last_applied ≡ n.last_applied
  pub next_index : n'.next_index ≡ n.next_index
  pub match_index : n'.match_index ≡ n.match_index

-- They agree on what concerns elections and on the timers, and on the log and the WAL.
pub record SameDisk (n n' : Node) : Type 0 where
  pub current_term : n'.current_term ≡ n.current_term
  pub voted_for : n'.voted_for ≡ n.voted_for
  pub log : n'.log ≡ n.log
  pub wal : n'.wal ≡ n.wal
  pub id : n'.id ≡ n.id
  pub peers : n'.peers ≡ n.peers
  pub state : n'.state ≡ n.state
  pub votes : n'.votes ≡ n.votes
  pub votes_received : n'.votes_received ≡ n.votes_received
  pub election_timer : n'.election_timer ≡ n.election_timer
  pub heartbeat_timer : n'.heartbeat_timer ≡ n.heartbeat_timer

-- They agree on what concerns elections, and on the timers.
pub record SameVote (n n' : Node) : Type 0 where
  pub current_term : n'.current_term ≡ n.current_term
  pub voted_for : n'.voted_for ≡ n.voted_for
  pub id : n'.id ≡ n.id
  pub peers : n'.peers ≡ n.peers
  pub state : n'.state ≡ n.state
  pub votes : n'.votes ≡ n.votes
  pub votes_received : n'.votes_received ≡ n.votes_received
  pub election_timer : n'.election_timer ≡ n.election_timer
  pub heartbeat_timer : n'.heartbeat_timer ≡ n.heartbeat_timer

pub SameDisk-SameVote : {n n' : Node} → SameDisk n n' → SameVote n n'
SameDisk-SameVote s = ground arith

-- They agree on the campaign: the role, its term and the votes.
pub record SameBallot (n n' : Node) : Type 0 where
  pub current_term : n'.current_term ≡ n.current_term
  pub state : n'.state ≡ n.state
  pub votes : n'.votes ≡ n.votes
  pub votes_received : n'.votes_received ≡ n.votes_received

-- No campaign was started or won: one that was going on is as it was, or given up.
pub record Quiet (n n' : Node) : Type 0 where
  pub id : n'.id ≡ n.id
  pub peers : n'.peers ≡ n.peers
  pub ballot : (n'.state ≡ follower) ⊎ SameBallot n n'

pub SameVote-Quiet : {n n' : Node} → SameVote n n' → Quiet n n'
SameVote-Quiet s = record {
  id = s.id;
  peers = s.peers;
  ballot = inr (record {
    current_term = s.current_term;
    state = s.state;
    votes = s.votes;
    votes_received = s.votes_received;
  });
}

module _ (t : Term) (n : Node) where
  pub become_follower-SameData : SameData n (become_follower t n)
  unfolding become_follower adopt_term save_term stop_leading reset_election_timer
  become_follower-SameData = ground arith

  pub current_term-become_follower :
      (become_follower t n).current_term ≡ (if ltb n.current_term t then t else n.current_term)
  unfolding become_follower adopt_term save_term stop_leading reset_election_timer
  current_term-become_follower = ground arith

  pub voted_for-become_follower :
      (become_follower t n).voted_for ≡ (if ltb n.current_term t then "" else n.voted_for)
  unfolding become_follower adopt_term save_term stop_leading reset_election_timer
  voted_for-become_follower = ground arith

  pub wal-become_follower :
      (become_follower t n).wal
      ≡ (if ltb n.current_term t then wal_after (persist_term t) n.wal else n.wal)
  unfolding become_follower adopt_term save_term stop_leading reset_election_timer
  wal-become_follower = ground arith

  pub state-become_follower : (become_follower t n).state ≡ follower
  unfolding become_follower adopt_term save_term stop_leading reset_election_timer
  state-become_follower = ground arith

  pub catch_up-SameData : SameData n (catch_up t n)
  unfolding catch_up
  catch_up-SameData = ground (arith, become_follower-SameData)

  pub current_term-catch_up :
      (catch_up t n).current_term ≡ (if ltb n.current_term t then t else n.current_term)
  unfolding catch_up
  current_term-catch_up = ground (arith, current_term-become_follower)

  pub voted_for-catch_up :
      (catch_up t n).voted_for ≡ (if ltb n.current_term t then "" else n.voted_for)
  unfolding catch_up
  voted_for-catch_up = ground (arith, voted_for-become_follower)

  pub wal-catch_up :
      (catch_up t n).wal
      ≡ (if ltb n.current_term t then wal_after (persist_term t) n.wal else n.wal)
  unfolding catch_up
  wal-catch_up = ground (arith, wal-become_follower)

  pub become_follower-Quiet : Quiet n (become_follower t n)
  become_follower-Quiet = record {
    id = become_follower-SameData.id;
    peers = become_follower-SameData.peers;
    ballot = inl state-become_follower;
  }

  pub catch_up-Quiet : Quiet n (catch_up t n)
  unfolding catch_up
  catch_up-Quiet = ground (arith, become_follower-Quiet)
