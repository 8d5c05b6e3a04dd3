-- ===== src/Raft/Append/Description.antt =====
-- What `HandleAppendEntries` promises for the message of a leader, said without its functions.
use gammaflow.Base.{
  ℕ, suc, ◌+◌, ◌-◌, ◌<◌, ◌≡◌, ◌≢◌, ◌⊎◌, List, ◌++◌, true, false, ltb, if◌then◌else◌, length, take,
  drop, min,
}
use gammaflow.Raft.Types.{follower, leader, LogEntry, AppendEntriesArgs, AppendEntriesReply}
use gammaflow.Raft.Log.View.{term_of}
use gammaflow.Raft.Node.{Node, running, int63n, later_draws, stop_timer}
use gammaflow.Raft.Append.Safety.{HasPrevious}
use gammaflow.Raft.Append.Refusal.{Hint}

-- A message of an old term changes nothing, and is answered by the newer term.
pub record Ignores (args : AppendEntriesArgs) (n n' : Node) (r : AppendEntriesReply) : Type 0 where
  pub old : args.term < n.current_term
  pub node : n' ≡ n
  pub reply :
      r ≡ record { term = n.current_term; success = false; conflict_term = 0; conflict_index = 0 }

-- The node follows the sender in the message's term. It has no vote in a term that is new to it,
-- its election timer runs anew, and a leader's heartbeat timer is stopped. The durations are
-- nanoseconds.
pub record Followed (args : AppendEntriesArgs) (n n' : Node) : Type 0 where
  pub id : n'.id ≡ n.id
  pub peers : n'.peers ≡ n.peers
  pub last_applied : n'.last_applied ≡ n.last_applied
  pub next_index : n'.next_index ≡ n.next_index
  pub match_index : n'.match_index ≡ n.match_index
  pub current_term : n'.current_term ≡ args.term
  pub voted_for : n'.voted_for ≡ (if ltb n.current_term args.term then "" else n.voted_for)
  pub state : n'.state ≡ follower
  pub leader_id : n'.leader_id ≡ args.leader_id
  pub election_timer :
      n'.election_timer
      ≡ running (
          150000000
          + int63n 150000000
              (if ltb n.current_term args.term then later_draws n.draws else n.draws))
  pub heartbeat_timer : (n.state ≢ leader) ⊎ (n'.heartbeat_timer ≡ stop_timer n.heartbeat_timer)

-- The entries `new` come where `old` stands: the first `place` of them are there in their terms. If
-- that is all of them, `old` stays as it is; otherwise `old` ends there or has another term there,
-- and is cut there and continued by the rest of `new`.
pub record Placed (old new after : List LogEntry) : Type 0 where
  pub place : ℕ
  pub agree : (i : ℕ) → i < place → (i < length old) × (term_of old i ≡ term_of new i)
  pub rest :
      ((place ≡ length new) × (after ≡ old))
      ⊎ ((place < length new)
          × ((length old ≡ place) ⊎ (term_of old place ≢ term_of new place))
          × (after ≡ take place old ++ drop place new))

pub record Accepts (args : AppendEntriesArgs) (n n' : Node) (r : AppendEntriesReply) : Type 0 where
  pub reply : r ≡ record { term = args.term; success = true; conflict_term = 0; conflict_index = 0 }
  pub previous : HasPrevious args n.log
  pub after : List LogEntry
  pub placed : Placed (drop (suc args.prev_log_index) n.log.entries) args.entries after
  pub log : n'.log.entries ≡ take (suc args.prev_log_index) n.log.entries ++ after
  pub commit_index : n'.commit_index ≡ (
      if ltb n.commit_index args.leader_commit
      then min (length n'.log.entries - 1) args.leader_commit
      else n.commit_index)

pub record Refuses (args : AppendEntriesArgs) (n n' : Node) (r : AppendEntriesReply) : Type 0 where
  pub term : r.term ≡ args.term
  pub success : r.success ≡ false
  pub hint : Hint args n.log r.conflict_term r.conflict_index
  pub log : n'.log ≡ n.log
  pub commit_index : n'.commit_index ≡ n.commit_index
