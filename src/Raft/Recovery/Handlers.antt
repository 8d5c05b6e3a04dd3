-- ===== src/Raft/Recovery/Handlers.antt =====
-- What the WAL would give back, through the handlers of node.go.
use gammaflow.Base.{
  ℕ, suc, ◌≡◌, Option, none, some, List, [], ◌∷◌, arith, Bool, Bool-cases, inl, inr, ltb,
  bind-eq-some, add64,
}
use gammaflow.Storage.Wal.{persist_term}
use gammaflow.Raft.Types.{
  Term, NodeId, LogIndex, LogEntry, Bytes, RequestVoteArgs, RequestVoteReply, AppendEntriesArgs,
  AppendEntriesReply,
}
use gammaflow.Raft.Log.{last_index}
use gammaflow.Raft.Node.{
  Node, wal_after, save_term, save_vote, save_entries, reset_election_timer, stop_leading,
  become_follower, catch_up,
}
use gammaflow.Raft.Node.Frame.{
  SameDisk, current_term-become_follower, voted_for-become_follower, wal-become_follower,
}
use gammaflow.Raft.Vote.{handle_request_vote, is_log_up_to_date}
use gammaflow.Raft.Append.{
  extend, store_entries, follow_commit, follow_leader, check_consistency, finish_append,
  handle_append_entries,
}
use gammaflow.Raft.Election.{stand, start_election, become_leader, count_vote, handle_vote_response}
use gammaflow.Raft.Replication.{settle, handle_heartbeat_response, handle_replicate_response}
use gammaflow.Raft.Submit.{submit}
use gammaflow.Raft.Run.Fields.{settle-SameDisk}
use gammaflow.Raft.Recovery.Durable.{IsDurable, Gives-term, Gives-vote, Gives-entry, Gives-entries}

SameDisk-IsDurable : {n n' : Node} → SameDisk n n' → IsDurable n → IsDurable n'
SameDisk-IsDurable s d = rw (s.wal, s.current_term, s.voted_for) d

become_follower-IsDurable : (t : Term) (n : Node) → IsDurable n → IsDurable (become_follower t n)
become_follower-IsDurable t n d =
    rw (wal-become_follower t n, current_term-become_follower t n, voted_for-become_follower t n)
      (elim (Bool-cases (ltb n.current_term t)) [
        | inl newer ↦ rw newer (Gives-term n.wal t n.current_term n.voted_for d)
        | inr older ↦ rw older d
      ])

catch_up-IsDurable : (t : Term) (n : Node) → IsDurable n → IsDurable (catch_up t n)
unfolding catch_up
catch_up-IsDurable t n d = elim (Bool-cases (ltb n.current_term t)) [
  | inl newer ↦ rw newer (become_follower-IsDurable t n d)
  | inr older ↦ rw older d
]

pub handle_request_vote-IsDurable :
    (args : RequestVoteArgs) (n : Node) {n' : Node} {r : RequestVoteReply}
    → handle_request_vote args n ≡ some (n', r)
    → IsDurable n
    → IsDurable n'
unfolding handle_request_vote is_log_up_to_date save_vote reset_election_timer
handle_request_vote-IsDurable args n h d =
    let n₁ = catch_up args.term n in
    let d₁ = catch_up-IsDurable args.term n d in
    ground (arith, h, d₁, Gives-vote n₁.wal args.candidate_id n₁.current_term n₁.voted_for d₁)

pub start_election-IsDurable :
    (n : Node) {n' : Node} {args : RequestVoteArgs}
    → start_election n ≡ some (n', args)
    → IsDurable n
    → IsDurable n'
unfolding start_election stand save_term save_vote reset_election_timer
start_election-IsDurable n h d =
    let t = add64 n.current_term 1 in
    let termed = Gives-term n.wal t n.current_term n.voted_for d in
    ground (arith, h, Gives-vote (wal_after (persist_term t) n.wal) n.id t "" termed)

pub follow_leader-IsDurable :
    (args : AppendEntriesArgs) (n : Node) → IsDurable n → IsDurable (follow_leader args n)
unfolding follow_leader stop_leading reset_election_timer
follow_leader-IsDurable args n d = ground (arith, catch_up-IsDurable args.term n d)

store_entries-IsDurable :
    (prev : LogIndex) (i : ℕ) (es : List LogEntry) (n : Node) {n' : Node}
    → store_entries prev i es n ≡ some n'
    → IsDurable n
    → IsDurable n'
unfolding store_entries extend save_entries
store_entries-IsDurable prev i [] n h d = ground (arith, h, d)
store_entries-IsDurable prev i (e ∷ es) n {n'} h d = ground (
  arith,
  h,
  d,
  Gives-entries (e ∷ es) n.wal n.current_term n.voted_for d,
  store_entries-IsDurable prev (suc i) es n {n' = n'},
)

finish_append-IsDurable :
    (args : AppendEntriesArgs) (n : Node) (reply : AppendEntriesReply)
    (c : Option (Term × LogIndex)) {n' : Node} {r : AppendEntriesReply}
    → finish_append args n reply c ≡ some (n', r)
    → IsDurable n
    → IsDurable n'
unfolding finish_append follow_commit
finish_append-IsDurable args n reply (some (t, i)) h d = ground (arith, h, d)
finish_append-IsDurable args n reply none h d =
    let (m, stored, k) = bind-eq-some (store_entries args.prev_log_index 0 args.entries n) _ h in
    let d' = store_entries-IsDurable args.prev_log_index 0 args.entries n stored d in
    ground (arith, d', k)

pub handle_append_entries-IsDurable :
    (args : AppendEntriesArgs) (n : Node) {n' : Node} {r : AppendEntriesReply}
    → handle_append_entries args n ≡ some (n', r)
    → IsDurable n
    → IsDurable n'
unfolding handle_append_entries
handle_append_entries-IsDurable args n h d = elim (Bool-cases (ltb args.term n.current_term)) [
  | inl stale ↦ ground (arith, h, stale, d)
  | inr fresh ↦
      let n₁ = follow_leader args n in
      let (c, _, k) = bind-eq-some (check_consistency args n₁.log) _ (rw fresh at h) in
      finish_append-IsDurable args n₁ _ c k (follow_leader-IsDurable args n d)
]

pub handle_vote_response-IsDurable :
    (t : Term) (p : NodeId) (r : Option RequestVoteReply) (n : Node)
    → IsDurable n
    → IsDurable (handle_vote_response t p r n)
unfolding handle_vote_response count_vote become_leader
handle_vote_response-IsDurable t p none n d = d
handle_vote_response-IsDurable t p (some r) n d =
    ground (arith, d, become_follower-IsDurable r.term n d)

pub handle_heartbeat_response-IsDurable :
    (t : Term) (p : NodeId) (es : List LogEntry) (r : Option AppendEntriesReply) (n : Node)
    {n' : Node}
    → handle_heartbeat_response t p es r n ≡ some n'
    → IsDurable n
    → IsDurable n'
unfolding handle_heartbeat_response
handle_heartbeat_response-IsDurable t p es none n h d = ground (arith, h, d)
handle_heartbeat_response-IsDurable t p es (some r) n {n'} h d = ground (
  arith,
  h,
  d,
  become_follower-IsDurable r.term n d,
  λ (e : settle p es r n ≡ some n'). SameDisk-IsDurable (settle-SameDisk p es r n e) d,
)

pub handle_replicate_response-IsDurable :
    (t : Term) (p : NodeId) (es : List LogEntry) (r : Option AppendEntriesReply) (n : Node)
    {n' : Node} {b : Bool}
    → handle_replicate_response t p es r n ≡ some (n', b)
    → IsDurable n
    → IsDurable n'
unfolding handle_replicate_response
handle_replicate_response-IsDurable t p es none n h d = ground (arith, h, d)
handle_replicate_response-IsDurable t p es (some r) n {n'} h d = ground (
  arith,
  h,
  d,
  become_follower-IsDurable r.term n d,
  λ (e : settle p es r n ≡ some n'). SameDisk-IsDurable (settle-SameDisk p es r n e) d,
)

pub submit-IsDurable : (command : Bytes) (n : Node) → IsDurable n → IsDurable (submit command n).0
unfolding submit
submit-IsDurable c n d = ground (
  arith,
  d,
  Gives-entry n.wal (add64 (last_index n.log) 1) n.current_term c n.current_term n.voted_for d,
)
