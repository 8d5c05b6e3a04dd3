-- ===== src/Tests/Commits.antt =====
-- The cluster of Tests/Cluster goes on: its leader commits, its successor has what was committed.
use gammaflow.Base.{◌≤◌, ◌≡◌, refl, inl, inr, none, some, true, false, [], ◌∷◌, arith, take}
use gammaflow.Raft.Types.{RequestVoteArgs, RequestVoteReply, AppendEntriesArgs}
use gammaflow.Raft.Node.{Node, idle, stop}
use gammaflow.Raft.Vote.{handle_request_vote}
use gammaflow.Raft.Append.{handle_append_entries}
use gammaflow.Raft.Election.{start_election, handle_vote_response}
use gammaflow.Raft.Replication.{Round, handle_replicate_response}
use gammaflow.Raft.Cluster.{
  Cluster, Ask, Ballot, Append, Ack, set, stands, answers, sends, replies, timeout, vote, count,
  beat, beat_to, append, replicate_answered, applied, Reach, here, next,
}
use gammaflow.Raft.Completeness.Safety.{
  Fresh, state_machine_safety, leader_completeness, committed_stays,
}
use gammaflow.Raft.Apply.{Batch, delivered}
use gammaflow.Kvstore.{KvStore, new_kv_store, put, apply, consume, consume_all}
use gammaflow.Kvstore.Replicas.{Replica, begins, goes_on, turn, Reach-trans, replicas_agree}
use gammaflow.Tests.Codecs.{command_codec}
use gammaflow.Tests.Data.{node_after, raft_calls}
use gammaflow.Tests.Cluster.{
  set_x, one, two, three, members, quiet, message, sent, accepted, copied, quiet-Starts,
  quiet-Empty, to_led, to_copied,
}

quiet-Fresh : Fresh quiet
unfolding raft_calls
quiet-Fresh = record { acks = refl; commit = λ i. refl; next = λ i p. omega arith }

-- The leader counts the reply of node-2.
abbrev answer : Ack
answer = record { request = sent; reply = accepted }

abbrev committed : Cluster
committed =
    set one
      (node_after
        (handle_replicate_response 1 two message.entries (some accepted) (copied.nodes one)))
      copied

to_committed : Reach false members quiet committed
unfolding raft_calls
to_committed = next (to_copied quiet (to_led false)) (replicate_answered answer (inl refl) refl)

committed_at_1 : (committed.nodes one).commit_index ≡ 1
unfolding raft_calls
committed_at_1 = refl

-- A heartbeat tells node-2.
abbrev round : Round
round = record { term = 1; leader_id = one; commit_index = 1; peers = two ∷ three ∷ [] }

abbrev beaten : Cluster
beaten = record committed { rounds = (one, round) ∷ committed.rounds }

abbrev pulse : AppendEntriesArgs
pulse = record {
  term = 1;
  leader_id = one;
  prev_log_index = 1;
  prev_log_term = 1;
  entries = [];
  leader_commit = 1;
}

abbrev told : Append
told = record { leader = one; follower = two; args = pulse; log = (beaten.nodes one).log }

abbrev heard : Cluster
heard =
    replies told (node_after (handle_append_entries pulse (beaten.nodes two))) accepted
      (sends one two pulse beaten)

to_heard : Reach false members committed heard
unfolding raft_calls
to_heard =
    next (next (next here (beat one refl)) (beat_to one round two (inl refl) (inl refl) refl))
      (append told (inl refl) refl)

state_machine_safety_example :
    take 2 (committed.nodes one).log.entries ≡ take 2 (heard.nodes two).log.entries
unfolding raft_calls
state_machine_safety_example =
    state_machine_safety members (quiet-Starts false) quiet-Empty quiet-Fresh to_committed to_heard
      one two 1 (omega arith) (omega arith)

-- node-2 stands for term 2, and node-3 votes for it.
abbrev again : RequestVoteArgs
again = record { term = 2; candidate_id = two; last_log_index = 1; last_log_term = 1 }

abbrev restood : Cluster
restood = stands two (node_after (start_election (heard.nodes two))) heard again

abbrev asked : Ask
asked = record { candidate = two; voter = three; args = again }

abbrev granted : RequestVoteReply
granted = record { term = 2; vote_granted = true }

abbrev revoted : Cluster
revoted =
    answers asked (node_after (handle_request_vote again (restood.nodes three))) granted restood

abbrev ballot : Ballot
ballot = record { voter = three; candidate = two; term = 2; reply = granted }

abbrev reled : Cluster
reled = set two (handle_vote_response 2 three (some granted) (revoted.nodes two)) revoted

to_reled : Reach false members committed reled
unfolding raft_calls
to_reled =
    next
      (next (next to_heard (timeout two (inr (inl refl)) (omega arith) refl))
        (vote asked (inr (inl refl)) refl))
      (count ballot (inl refl))

leader_completeness_example :
    take 2 (committed.nodes one).log.entries ≡ take 2 (reled.nodes two).log.entries
unfolding raft_calls
leader_completeness_example =
    leader_completeness members (quiet-Starts false) quiet-Empty quiet-Fresh to_committed to_reled
      one two 1 (omega arith) refl (omega arith)

committed_stays_example :
    ((committed.nodes two).commit_index ≤ (heard.nodes two).commit_index)
    × (take 1 (heard.nodes two).log.entries ≡ take 1 (committed.nodes two).log.entries)
unfolding raft_calls
committed_stays_example =
    committed_stays members (quiet-Starts false) quiet-Empty quiet-Fresh to_committed to_heard two

-- Both hand the command over: first node-1, then node-2.
abbrev batch : Batch
batch = record {
  entries = record { term = 1; index = 1; command = set_x } ∷ [];
  new_last_applied = 1;
}

abbrev after_one : Cluster
after_one = set one (delivered batch (heard.nodes one)) heard

abbrev after_two : Cluster
after_two = set two (delivered batch (after_one.nodes two)) after_one

abbrev stored : KvStore
stored = consume_all command_codec (set_x ∷ []) new_kv_store

replica_one : Replica members command_codec quiet one after_two 1 stored
unfolding raft_calls
replica_one =
    goes_on
      (turn {t = heard} {u = heard} {b = batch} (goes_on begins (Reach-trans to_committed to_heard))
        refl refl here)
      (next here (applied two batch))

replica_two : Replica members command_codec quiet two after_two 1 (put "x" "1" new_kv_store)
unfolding raft_calls put apply consume consume_all
replica_two =
    turn {t = after_one} {u = after_one} {b = batch}
      (goes_on begins (next (Reach-trans to_committed to_heard) (applied one batch))) refl refl here

replicas_agree_example : stored ≡ put "x" "1" new_kv_store
replicas_agree_example =
    replicas_agree members command_codec (quiet-Starts false) quiet-Empty quiet-Fresh one two 1
      replica_one replica_two

-- A stopped leader waits for no timer and replicates no more; a second call panics.
abbrev halted : Node
halted = elim (stop false (committed.nodes one)) [ none ↦ committed.nodes one | some n ↦ n ]

leader_stops :
    (halted.election_timer ≡ idle)
    × (halted.heartbeat_timer ≡ idle)
    × (halted.replicators ≡ [])
    × (stop true halted ≡ none)
unfolding raft_calls stop
leader_stops = (refl, refl, refl, refl)
