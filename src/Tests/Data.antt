-- ===== src/Tests/Data.antt =====
-- The inputs of the tests: a cluster of three nodes, some logs and some messages.
use gammaflow.Base.{slice, String, List, [], ◌∷◌, some, none, Option, str_eq, true, false}
use gammaflow.Storage.Wal.{Wal}
use gammaflow.Raft.Types.{leader, LogEntry, RequestVoteArgs, AppendEntriesArgs, Term, LogIndex}
use gammaflow.Storage.Wal
use gammaflow.Storage.Wal.{persist_term, persist_vote, persist_entry}
use gammaflow.Raft.Log
use gammaflow.Raft.Log.{
  sentinel, RaftLog, new_raft_log, entries, entries_from, last_index, last_term, truncate_after,
  contains, term_at, find_term, find_first_index_of_term,
}
use gammaflow.Raft.Node.{
  Node, new_node, reset_election_timer, save_term, save_vote, save_wal_entries, save_entries,
  without_context, stop_leading, adopt_term, become_follower, catch_up,
}
use gammaflow.Raft.Vote.{is_log_up_to_date, handle_request_vote}
use gammaflow.Raft.Append.{
  extend, store_entries, check_consistency, follow_commit, follow_leader, finish_append,
  handle_append_entries,
}
use gammaflow.Raft.Election.{
  stand, start_election, init_next, init_match, become_leader, count_vote, handle_vote_response,
}
use gammaflow.Raft.Commit.{
  insert_desc, sort_desc, commit_candidate, commit_to, advance_commit_index,
}
use gammaflow.Raft.Replication.{
  last_index_of_term, handle_conflict, record_match, settle, heartbeat_round, heartbeat_args,
  handle_heartbeat_response, reset_heartbeat_timer, replicate_tick, handle_replicate_response,
}
use gammaflow.Raft.Apply.{collect, delivered}
use gammaflow.Raft.Submit.{submit, poll, await}
use gammaflow.Raft.Run.{step, run}

abbrev pub fresh_wal : Wal
fresh_wal = record { records = []; outcomes = [] }

abbrev pub node_1 : Node
node_1 = new_node "node-1" ("node-2" ∷ "node-3" ∷ []) (some fresh_wal) []

abbrev pub entry_of : Term → LogIndex → LogEntry
entry_of t i = record { term = t; index = i; command = 7 ∷ [] }

abbrev pub log_of : List LogEntry → RaftLog
log_of es = record { entries = sentinel ∷ es }

abbrev pub ask : String → Term → RequestVoteArgs
ask c t = record { term = t; candidate_id = c; last_log_index = 0; last_log_term = 0 }

-- A follower whose log has two entries of term 1, the first committed, and one of term 2.
abbrev pub follower_2 : Node
follower_2 = record node_1 {
  current_term = 2;
  log = log_of (entry_of 1 1 ∷ entry_of 1 2 ∷ entry_of 2 3 ∷ []);
  commit_index = 1;
}

-- The leader of term 3 sends what follows place 2.
abbrev pub append_3 : AppendEntriesArgs
append_3 = record {
  term = 3;
  leader_id = "node-2";
  prev_log_index = 2;
  prev_log_term = 1;
  entries = entry_of 3 3 ∷ entry_of 3 4 ∷ [];
  leader_commit = 3;
}

-- The same leader probes with a previous entry that this log has in another term.
abbrev pub probe_3 : AppendEntriesArgs
probe_3 = record append_3 { prev_log_index = 3; prev_log_term = 3; entries = entry_of 3 4 ∷ [] }

-- A leader of term 2 whose entry 3 is on node-2.
abbrev pub leader_2 : Node
leader_2 = record follower_2 {
  state = leader;
  match_index = λ p. elim (str_eq p "node-2") [ true ↦ 3 | false ↦ 1 ];
}

-- The node after a handler; where it panics, the node of these tests.
abbrev pub node_after {ℓ} : {A : Type ℓ} → Option (Node × A) → Node
node_after none = node_1
node_after (some (n, a)) = n

-- What a run of the handlers calls: a test unfolds this one name.
unfoldable pub raft_calls : List String
unfolding new_node new_raft_log Log.append entries entries_from last_index last_term truncate_after
    contains term_at find_term find_first_index_of_term slice reset_election_timer save_term
    save_vote save_wal_entries save_entries without_context stop_leading adopt_term become_follower
    catch_up is_log_up_to_date handle_request_vote extend store_entries check_consistency
    follow_commit follow_leader finish_append handle_append_entries stand start_election init_next
    init_match become_leader count_vote handle_vote_response insert_desc sort_desc commit_candidate
    commit_to advance_commit_index last_index_of_term handle_conflict record_match settle
    heartbeat_round heartbeat_args handle_heartbeat_response reset_heartbeat_timer replicate_tick
    handle_replicate_response collect delivered submit poll await Wal.append persist_term
    persist_vote persist_entry step run
raft_calls = []
