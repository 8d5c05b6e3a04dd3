-- ===== src/Raft/Node.antt =====
-- internal/raft/node.go: the state of a node, its timers and WAL calls, and the transitions that
-- several handlers share. A function here is what runs under one hold of the mutex `n.mu`.
pub mod Frame
use gammaflow.Base.{
  ℕ, ◌+◌, ◌-◌, ◌*◌, ◌%◌, String, Bool, true, false, Option, none, some, List, [], ◌∷◌, ltb, ◌==◌,
  if◌then◌else◌,
}
use gammaflow.Storage.Wal.{Wal, persist_term, persist_vote, persist_entry}
use gammaflow.Raft.Types.{NodeId, Term, LogIndex, State, follower, leader, LogEntry}
use gammaflow.Raft.Log.{RaftLog, new_raft_log}

-- `*time.Timer`: nil, stopped (or its tick was received), or running with its duration.
pub data Timer : Type 0 where
  absent idle : Timer
  running : ℕ → Timer

-- Durations are in nanoseconds.
abbrev millisecond : ℕ
millisecond = 1000000

abbrev pub election_timeout_min : ℕ
election_timeout_min = 150 * millisecond

abbrev pub election_timeout_max : ℕ
election_timeout_max = 300 * millisecond

abbrev pub heartbeat_interval : ℕ
heartbeat_interval = 50 * millisecond

-- `Node` without its transport, logger and channels. Added to the source's fields are `draws`,
-- what the random source will give; `contexts`, how many contexts were made; and `replicators`,
-- the goroutines of `replicateLog` that no one cancelled, each with its context and its peer.
pub record Node : Type 0 where
  pub id : NodeId
  pub peers : List NodeId
  pub current_term : Term
  pub voted_for : NodeId
  pub log : RaftLog
  pub state : State
  pub commit_index : LogIndex
  pub last_applied : LogIndex
  pub leader_id : NodeId
  pub next_index : NodeId → LogIndex
  pub match_index : NodeId → LogIndex
  pub election_timer : Timer
  pub heartbeat_timer : Timer
  pub votes : ℕ
  pub votes_received : NodeId → Bool
  pub wal : Option Wal
  pub replicate_cancel : Option ℕ
  pub replicators : List (ℕ × NodeId)
  pub contexts : ℕ
  pub leader_changes : ℕ
  pub committed_entries : ℕ
  pub draws : List ℕ

-- `NewNode`. The random source is the environment's.
unfoldable pub new_node : NodeId → List NodeId → Option Wal → List ℕ → Node
unfolding new_raft_log
new_node id peers wal draws = record {
  id = id;
  peers = peers;
  current_term = 0;
  voted_for = "";
  log = new_raft_log;
  state = follower;
  commit_index = 0;
  last_applied = 0;
  leader_id = "";
  next_index = λ _. 0;
  match_index = λ _. 0;
  election_timer = absent;
  heartbeat_timer = absent;
  votes = 0;
  votes_received = λ _. false;
  wal = wal;
  replicate_cancel = none;
  replicators = [];
  contexts = 0;
  leader_changes = 0;
  committed_entries = 0;
  draws = draws;
}

abbrev pub is_leader_state : State → Bool
is_leader_state leader = true
is_leader_state _ = false

abbrev pub is_follower_state : State → Bool
is_follower_state follower = true
is_follower_state _ = false

-- rand.Int63n(k), for the next draw of the source.
abbrev pub int63n : ℕ → List ℕ → ℕ
int63n k [] = 0
int63n k (d ∷ ds) = d % k

abbrev pub later_draws : List ℕ → List ℕ
later_draws [] = []
later_draws (_ ∷ ds) = ds

-- `resetElectionTimerLocked`: whatever the timer was, it is drained and runs anew.
unfoldable pub reset_election_timer : Node → Node
reset_election_timer n = record n {
  election_timer =
      running (election_timeout_min + int63n (election_timeout_max - election_timeout_min) n.draws);
  draws = later_draws n.draws;
}

-- `if t != nil { t.Stop() }`
abbrev pub stop_timer : Timer → Timer
stop_timer absent = absent
stop_timer _ = idle

-- The calls of the WAL whose error is only logged, each under `if n.wal != nil`.
abbrev pub wal_after : (Wal → Wal × Option String) → Option Wal → Option Wal
wal_after f none = none
wal_after f (some w) = some (f w).0

unfoldable pub save_term : Term → Node → Node
save_term t n = record n { wal = wal_after (persist_term t) n.wal }

unfoldable pub save_vote : NodeId → Term → Node → Node
save_vote v t n = record n { wal = wal_after (persist_vote v t) n.wal }

unfoldable pub save_wal_entries : List LogEntry → Option Wal → Option Wal
save_wal_entries [] w = w
save_wal_entries (e ∷ es) w =
    save_wal_entries es (wal_after (persist_entry e.index e.term e.command) w)

-- `for _, e := range es { n.wal.PersistEntry(...) }`
unfoldable pub save_entries : List LogEntry → Node → Node
save_entries es n = record n { wal = save_wal_entries es n.wal }

-- Cancelling a context ends the goroutines that hold it.
unfoldable pub without_context : ℕ → List (ℕ × NodeId) → List (ℕ × NodeId)
without_context c [] = []
without_context c ((d, p) ∷ rs) =
    let rest = without_context c rs in if c == d then rest else (d, p) ∷ rest

abbrev cancelled : Option ℕ → List (ℕ × NodeId) → List (ℕ × NodeId)
cancelled none rs = rs
cancelled (some c) rs = without_context c rs

-- Stops the heartbeat timer, and cancels replication if its cancel function is held.
unfoldable pub stop_leading : Node → Node
stop_leading n = record n {
  heartbeat_timer = stop_timer n.heartbeat_timer;
  replicators = cancelled n.replicate_cancel n.replicators;
  replicate_cancel = none;
}

-- `Stop`, with whether `stopCh` is closed already: closing it again panics. A closed channel ends
-- `run` and `applyLoop`.
unfoldable pub stop : Bool → Node → Option Node
stop true n = none
stop false n = some (record n {
  election_timer = stop_timer n.election_timer;
  heartbeat_timer = stop_timer n.heartbeat_timer;
  replicators = cancelled n.replicate_cancel n.replicators;
})

-- The first `if` of `becomeFollowerLocked`.
unfoldable pub adopt_term : Term → Node → Node
adopt_term term n =
    if ltb n.current_term term
    then save_term term (record n { current_term = term; voted_for = "" })
    else n

-- `becomeFollowerLocked`
unfoldable pub become_follower : Term → Node → Node
become_follower term n =
    let n₁ = adopt_term term n in
    let n₂ = record n₁ { state = follower; votes = 0; votes_received = λ _. false } in
    reset_election_timer (if is_leader_state n₁.state then stop_leading n₂ else n₂)

-- `if term > n.currentTerm { n.becomeFollowerLocked(term) }`
unfoldable pub catch_up : Term → Node → Node
catch_up term n = if ltb n.current_term term then become_follower term n else n
