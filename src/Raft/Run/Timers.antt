-- ===== src/Raft/Run/Timers.antt =====
-- The durations of the timers over the runs of a node.
use gammaflow.Base.{ℕ, ◌≤◌, ◌<◌, ◌≡◌}
use gammaflow.Raft.Types.{State, leader}
use gammaflow.Raft.Node.{Node, Timer, running}
use gammaflow.Raft.Run.Restarts.{Restarts}

-- Election timeouts lie between 150 and 300 milliseconds, heartbeats are 50 milliseconds apart. The
-- numbers are nanoseconds, and are not those of the code.
abbrev pub InElectionRange : ℕ → Type 0
InElectionRange d = (150000000 ≤ d) × (d < 300000000)

abbrev pub IsElectionTimer : Timer → Type 0
IsElectionTimer (running d) = InElectionRange d
IsElectionTimer _ = Unit

abbrev pub IsHeartbeatTimer : Timer → Type 0
IsHeartbeatTimer (running d) = d ≡ 50000000
IsHeartbeatTimer _ = Unit

-- The timer that `run` waits for in a role does run: a leader's is the heartbeat's, the others' is
-- the election's.
abbrev pub IsWatched : State → Timer → Timer → Type 0
IsWatched leader election heartbeat = heartbeat ≡ running 50000000
IsWatched _ election heartbeat = (d : ℕ) × (election ≡ running d) × InElectionRange d

pub record Timely (n : Node) : Type 0 where
  pub election : IsElectionTimer n.election_timer
  pub heartbeat : IsHeartbeatTimer n.heartbeat_timer
  pub watched : IsWatched n.state n.election_timer n.heartbeat_timer
