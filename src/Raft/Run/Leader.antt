-- ===== src/Raft/Run/Leader.antt =====
-- The votes of a leader, over the runs of a node.
use gammaflow.Base.{In, ◌≡◌, true, some, List, [], ◌∷◌, arith, bind-eq-some}
use gammaflow.Raft.Commit.Advance.{IsMajority}
use gammaflow.Raft.Types.{follower}
use gammaflow.Raft.Node.{Node, is_leader_state}
use gammaflow.Raft.Election.{start_election}
use gammaflow.Raft.Election.Campaign.{
  Campaign, supporters, Distinct, Quiet-Campaign, start_election-Campaign,
  handle_vote_response-Campaign,
}
use gammaflow.Raft.Replication.{}
use gammaflow.Raft.Run.{
  Event, start, election_timeout, vote_request, append_request, vote_response, heartbeat_response,
  replicate_response, heartbeats_sent, client_command, batch_delivered, state_of-eq-some, step, run,
  FitsAfter,
}
use gammaflow.Raft.Run.Quiet.{step-Quiet}

-- Vote responses come from peers of the node.
abbrev pub Sender : Event → Node → Type 0
Sender (vote_response t p r) n = In p n.peers
Sender _ n = Unit

abbrev pub Senders : List Event → Node → Type 0
Senders [] n = Unit
Senders (e ∷ es) n = Sender e n × FitsAfter (Senders es) (step e n)

step-Campaign :
    (e : Event) (n : Node) {n' : Node} → Sender e n → step e n ≡ some n' → Campaign n → Campaign n'
unfolding step
step-Campaign election_timeout n f h c =
    start_election-Campaign n (state_of-eq-some (start_election n) h).1 c
step-Campaign (vote_response t p r) n f h c =
    ground (arith, h, handle_vote_response-Campaign t p r n f c)
step-Campaign start n f h c = Quiet-Campaign (step-Quiet start n tt h) c
step-Campaign (vote_request args) n f h c = Quiet-Campaign (step-Quiet (vote_request args) n tt h) c
step-Campaign (append_request args) n f h c =
    Quiet-Campaign (step-Quiet (append_request args) n tt h) c
step-Campaign (heartbeat_response t p es r) n f h c =
    Quiet-Campaign (step-Quiet (heartbeat_response t p es r) n tt h) c
step-Campaign (replicate_response t p es r) n f h c =
    Quiet-Campaign (step-Quiet (replicate_response t p es r) n tt h) c
step-Campaign heartbeats_sent n f h c = Quiet-Campaign (step-Quiet heartbeats_sent n tt h) c
step-Campaign (client_command b) n f h c = Quiet-Campaign (step-Quiet (client_command b) n tt h) c
step-Campaign (batch_delivered b) n f h c = Quiet-Campaign (step-Quiet (batch_delivered b) n tt h) c

run-Campaign :
    (es : List Event) (n : Node) {n' : Node}
    → Senders es n
    → run es n ≡ some n'
    → Campaign n
    → Campaign n'
unfolding run
run-Campaign [] n f h c = ground (arith, h, c)
run-Campaign (e ∷ es) n f h c =
    let (m, stepped, rest) = bind-eq-some (step e n) (run es) h in
    run-Campaign es m (rw stepped at f.1) rest (step-Campaign e n f.0 stepped c)

-- A leader was elected: after any run of events from a follower, a node that is the leader has the
-- votes of more than half of its cluster in its record, its own included and each counted once. (The
-- members of the cluster are distinct, and vote responses come from peers.)
pub leader-IsMajority :
    (es : List Event) (n : Node) {n' : Node}
    → n.state ≡ follower
    → Distinct (n.id ∷ n.peers)
    → Senders es n
    → run es n ≡ some n'
    → is_leader_state n'.state ≡ true
    → IsMajority (supporters n'.votes_received (n'.id ∷ n'.peers)) n'
leader-IsMajority es n follows distinct senders ran leads =
    let quiet : Campaign n = record {
      distinct = distinct;
      counted = rw follows (λ q. absurd (ground (arith, q)));
      elected = rw follows (λ q. absurd (ground (arith, q)));
    } in
    (run-Campaign es n senders ran quiet).elected leads
