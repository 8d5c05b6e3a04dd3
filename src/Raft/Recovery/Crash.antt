-- ===== src/Raft/Recovery/Crash.antt =====
-- The votes of a node that crashes and restarts.
use gammaflow.Base.{
  ◌≡◌, ◌≢◌, ◌∙◌, sym, Option, some, List, [], ◌∷◌, arith, true, ◌>>=◌, bind-eq-some,
}
use gammaflow.Raft.Types.{RequestVoteArgs, RequestVoteReply}
use gammaflow.Raft.Node.{Node, new_node, reset_election_timer}
use gammaflow.Raft.Vote.{handle_request_vote}
use gammaflow.Raft.Vote.Grant.{granted_recorded}
use gammaflow.Raft.Append.{handle_append_entries}
use gammaflow.Raft.Election.{start_election}
use gammaflow.Raft.Replication.{handle_replicate_response, reset_heartbeat_timer}
use gammaflow.Raft.Apply.{delivered}
use gammaflow.Raft.Run.{
  Event, start, election_timeout, vote_request, append_request, vote_response, heartbeat_response,
  replicate_response, heartbeats_sent, client_command, batch_delivered, state_of-eq-some, step,
  StepFits, FitsAfter,
}
use gammaflow.Raft.Run.Votes.{VoteKept, VoteKept-refl, VoteKept-trans, handle_request_vote-VoteKept}
use gammaflow.Raft.Run.Ballot.{step-VoteKept}
use gammaflow.Raft.Recovery.{restore, replay, restart}
use gammaflow.Raft.Recovery.Durable.{IsDurable}
use gammaflow.Raft.Recovery.Handlers.{
  handle_request_vote-IsDurable, handle_append_entries-IsDurable, start_election-IsDurable,
  handle_vote_response-IsDurable, handle_heartbeat_response-IsDurable,
  handle_replicate_response-IsDurable, submit-IsDurable,
}

-- The life of a node: its events, and crashes with the restart that follows.
pub data Episode : Type 0 where
  crash : Episode
  event : Event → Episode

unfoldable pub live_step : Episode → Node → Option Node
live_step crash n = some (restart n)
live_step (event e) n = step e n

unfoldable pub live : List Episode → Node → Option Node
live [] n = some n
live (e ∷ es) n = live_step e n >>= live es

abbrev pub EpisodeFits : Episode → Node → Type 0
EpisodeFits crash n = Unit
EpisodeFits (event e) n = StepFits e n

abbrev pub LifeFits : List Episode → Node → Type 0
LifeFits [] n = Unit
LifeFits (e ∷ es) n = EpisodeFits e n × FitsAfter (LifeFits es) (live_step e n)

pub step-IsDurable :
    (e : Event) (n : Node) {n' : Node} → step e n ≡ some n' → IsDurable n → IsDurable n'
unfolding step reset_election_timer reset_heartbeat_timer delivered
step-IsDurable start n h d = ground (arith, h, d)
step-IsDurable election_timeout n h d =
    start_election-IsDurable n (state_of-eq-some (start_election n) h).1 d
step-IsDurable (vote_request args) n h d =
    handle_request_vote-IsDurable args n (state_of-eq-some (handle_request_vote args n) h).1 d
step-IsDurable (append_request args) n h d =
    handle_append_entries-IsDurable args n (state_of-eq-some (handle_append_entries args n) h).1 d
step-IsDurable (vote_response t p r) n h d =
    ground (arith, h, handle_vote_response-IsDurable t p r n d)
step-IsDurable (heartbeat_response t p es r) n h d =
    handle_heartbeat_response-IsDurable t p es r n h d
step-IsDurable (replicate_response t p es r) n h d =
    handle_replicate_response-IsDurable t p es r n
      (state_of-eq-some (handle_replicate_response t p es r n) h).1 d
step-IsDurable heartbeats_sent n h d = ground (arith, h, d)
step-IsDurable (client_command c) n h d = ground (arith, h, submit-IsDurable c n d)
step-IsDurable (batch_delivered b) n h d = ground (arith, h, d)

-- A restarted node has the term of the node that crashed, and its vote if it had cast one.
pub restart_vote :
    (n : Node)
    → IsDurable n
    → ((restart n).current_term ≡ n.current_term)
      × (n.voted_for ≢ "" → (restart n).voted_for ≡ n.voted_for)
unfolding restart replay restore new_node
restart_vote n d = ground (arith, d)

pub restart-IsDurable : (n : Node) → IsDurable n → IsDurable (restart n)
unfolding restart replay restore new_node
restart-IsDurable n d = ground (arith, d)

live_step-keeps :
    (e : Episode) (n : Node) {n' : Node}
    → EpisodeFits e n
    → live_step e n ≡ some n'
    → IsDurable n
    → VoteKept n n' × IsDurable n'
unfolding live_step
live_step-keeps crash n {n'} f h d =
    let (term, vote) = restart_vote n d in
    let same : restart n ≡ n' = ground (arith, h) in
    rw (← same)
      (record { grows = omega (arith, term); kept = λ _ v. vote v }, restart-IsDurable n d)
live_step-keeps (event e) n f h d = (step-VoteKept e n f h, step-IsDurable e n h d)

live-keeps :
    (es : List Episode) (n : Node) {n' : Node}
    → LifeFits es n
    → live es n ≡ some n'
    → IsDurable n
    → VoteKept n n' × IsDurable n'
unfolding live
live-keeps [] n f h d = ground (arith, h, d, VoteKept-refl n)
live-keeps (e ∷ es) n f h d =
    let (m, stepped, rest) = bind-eq-some (live_step e n) (live es) h in
    let (kept, d') = live_step-keeps e n f.0 stepped d in
    let (later, d'') = live-keeps es m (rw stepped at f.1) rest d' in
    (VoteKept-trans kept later, d'')

-- No double vote across crashes: a node that granted its vote for a term, and then lives through any
-- events, crashes and restarts, grants a vote for the same term to the same candidate only. (Every
-- WAL write succeeds, candidates have a name, and the term counter does not wrap.)
pub vote_once_across_crashes :
    (a b : RequestVoteArgs) (es : List Episode) (n : Node) {n₁ n₂ n₃ : Node}
    {r s : RequestVoteReply}
    → IsDurable n
    → handle_request_vote a n ≡ some (n₁, r)
    → r.vote_granted ≡ true
    → a.candidate_id ≢ ""
    → LifeFits es n₁
    → live es n₁ ≡ some n₂
    → handle_request_vote b n₂ ≡ some (n₃, s)
    → s.vote_granted ≡ true
    → b.term ≡ a.term
    → b.candidate_id ≡ a.candidate_id
vote_once_across_crashes a b es n {n₁} {n₂} d first g named fits ran second g' same =
    let (cast, term) = granted_recorded a n first g in
    let (cast', term') = granted_recorded b n₂ second g' in
    let d₁ = handle_request_vote-IsDurable a n first d in
    let (kept, _) = live-keeps es n₁ fits ran d₁ in
    let later = VoteKept-trans kept (handle_request_vote-VoteKept b n₂ second) in
    sym cast' ∙ later.kept (term' ∙ same ∙ sym term) (rw cast named) ∙ cast
