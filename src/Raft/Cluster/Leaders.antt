-- ===== src/Raft/Cluster/Leaders.antt =====
-- Who leads in a cluster.
use mathlib.Core.List.{Perm}
use mathlib.Core.Path.{subst}
use gammaflow.Base.{
  ◌*◌, ◌<◌, ◌≡◌, ◌≢◌, refl, ap, Bool, true, some, List, [], ◌∷◌, ◌++◌, arith, In, In-right, length,
}
use gammaflow.Raft.Types.{NodeId, Term, follower, leader}
use gammaflow.Raft.Node.{Node, new_node, is_leader_state}
use gammaflow.Raft.Node.Frame.{Quiet}
use gammaflow.Raft.Election.Campaign.{Distinct, supporters}
use gammaflow.Raft.Election.Quorum.{supporters-Perm, length-Perm, shared_member}
use gammaflow.Raft.Run.{
  Event, start, append_request, heartbeat_response, replicate_response, heartbeats_sent,
  client_command, batch_delivered, step, StepFits,
}
use gammaflow.Raft.Run.Votes.{VoteKept}
use gammaflow.Raft.Run.Ballot.{step-VoteKept}
use gammaflow.Raft.Run.Quiet.{IsQuiet, step-Quiet}
use gammaflow.Raft.Recovery.{restore, replay, restart}
use gammaflow.Raft.Recovery.Durable.{IsDurable}
use gammaflow.Raft.Recovery.Crash.{step-IsDurable, restart_vote, restart-IsDurable}
use gammaflow.Raft.Cluster.{
  Cluster, Vote, set, Step, timeout, vote, count, beat, beat_to, replicate, append, beat_answered,
  replicate_answered, command, applied, beats_started, crash, Reach, here, next,
}
use gammaflow.Raft.Cluster.Votes.{Votes, Votes-frame, Quiet-Advance, advance, vote_for}
use gammaflow.Raft.Cluster.Elections.{Votes-stands, Votes-answers, Votes-counts}

restart-Quiet : (n : Node) → Quiet n (restart n)
unfolding restart replay restore new_node
restart-Quiet n = ground arith

module _ {faults : Bool} {members : List NodeId} {s : Cluster} (inv : Votes faults members s)
    (i : NodeId) where
  Votes-Quiet :
      {n : Node}
      → VoteKept (s.nodes i) n
      → Quiet (s.nodes i) n
      → (faults ≡ true → IsDurable n)
      → Votes faults members (set i n s)
  Votes-Quiet kept quiet durable =
      advance {news = []} inv (Quiet-Advance inv i kept quiet durable [] (λ v none. absurd none))

  Votes-event :
      (e : Event) {n : Node}
      → IsQuiet e
      → StepFits e (s.nodes i)
      → step e (s.nodes i) ≡ some n
      → Votes faults members (set i n s)
  Votes-event e quiet fits h =
      Votes-Quiet (step-VoteKept e (s.nodes i) fits h) (step-Quiet e (s.nodes i) quiet h)
        (λ f. step-IsDurable e (s.nodes i) h (inv.durable f i))

  Votes-crash : faults ≡ true → Votes faults members (set i (restart (s.nodes i)) s)
  Votes-crash f =
      let n = s.nodes i in
      let d = inv.durable f i in
      let (term, kept) = restart_vote n d in
      Votes-Quiet (record { grows = omega (arith, term); kept = λ _ v. kept v }) (restart-Quiet n)
        (λ _. restart-IsDurable n d)

pub Step-Votes :
    {faults : Bool} {members : List NodeId} {s t : Cluster}
    → Step faults members s t
    → Votes faults members s
    → Votes faults members t
unfolding step
Step-Votes (timeout i member fits h) inv = Votes-stands inv i member fits h
Step-Votes (vote a sent h) inv = Votes-answers inv a sent h
Step-Votes (count b sent) inv = Votes-counts inv b sent
Step-Votes (beat i h) inv = Votes-frame _ _ _ inv
Step-Votes (beat_to i r p b q h) inv = Votes-frame _ _ _ inv
Step-Votes (replicate i p q h) inv = Votes-frame _ _ _ inv
Step-Votes (append m {n} {r} sent h) inv =
    Votes-frame _ _ _ (Votes-event inv m.follower (append_request m.args) tt tt (rw h refl))
Step-Votes (beat_answered a sent h) inv =
    let m = a.request in
    Votes-event inv m.leader
      (heartbeat_response m.args.term m.follower m.args.entries (some a.reply)) tt tt h
Step-Votes (replicate_answered a sent h) inv =
    let m = a.request in
    Votes-event inv m.leader
      (replicate_response m.args.term m.follower m.args.entries (some a.reply)) tt tt (rw h refl)
Step-Votes (command i c short) inv = Votes-event inv i (client_command c) tt tt refl
Step-Votes (Step.start i) inv = Votes-event inv i start tt tt refl
Step-Votes (beats_started i) inv = Votes-event inv i heartbeats_sent tt tt refl
Step-Votes (applied i b) inv = Votes-event inv i (batch_delivered b) tt tt refl
Step-Votes (crash i f) inv = Votes-crash inv i f

-- A cluster that starts: its members know each other, and nothing was sent.
pub record Starts (faults : Bool) (members : List NodeId) (s : Cluster) : Type 0 where
  pub named : (i : NodeId) → (s.nodes i).id ≡ i
  pub members_named : (i : NodeId) → In i members → i ≢ ""
  pub whole : (i : NodeId) → In i members → Perm (i ∷ (s.nodes i).peers) members
  pub distinct : (i : NodeId) → In i members → Distinct (i ∷ (s.nodes i).peers)
  pub follows : (i : NodeId) → (s.nodes i).state ≡ follower
  pub durable : faults ≡ true → (i : NodeId) → IsDurable (s.nodes i)
  pub asks : s.asks ≡ []
  pub ballots : s.ballots ≡ []
  pub votes : s.votes ≡ []

pub Starts-Votes :
    {faults : Bool} {members : List NodeId} {s : Cluster}
    → Starts faults members s
    → Votes faults members s
Starts-Votes {faults} {members} {s} i = record {
  named = i.named;
  members_named = i.members_named;
  whole = i.whole;
  campaign = λ j h. record {
    distinct = rw (i.named j) (i.distinct j h);
    counted = λ e. absurd (ground (arith, e, i.follows j));
    elected = λ e. absurd (ground (arith, e, i.follows j));
  };
  durable = i.durable;
  backed = λ j p c. absurd (c (i.follows j));
  recorded = λ v h. absurd (rw i.votes at h);
  once = λ v w h. absurd (rw i.votes at h);
  named_votes = λ v h. absurd (rw i.votes at h);
  asked = λ a h. absurd (rw i.asks at h);
  from_peers = λ b h. absurd (rw i.ballots at h);
  granted = λ b h. absurd (rw i.ballots at h);
}

Reach-Votes :
    {faults : Bool} {members : List NodeId} {s t : Cluster}
    → Reach faults members s t
    → Votes faults members s
    → Votes faults members t
Reach-Votes here inv = inv
Reach-Votes (next r h) inv = Step-Votes h (Reach-Votes r inv)

-- More than half of the members voted for the node in the term.
pub record Elected (members : List NodeId) (votes : List Vote) (i : NodeId) (t : Term)
    : Type 0 where
  pub voters : NodeId → Bool
  pub voted : (p : NodeId) → voters p ≡ true → In (vote_for p i t) votes
  pub majority : length members < 2 * supporters voters members

pub Elected-more :
    {members : List NodeId} (news : List Vote) {votes : List Vote} {i : NodeId} {t : Term}
    → Elected members votes i t
    → Elected members (news ++ votes) i t
Elected-more news {votes} e = record {
  voters = e.voters;
  voted = λ p v. In-right _ news votes (e.voted p v);
  majority = e.majority;
}

module _ {faults : Bool} {members : List NodeId} {s : Cluster} (inv : Votes faults members s) where
  -- A leader counted the votes of more than half of all members.
  pub leader-Elected :
      (i : NodeId)
      → In i members
      → (s.nodes i).state ≡ leader
      → Elected members s.votes i (s.nodes i).current_term
  leader-Elected i h l =
      let n = s.nodes i in
      let c = inv.campaign i h in
      let same : supporters n.votes_received (n.id ∷ n.peers)
          ≡ supporters n.votes_received members =
        rw (inv.named i) (supporters-Perm n.votes_received (inv.whole i h)) in
      record {
        voters = n.votes_received;
        voted = λ p v.
            subst (λ j. In (vote_for p j n.current_term) s.votes) (inv.named i)
              (inv.backed i p (λ f. absurd (ground (arith, l, f))) v);
        majority =
            omega (arith, c.elected (ap is_leader_state l), same, length-Perm (inv.whole i h));
      }

  -- No two nodes are elected in one term.
  pub Elected-unique :
      (i j : NodeId) (t : Term) → Elected members s.votes i t → Elected members s.votes j t → i ≡ j
  Elected-unique i j t e f =
      let (p, _, in_i, in_j) =
        shared_member e.voters f.voters members (omega (arith, e.majority, f.majority)) in
      inv.once _ _ (e.voted p in_i) (f.voted p in_j) refl refl

  pub one_leader :
      (i j : NodeId)
      → In i members
      → In j members
      → (s.nodes i).state ≡ leader
      → (s.nodes j).state ≡ leader
      → (s.nodes i).current_term ≡ (s.nodes j).current_term
      → i ≡ j
  one_leader i j h k li lj e =
      Elected-unique i j (s.nodes j).current_term
        (subst (Elected members s.votes i) e (leader-Elected i h li)) (leader-Elected j k lj)

-- Election safety: in every cluster that a starting one reaches, whatever the network does to the
-- messages, and with `faults` whatever nodes crash and restart, two members that lead in the same
-- term are the same node. (In the starting cluster every node is a follower that nothing was sent
-- to, the members have names and know each other, and with `faults` every WAL gives back the term
-- and the vote and takes every write. No node stands for election when its term counter would
-- wrap.)
pub election_safety :
    (faults : Bool) (members : List NodeId) {s t : Cluster}
    → Starts faults members s
    → Reach faults members s t
    → (i j : NodeId) → In i members
    → In j members
    → (t.nodes i).state ≡ leader
    → (t.nodes j).state ≡ leader
    → (t.nodes i).current_term ≡ (t.nodes j).current_term
    → i ≡ j
election_safety faults members starts run = one_leader (Reach-Votes run (Starts-Votes starts))
