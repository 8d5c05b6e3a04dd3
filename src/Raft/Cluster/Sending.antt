-- ===== src/Raft/Cluster/Sending.antt =====
-- The messages of the leaders of a cluster, and the reigns.
use mathlib.Core.Path.{subst}
use gammaflow.Base.{◌≡◌, ◌≢◌, inl, inr, refl, sym, some, List, [], ◌∷◌, arith, In}
use gammaflow.Raft.Types.{NodeId, leader, AppendEntriesArgs}
use gammaflow.Raft.Node.{Node}
use gammaflow.Raft.Append.Match.{Built}
use gammaflow.Raft.Election.Campaign.{In-Absent}
use gammaflow.Raft.Replication.{Round, heartbeat_round}
use gammaflow.Raft.Replication.Built.{heartbeat_round-fields}
use gammaflow.Raft.Run.{Event, step, StepFits}
use gammaflow.Raft.Run.Ballot.{step-VoteKept}
use gammaflow.Raft.Run.Quiet.{IsQuiet, step-Quiet}
use gammaflow.Raft.Run.Reign.{IsCalm, step-Holds}
use gammaflow.Raft.Cluster.{Cluster, Append, sends}
use gammaflow.Raft.Cluster.Votes.{Votes-frame}
use gammaflow.Raft.Cluster.Reigns.{Reigns, Continues, Sent, Rounded, Rightful}
use gammaflow.Raft.Cluster.Onward.{Onward}
use gammaflow.Raft.Cluster.Matching.{Onward-calm}

-- What is on the way is what leaders sent.
pub Rightful-sends :
    {members : List NodeId} {s : Cluster} {reigns : Reigns} (rounds : List (NodeId × Round))
    (appends : List Append)
    → Rightful members s reigns
    → ((i : NodeId) (r : Round) → In (i, r) rounds → Rounded reigns i r)
    → ((m : Append) → In m appends → Sent reigns m)
    → Rightful members (record s { rounds = rounds; appends = appends }) reigns
Rightful-sends {s = s} rounds appends inv r a = record {
  votes = Votes-frame rounds appends s.acks inv.votes;
  active = inv.active;
  leads = inv.leads;
  elected = inv.elected;
  past = inv.past;
  logs = inv.logs;
  rounds = r;
  appends = a;
}

module _ {members : List NodeId} {s : Cluster} {reigns : Reigns}
    (inv : Rightful members s reigns) where
  pub reigning :
      (i : NodeId)
      → (s.nodes i).state ≡ leader
      → Continues (record { leader = i; log = [] }) reigns (s.nodes i).current_term
  reigning i l = record {
    reign = record { leader = i; log = (s.nodes i).log.entries };
    of_term = inv.leads i l;
    leader = refl;
    grown = refl;
  }

  -- A leader is none of its peers.
  pub leader-apart : (i p : NodeId) → (s.nodes i).state ≡ leader → In p (s.nodes i).peers → p ≢ i
  leader-apart i p l peer =
      let member = inv.active i (λ f. absurd (ground (arith, l, f))) in
      let c = inv.votes.campaign i member in
      let apart = In-Absent p (s.nodes i).id (s.nodes i).peers peer c.distinct.0 in
      subst (λ k. p ≢ k) (inv.votes.named i) apart

  pub Rightful-beat :
      (i : NodeId) {r : Round}
      → heartbeat_round (s.nodes i) ≡ some r
      → Rightful members (record s { rounds = (i, r) ∷ s.rounds }) reigns
  Rightful-beat i {r} h =
      let (l, term, peers) = heartbeat_round-fields (s.nodes i) h in
      let new : Rounded reigns i r = record {
        reign =
            subst (Continues (record { leader = i; log = [] }) reigns) (sym term) (reigning i l);
        apart = λ p q. leader-apart i p l (subst (In p) peers q);
      } in
      Rightful-sends ((i, r) ∷ s.rounds) s.appends inv
        (λ j q h'. elim h' [
          | inl e ↦ subst (λ k. Rounded reigns k.0 k.1) (sym e) new
          | inr old ↦ inv.rounds j q old
        ])
        inv.appends

  pub Rightful-message :
      (i p : NodeId) {args : AppendEntriesArgs}
      → Built args (s.nodes i).log
      → Continues (record { leader = i; log = [] }) reigns args.term
      → p ≢ i
      → Rightful members (sends i p args s) reigns
  Rightful-message i p {args} built reign apart =
      let new : Sent reigns
          (record { leader = i; follower = p; args = args; log = (s.nodes i).log }) =
        record { genuine = inv.logs i; built = built; reign = reign; apart = apart } in
      Rightful-sends s.rounds
        (record { leader = i; follower = p; args = args; log = (s.nodes i).log } ∷ s.appends) inv
        inv.rounds
        (λ m h. elim h [ inl e ↦ subst (Sent reigns) (sym e) new | inr old ↦ inv.appends m old ])

  pub Onward-event :
      (i : NodeId) (e : Event) {n : Node}
      → IsQuiet e
      → IsCalm e
      → StepFits e (s.nodes i)
      → step e (s.nodes i) ≡ some n
      → Onward members s reigns i n reigns
  Onward-event i e quiet calm fits h =
      Onward-calm inv i (step-VoteKept e (s.nodes i) fits h) (step-Quiet e (s.nodes i) quiet h)
        (step-Holds e (s.nodes i) calm h)
