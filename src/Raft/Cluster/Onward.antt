-- ===== src/Raft/Cluster/Onward.antt =====
-- A step of one node of a cluster, and the reigns.
use mathlib.Core.Path.{subst}
use gammaflow.Base.{
  ◌≤◌, ◌<◌, ◌≡◌, ◌≢◌, ◌⊎◌, inl, inr, refl, sym, ap, ◌∙◌, false, some, List, ◌++◌, arith, In,
  update_self,
}
use gammaflow.Raft.Types.{NodeId, Term, follower, leader}
use gammaflow.Raft.Node.{Node}
use gammaflow.Raft.Cluster.{Cluster, Ask, Ballot, Vote, Ack, Append, set}
use gammaflow.Raft.Cluster.Votes.{Votes, update-cases, update-split}
use gammaflow.Raft.Cluster.Leaders.{Elected, Elected-more, leader-Elected}
use gammaflow.Raft.Cluster.Reigns.{
  Reign, Reigns, Genuine, Genuine-Extends, Continues-Extends, Extends, Extends-refl, Sent, IsPast,
  Rightful,
}

-- What a node may become, with the reigns of the cluster afterwards.
pub record Onward (members : List NodeId) (s : Cluster) (reigns : Reigns) (i : NodeId) (n : Node)
    (reigns' : Reigns) : Type 0 where
  pub extends : Extends reigns reigns'
  pub log : Genuine reigns' n.log
  pub grows : (s.nodes i).current_term ≤ n.current_term
  pub active : n.state ≢ follower → In i members
  pub leads :
      n.state ≡ leader → reigns' n.current_term ≡ some (record { leader = i; log = n.log.entries })
  pub others :
      (j : NodeId)
      → j ≢ i
      → (s.nodes j).state ≡ leader
      → reigns' (s.nodes j).current_term ≡ reigns (s.nodes j).current_term
  pub new :
      (t : Term) (r' : Reign)
      → reigns' t ≡ some r'
      → ((r : Reign) × (reigns t ≡ some r) × (r.leader ≡ r'.leader))
        ⊎ ((r'.leader ≡ i) × (n.current_term ≡ t) × (n.state ≡ leader))
  pub stays :
      (s.nodes i).state ≡ leader
      → ((s.nodes i).current_term < n.current_term)
        ⊎ ((n.current_term ≡ (s.nodes i).current_term) × (n.state ≡ leader))

Sent-Extends :
    {reigns reigns' : Reigns} (m : Append) → Extends reigns reigns' → Sent reigns m → Sent reigns' m
Sent-Extends m more h = record {
  genuine = Genuine-Extends more m.log h.genuine;
  built = h.built;
  reign = Continues-Extends more h.reign;
  apart = h.apart;
}

module _ {members : List NodeId} {s : Cluster} {reigns reigns' : Reigns} {i : NodeId} {n : Node}
    (inv : Rightful members s reigns) (a : Onward members s reigns i n reigns') where
  IsPast-kept : (t : Term) → IsPast (s.nodes i) t → IsPast n t
  IsPast-kept t (inl before) = inl (omega (arith, before, a.grows))
  IsPast-kept t (inr (now, leads)) = elim (a.stays leads) [
    | inl later ↦ inl (omega (arith, now, later))
    | inr (same, still) ↦ inr (same ∙ now, still)
  ]

  module _ (asks : List Ask) (ballots : List Ballot) (acks : List Ack) (news : List Vote) where
    abbrev after : Cluster
    after = record (set i n s) {
      asks = asks;
      ballots = ballots;
      acks = acks;
      votes = news ++ s.votes;
    }

    pub Rightful-Onward : Votes false members after → Rightful members after reigns'
    Rightful-Onward votes = record {
      votes = votes;
      active = λ j.
          update-cases (λ m. m.state ≢ follower → In j members) s.nodes i j n (inv.active j)
            (λ e. rw e a.active);
      leads = λ j.
          update-split
            (λ m.
              m.state ≡ leader
              → reigns' m.current_term ≡ some (record { leader = j; log = m.log.entries }))
            s.nodes i j n (λ ne l. a.others j ne l ∙ inv.leads j l) (λ e. rw e a.leads);
      elected = λ t r' h. elim (a.new t r' h) [
        | inl (r, old, same) ↦
            subst (λ k. Elected members (news ++ s.votes) k t) same
              (Elected-more news (inv.elected t r old))
        | inr (self, now, l) ↦
            let e =
              leader-Elected votes i (a.active (λ f. absurd (ground (arith, l, f))))
                (rw (update_self s.nodes i n) l) in
            subst (λ k. Elected members (news ++ s.votes) k t) (sym self)
              (subst (Elected members (news ++ s.votes) i) now (rw (update_self s.nodes i n) at e))
      ];
      past = λ t r' h. elim (a.new t r' h) [
        | inl (r, old, same) ↦
            let p : IsPast (s.nodes r'.leader) t =
              subst (λ k. IsPast (s.nodes k) t) same (inv.past t r old) in
            update-cases (λ m. IsPast m t) s.nodes i r'.leader n p
              (λ e. IsPast-kept t (subst (λ k. IsPast (s.nodes k) t) e p))
        | inr (self, now, l) ↦ rw (self, update_self s.nodes i n) (inr (now, l))
      ];
      logs = λ j.
          update-cases (λ m. Genuine reigns' m.log) s.nodes i j n
            (Genuine-Extends a.extends (s.nodes j).log (inv.logs j)) (λ _. a.log);
      rounds = λ j r h.
          let old = inv.rounds j r h in
          record { reign = Continues-Extends a.extends old.reign; apart = old.apart };
      appends = λ m h. Sent-Extends m a.extends (inv.appends m h);
    }

-- No new reign: a log that the reigns allow, and no new leader.
pub Onward-same :
    {members : List NodeId} {s : Cluster} {reigns : Reigns} (i : NodeId) {n : Node}
    → Rightful members s reigns
    → Genuine reigns n.log
    → (s.nodes i).current_term ≤ n.current_term
    → (n.state ≢ follower → In i members)
    → (n.state ≡ leader
        → ((s.nodes i).state ≡ leader)
          × (n.current_term ≡ (s.nodes i).current_term)
          × (n.log ≡ (s.nodes i).log))
    → ((s.nodes i).state ≡ leader
        → ((s.nodes i).current_term < n.current_term)
          ⊎ ((n.current_term ≡ (s.nodes i).current_term) × (n.state ≡ leader)))
    → Onward members s reigns i n reigns
Onward-same {reigns = reigns} i inv log grows active leads stays = record {
  extends = Extends-refl reigns;
  log = log;
  grows = grows;
  active = active;
  leads = λ l.
      let (before, term, same) = leads l in
      ap reigns term
      ∙ inv.leads i before
      ∙ ap (λ m. some (record { leader = i; log = m.entries })) (sym same);
  others = λ j ne l. refl;
  new = λ t r h. inl (r, h, refl);
  stays = stays;
}
