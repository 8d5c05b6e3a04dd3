-- ===== src/Raft/Cluster/Votes.antt =====
-- The votes of a cluster: what holds of them, and how a node with a new state keeps it.
use mathlib.Core.List.{Perm}
use mathlib.Core.Path.{subst}
use gammaflow.Base.{
  ◌≤◌, ◌≡◌, ◌≢◌, inl, inr, sym, ap, ◌∙◌, Bool, Bool-cases, true, List, ◌∷◌, ◌++◌, arith, In,
  In-right, In-append, str_eq, eq_iff, update, update_self,
}
use gammaflow.Raft.Types.{NodeId, Term, follower}
use gammaflow.Raft.Node.{Node}
use gammaflow.Raft.Run.Votes.{VoteKept}
use gammaflow.Raft.Election.Campaign.{Campaign, Quiet-Campaign}
use gammaflow.Raft.Recovery.Durable.{IsDurable}
use gammaflow.Raft.Node.Frame.{Quiet}
use gammaflow.Raft.Replication.{Round}
use gammaflow.Raft.Cluster.{Append, Ack, Cluster, Ask, Ballot, Vote, set}

abbrev pub vote_for : NodeId → NodeId → Term → Vote
vote_for p i t = record { voter = p; candidate = i; term = t }

-- The votes that a candidate or a leader counts were cast for it in its term.
abbrev pub Backed : Node → List Vote → Type 0
Backed n votes =
    (p : NodeId)
    → n.state ≢ follower
    → n.votes_received p ≡ true
    → In (vote_for p n.id n.current_term) votes

-- A vote that was cast is not ahead of its voter, and is the voter's vote as long as its term lasts.
pub record Recorded (n : Node) (v : Vote) : Type 0 where
  pub behind : v.term ≤ n.current_term
  pub stands : n.current_term ≡ v.term → n.voted_for ≡ v.candidate

-- A request names its sender, and went to a peer of it.
abbrev pub Asked : Cluster → Ask → Type 0
Asked s a =
    (a.args.candidate_id ≡ a.candidate)
    × (a.candidate ≢ "")
    × In a.voter (s.nodes a.candidate).peers

pub record Votes (faults : Bool) (members : List NodeId) (s : Cluster) : Type 0 where
  pub named : (i : NodeId) → (s.nodes i).id ≡ i
  pub members_named : (i : NodeId) → In i members → i ≢ ""
  pub whole : (i : NodeId) → In i members → Perm (i ∷ (s.nodes i).peers) members
  pub campaign : (i : NodeId) → In i members → Campaign (s.nodes i)
  pub durable : faults ≡ true → (i : NodeId) → IsDurable (s.nodes i)
  pub backed : (i : NodeId) → Backed (s.nodes i) s.votes
  pub recorded : (v : Vote) → In v s.votes → Recorded (s.nodes v.voter) v
  pub once :
      (v w : Vote)
      → In v s.votes
      → In w s.votes
      → v.voter ≡ w.voter
      → v.term ≡ w.term
      → v.candidate ≡ w.candidate
  pub named_votes : (v : Vote) → In v s.votes → v.candidate ≢ ""
  pub asked : (a : Ask) → In a s.asks → Asked s a
  pub from_peers : (b : Ballot) → In b s.ballots → In b.voter (s.nodes b.candidate).peers
  pub granted :
      (b : Ballot)
      → In b s.ballots
      → b.reply.vote_granted ≡ true
      → In (vote_for b.voter b.candidate b.term) s.votes

-- A node at another place than the changed one is as it was.
pub update-split :
    (P : Node → Type 0) (f : NodeId → Node) (i j : NodeId) (n : Node)
    → (j ≢ i → P (f j))
    → (j ≡ i → P n)
    → P (update f i n j)
update-split P f i j n old new = elim (Bool-cases (str_eq j i)) [
  | inl e ↦ rw e (new ((eq_iff j i).0 e))
  | inr e ↦ rw e (old (λ same. absurd (ground (arith, (eq_iff j i).1 same, e))))
]

pub update-cases :
    (P : Node → Type 0) (f : NodeId → Node) (i j : NodeId) (n : Node)
    → P (f j)
    → (j ≡ i → P n)
    → P (update f i n j)
update-cases P f i j n old new = update-split P f i j n (λ _. old) new

-- The node has just cast the vote.
abbrev pub IsCast : NodeId → Node → Vote → Type 0
IsCast i n v =
    (v.voter ≡ i) × (v.term ≡ n.current_term) × (v.candidate ≡ n.voted_for) × (v.candidate ≢ "")

-- What a node may become, with the votes that it casts on the way.
pub record Advance (faults : Bool) (members : List NodeId) (s : Cluster) (i : NodeId) (n : Node)
    (news : List Vote) : Type 0 where
  pub id : n.id ≡ (s.nodes i).id
  pub peers : n.peers ≡ (s.nodes i).peers
  pub kept : VoteKept (s.nodes i) n
  pub campaign : In i members → Campaign n
  pub durable : faults ≡ true → IsDurable n
  pub backed : Backed n (news ++ s.votes)
  pub cast : (v : Vote) → In v news → IsCast i n v

Recorded-kept :
    {n n' : Node} {v : Vote} → VoteKept n n' → v.candidate ≢ "" → Recorded n v → Recorded n' v
Recorded-kept {n} {n'} {v} k named r = record {
  behind = omega (arith, r.behind, k.grows);
  stands = λ e.
      let same : n.current_term ≡ v.term = omega (arith, r.behind, k.grows, e) in
      k.kept (e ∙ sym same) (rw (r.stands same) named) ∙ r.stands same;
}

module _ {faults : Bool} {members : List NodeId} {s : Cluster} {i : NodeId} {n : Node}
    {news : List Vote} (inv : Votes faults members s) (a : Advance faults members s i n news) where
  Recorded-old : (v : Vote) → In v s.votes → Recorded (update s.nodes i n v.voter) v
  Recorded-old v h =
      update-cases (λ m. Recorded m v) s.nodes i v.voter n (inv.recorded v h)
        (λ e.
          Recorded-kept a.kept (inv.named_votes v h)
            (subst (λ k. Recorded (s.nodes k) v) e (inv.recorded v h)))

  Recorded-new : (v : Vote) → In v news → Recorded (update s.nodes i n v.voter) v
  Recorded-new v h =
      let (at, term, candidate, named) = a.cast v h in
      rw (at, update_self s.nodes i n)
        (record { behind = omega (arith, term); stands = λ e. sym candidate })

  -- A new vote agrees with an old one of the same voter and term.
  once_new :
      (v w : Vote)
      → In v news
      → In w s.votes
      → v.voter ≡ w.voter
      → v.term ≡ w.term
      → v.candidate ≡ w.candidate
  once_new v w h k voter term =
      let (at, now, candidate, _) = a.cast v h in
      let r : Recorded n w =
        Recorded-kept a.kept (inv.named_votes w k)
          (subst (λ j. Recorded (s.nodes j) w) (sym voter ∙ at) (inv.recorded w k)) in
      candidate ∙ r.stands (sym now ∙ term)

  peers_kept :
      (p : NodeId) (j : NodeId) → In p (s.nodes j).peers → In p (update s.nodes i n j).peers
  peers_kept p j h =
      update-cases (λ m. In p m.peers) s.nodes i j n h
        (λ e. rw a.peers (subst (λ k. In p (s.nodes k).peers) e h))

  pub advance : Votes faults members (record (set i n s) { votes = news ++ s.votes })
  advance = record {
    named = λ j.
        update-cases (λ m. m.id ≡ j) s.nodes i j n (inv.named j) (λ e. a.id ∙ inv.named i ∙ sym e);
    whole = λ j h.
        update-cases (λ m. Perm (j ∷ m.peers) members) s.nodes i j n (inv.whole j h)
          (λ e. rw (a.peers, ← e) (inv.whole j h));
    campaign = λ j h.
        update-cases Campaign s.nodes i j n (inv.campaign j h) (λ e. a.campaign (rw (← e) h));
    durable = λ f j. update-cases IsDurable s.nodes i j n (inv.durable f j) (λ e. a.durable f);
    backed = λ j.
        update-cases (λ m. Backed m (news ++ s.votes)) s.nodes i j n
          (λ p c r. In-right _ news s.votes (inv.backed j p c r)) (λ e. a.backed);
    recorded = λ v h. elim (In-append v news s.votes h) [
      | inl new ↦ Recorded-new v new
      | inr old ↦ Recorded-old v old
    ];
    once = λ v w h k voter term. elim (In-append v news s.votes h) [
      | inl new ↦ elim (In-append w news s.votes k) [
        | inl new' ↦
            let (_, _, candidate, _) = a.cast v new in
            let (_, _, candidate', _) = a.cast w new' in candidate ∙ sym candidate'
        | inr old ↦ once_new v w new old voter term
      ]
      | inr old ↦ elim (In-append w news s.votes k) [
        | inl new ↦ sym (once_new w v new old (sym voter) (sym term))
        | inr old' ↦ inv.once v w old old' voter term
      ]
    ];
    named_votes = λ v h. elim (In-append v news s.votes h) [
      | inl new ↦ let (_, _, _, named) = a.cast v new in named
      | inr old ↦ inv.named_votes v old
    ];
    members_named = inv.members_named;
    asked = λ b h.
        let (candidate, named, peer) = inv.asked b h in
        (candidate, named, peers_kept b.voter b.candidate peer);
    from_peers = λ b h. peers_kept b.voter b.candidate (inv.from_peers b h);
    granted = λ b h g. In-right _ news s.votes (inv.granted b h g);
  }

-- The messages of AppendEntries do not matter.
pub Votes-frame :
    {faults : Bool} {members : List NodeId} {s : Cluster} (rounds : List (NodeId × Round))
    (appends : List Append) (acks : List Ack)
    → Votes faults members s
    → Votes faults members (record s { rounds = rounds; appends = appends; acks = acks })
Votes-frame rounds appends acks inv = record {
  named = inv.named;
  members_named = inv.members_named;
  whole = inv.whole;
  campaign = inv.campaign;
  durable = inv.durable;
  backed = inv.backed;
  recorded = inv.recorded;
  once = inv.once;
  named_votes = inv.named_votes;
  asked = inv.asked;
  from_peers = inv.from_peers;
  granted = inv.granted;
}

pub Votes-asks :
    {faults : Bool} {members : List NodeId} {s : Cluster} (more : List Ask)
    → ((a : Ask) → In a more → Asked s a)
    → Votes faults members s
    → Votes faults members (record s { asks = more ++ s.asks })
Votes-asks {s = s} more new inv = record {
  named = inv.named;
  members_named = inv.members_named;
  whole = inv.whole;
  campaign = inv.campaign;
  durable = inv.durable;
  backed = inv.backed;
  recorded = inv.recorded;
  once = inv.once;
  named_votes = inv.named_votes;
  asked =
      λ a h. elim (In-append a more s.asks h) [ inl sent ↦ new a sent | inr old ↦ inv.asked a old ];
  from_peers = inv.from_peers;
  granted = inv.granted;
}

pub Votes-ballot :
    {faults : Bool} {members : List NodeId} {s : Cluster} (b : Ballot)
    → In b.voter (s.nodes b.candidate).peers
    → (b.reply.vote_granted ≡ true → In (vote_for b.voter b.candidate b.term) s.votes)
    → Votes faults members s
    → Votes faults members (record s { ballots = b ∷ s.ballots })
Votes-ballot {s = s} b peer granted inv = record {
  named = inv.named;
  members_named = inv.members_named;
  whole = inv.whole;
  campaign = inv.campaign;
  durable = inv.durable;
  backed = inv.backed;
  recorded = inv.recorded;
  once = inv.once;
  named_votes = inv.named_votes;
  asked = inv.asked;
  from_peers = λ c h. elim h [
    | inl new ↦ subst (λ c. In c.voter (s.nodes c.candidate).peers) (sym new) peer
    | inr old ↦ inv.from_peers c old
  ];
  granted = λ c h. elim h [
    | inl new ↦
        subst (λ c. c.reply.vote_granted ≡ true → In (vote_for c.voter c.candidate c.term) s.votes)
          (sym new) granted
    | inr old ↦ inv.granted c old
  ];
}

-- An event that starts and wins no campaign, with a vote that it may cast.
module _ {faults : Bool} {members : List NodeId} {s : Cluster} (inv : Votes faults members s)
    (i : NodeId) {n : Node} (kept : VoteKept (s.nodes i) n) (quiet : Quiet (s.nodes i) n)
    (durable : faults ≡ true → IsDurable n) where
  Quiet-Backed : (news : List Vote) → Backed n (news ++ s.votes)
  Quiet-Backed news p campaigns counted = elim quiet.ballot [
    | inl follows ↦ absurd (campaigns follows)
    | inr b ↦
        let old =
          inv.backed i p (λ e. campaigns (b.state ∙ e))
            (ap (λ m. m p) (sym b.votes_received) ∙ counted) in
        In-right _ news s.votes (rw (quiet.id, b.current_term) old)
  ]

  pub Quiet-Advance :
      (news : List Vote)
      → ((v : Vote) → In v news → IsCast i n v)
      → Advance faults members s i n news
  Quiet-Advance news cast = record {
    id = quiet.id;
    peers = quiet.peers;
    kept = kept;
    campaign = λ h. Quiet-Campaign quiet (inv.campaign i h);
    durable = durable;
    backed = Quiet-Backed news;
    cast = cast;
  }
