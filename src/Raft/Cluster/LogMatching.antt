-- ===== src/Raft/Cluster/LogMatching.antt =====
-- The logs of a cluster without crashes.
use mathlib.Core.Path.{subst}
use gammaflow.Base.{
  ℕ, suc, ◌+◌, ◌<◌, ◌≡◌, inl, inr, refl, sym, ap, ◌∙◌, false, none, some, List, [], ◌∷◌, arith,
  length, take, int_max,
}
use gammaflow.Raft.Types.{Bytes, NodeId, leader}
use gammaflow.Raft.Log.{new_raft_log}
use gammaflow.Raft.Log.View.{term_of}
use gammaflow.Raft.Node.{Node}
use gammaflow.Raft.Replication.Built.{heartbeat_args-Built, replicate_tick-Built}
use gammaflow.Raft.Election.{handle_vote_response}
use gammaflow.Raft.Submit.{submit}
use gammaflow.Raft.Run.{
  start, heartbeat_response, replicate_response, vote_request, heartbeats_sent, batch_delivered,
  step,
}
use gammaflow.Raft.Run.Reign.{handle_vote_response-turn, submit-turn}
use gammaflow.Raft.Cluster.{
  Cluster, Ballot, set, cast, Step, timeout, vote, count, beat, beat_to, replicate, append,
  beat_answered, replicate_answered, command, applied, beats_started, crash, Reach, here, next,
}
use gammaflow.Raft.Cluster.Votes.{Votes, vote_for}
use gammaflow.Raft.Cluster.Leaders.{Starts, Starts-Votes, Step-Votes}
use gammaflow.Raft.Cluster.Reigns.{
  Reigns, Extends, Extends-refl, Continues-Extends, Genuine, Genuine-Agree, Rightful,
}
use gammaflow.Raft.Cluster.Onward.{Onward, Onward-same, Rightful-Onward}
use gammaflow.Raft.Cluster.Matching.{Onward-stands, Onward-append, Genuine-kept}
use gammaflow.Raft.Cluster.Crowns.{two_reigns, Onward-elected, Onward-command}
use gammaflow.Raft.Cluster.Sending.{
  reigning, leader-apart, Onward-event, Rightful-beat, Rightful-message,
}

-- The reigns go on, and explain the logs.
abbrev Explained : List NodeId → Reigns → Cluster → Type 0
Explained members reigns s =
    (reigns' : Reigns) × Extends reigns reigns' × Rightful members s reigns'

module _ {members : List NodeId} {s : Cluster} {reigns : Reigns}
    (inv : Rightful members s reigns) where
  -- A node that moved on, where nothing else did.
  moved :
      (i : NodeId) {n : Node}
      → Votes false members (set i n s)
      → (reigns' : Reigns) → Onward members s reigns i n reigns'
      → Explained members reigns (set i n s)
  moved i votes reigns' a =
      (reigns', a.extends, Rightful-Onward inv a s.asks s.ballots s.acks [] votes)

  counted :
      (b : Ballot)
      → let n = handle_vote_response b.term b.voter (some b.reply) (s.nodes b.candidate) in
        Votes false members (set b.candidate n s) → Explained members reigns (set b.candidate n s)
  counted b votes =
      let i = b.candidate in
      let old = s.nodes i in
      let (log, how) = handle_vote_response-turn b.term b.voter b.reply old in
      let genuine = Genuine-kept inv i log in
      elim how [
        | inl (later, follows) ↦ moved i votes reigns (
            Onward-same i inv genuine (omega (arith, later)) (λ rises. absurd (rises follows))
              (λ l. absurd (ground (arith, l, follows))) (λ _. inl later))
        | inr (inl (term, state)) ↦ moved i votes reigns (
            Onward-same i inv genuine (omega (arith, term))
              (λ rises. inv.active i (λ f. rises (state ∙ f))) (λ l. (sym state ∙ l, term, log))
              (λ l. inr (term, state ∙ l)))
        | inr (inr (term, stood, leads)) ↦
            moved i votes _ (Onward-elected inv i votes log stood term leads)
      ]

  commanded :
      (i : NodeId) (c : Bytes)
      → length (s.nodes i).log.entries + 1 < int_max
      → Votes false members (set i (submit c (s.nodes i)).0 s)
      → Explained members reigns (set i (submit c (s.nodes i)).0 s)
  commanded i c short votes = elim (submit-turn c (s.nodes i)) [
    | inl same ↦ moved i votes reigns (
        Onward-same i inv (Genuine-kept inv i (ap (λ k. k.log) same))
          (omega (arith, ap (λ k. k.current_term) same))
          (λ rises. inv.active i (λ f. rises (ap (λ k. k.state) same ∙ f)))
          (λ l.
            (ap (λ k. k.state) (sym same) ∙ l, ap (λ k. k.current_term) same, ap (λ k. k.log) same))
          (λ l. inr (ap (λ k. k.current_term) same, ap (λ k. k.state) same ∙ l)))
    | inr (l, (e, term, grown)) ↦ moved i votes _ (Onward-command inv i c short l e term grown)
  ]

Step-Explained :
    {members : List NodeId} {s t : Cluster} {reigns : Reigns}
    → Step false members s t
    → Rightful members s reigns
    → Explained members reigns t
unfolding step
Step-Explained {s = s} {reigns} (timeout i {n} {args} member fits h) inv = (
  reigns,
  Extends-refl reigns,
  Rightful-Onward inv (Onward-stands inv i member fits h) _ s.ballots s.acks
      (vote_for i i args.term ∷ []) (Step-Votes (timeout i member fits h) inv.votes),
)
Step-Explained {s = s} {reigns} (vote a {n} {r} sent h) inv = (
  reigns,
  Extends-refl reigns,
  Rightful-Onward inv (Onward-event inv a.voter (vote_request a.args) tt tt tt (rw h refl)) s.asks _
      s.acks (cast a r) (Step-Votes (vote a sent h) inv.votes),
)
Step-Explained {reigns = reigns} (count b sent) inv =
    counted inv b (Step-Votes (count b sent) inv.votes)
Step-Explained {reigns = reigns} (beat i h) inv =
    (reigns, Extends-refl reigns, Rightful-beat inv i h)
Step-Explained {s = s} {reigns} (beat_to i r p round peer h) inv =
    let (built, term) = heartbeat_args-Built r p (s.nodes i) (inv.logs i).fits h in
    let old = inv.rounds i r round in
    (
      reigns,
      Extends-refl reigns,
      Rightful-message inv i p built (rw term old.reign) (old.apart p peer),
    )
Step-Explained {s = s} {reigns} (replicate i p peer h) inv =
    let (built, term, l) = replicate_tick-Built p (s.nodes i) (inv.logs i).fits h in
    (
      reigns,
      Extends-refl reigns,
      Rightful-message inv i p built (rw term (reigning inv i l)) (leader-apart inv i p l peer),
    )
Step-Explained {s = s} {reigns} (append m {n} {r} sent h) inv = (
  reigns,
  Extends-refl reigns,
  Rightful-Onward inv (Onward-append inv m.follower m sent refl h) s.asks s.ballots _ []
      (Step-Votes (append m sent h) inv.votes),
)
Step-Explained {reigns = reigns} (beat_answered a sent h) inv =
    let m = a.request in
    moved inv m.leader (Step-Votes (beat_answered a sent h) inv.votes) reigns (
      Onward-event inv m.leader
        (heartbeat_response m.args.term m.follower m.args.entries (some a.reply)) tt tt tt h)
Step-Explained {reigns = reigns} (replicate_answered a sent h) inv =
    let m = a.request in
    moved inv m.leader (Step-Votes (replicate_answered a sent h) inv.votes) reigns (
      Onward-event inv m.leader
        (replicate_response m.args.term m.follower m.args.entries (some a.reply)) tt tt tt
        (rw h refl))
Step-Explained {reigns = reigns} (command i c short) inv =
    commanded inv i c short (Step-Votes (command i c short) inv.votes)
Step-Explained {reigns = reigns} (Step.start i) inv =
    moved inv i (Step-Votes (Step.start i) inv.votes) reigns
      (Onward-event inv i start tt tt tt refl)
Step-Explained {reigns = reigns} (beats_started i) inv =
    moved inv i (Step-Votes (beats_started i) inv.votes) reigns
      (Onward-event inv i heartbeats_sent tt tt tt refl)
Step-Explained {reigns = reigns} (applied i b) inv =
    moved inv i (Step-Votes (applied i b) inv.votes) reigns
      (Onward-event inv i (batch_delivered b) tt tt tt refl)
Step-Explained {reigns = reigns} (crash i f) inv = absurd (ground (arith, f))

pub Reach-Explained :
    {members : List NodeId} {s t : Cluster} {reigns : Reigns}
    → Reach false members s t
    → Rightful members s reigns
    → Explained members reigns t
Reach-Explained {reigns = reigns} here inv = (reigns, Extends-refl reigns, inv)
Reach-Explained (next run h) inv =
    let (reigns', more, inv') = Reach-Explained run inv in
    let (reigns'', more', inv'') = Step-Explained h inv' in
    (reigns'', λ t r k. Continues-Extends more' (more t r k), inv'')

-- No node has an entry yet, and no message of a leader is on the way.
pub record Empty (s : Cluster) : Type 0 where
  pub logs : (i : NodeId) → (s.nodes i).log ≡ new_raft_log
  pub rounds : s.rounds ≡ []
  pub appends : s.appends ≡ []

new_raft_log-Genuine : Genuine (λ _. none) new_raft_log
unfolding new_raft_log
new_raft_log-Genuine = record {
  fits = record { has_sentinel = omega arith; fits = omega arith };
  first = refl;
  inherited = λ k h h'. absurd (omega arith);
}

pub Starts-Rightful :
    {members : List NodeId} {s : Cluster}
    → Starts false members s
    → Empty s
    → Rightful members s (λ _. none)
Starts-Rightful starts empty = record {
  votes = Starts-Votes starts;
  active = λ i rises. absurd (rises (starts.follows i));
  leads = λ i l. absurd (ground (arith, l, starts.follows i));
  elected = λ t r h. absurd (ground (arith, h));
  past = λ t r h. absurd (ground (arith, h));
  logs = λ i. rw (empty.logs i) new_raft_log-Genuine;
  rounds = λ i r h. absurd (rw empty.rounds at h);
  appends = λ m h. absurd (rw empty.appends at h);
}

module _ (members : List NodeId) {s t : Cluster} (starts : Starts false members s) (empty : Empty s)
    (run : Reach false members s t) where
  -- Log matching: two logs that have an entry of the same term at the same place agree up to that
  -- place. (The cluster started with empty logs and nothing sent, and no node crashed, nor stood
  -- for election when its term counter would wrap.)
  pub log_matching :
      (i j : NodeId) (k : ℕ)
      → k < length (t.nodes i).log.entries
      → k < length (t.nodes j).log.entries
      → term_of (t.nodes i).log.entries k ≡ term_of (t.nodes j).log.entries k
      → take (suc k) (t.nodes i).log.entries ≡ take (suc k) (t.nodes j).log.entries
  log_matching i j =
      let (reigns, _, inv) = Reach-Explained run (Starts-Rightful starts empty) in
      Genuine-Agree (t.nodes i).log (t.nodes j).log (inv.logs i) (inv.logs j)

  -- Leader append-only: a node that leads in a term, and leads in it after further steps, has its
  -- old log as the beginning of the new one. (The cluster started with empty logs and nothing
  -- sent, and no node crashed, nor stood for election when its term counter would wrap.)
  pub leader_append_only :
      {u : Cluster}
      → Reach false members t u
      → (i : NodeId) → (t.nodes i).state ≡ leader
      → (u.nodes i).state ≡ leader
      → (u.nodes i).current_term ≡ (t.nodes i).current_term
      → take (length (t.nodes i).log.entries) (u.nodes i).log.entries ≡ (t.nodes i).log.entries
  leader_append_only more i l l' same =
      let (reigns, _, inv) = Reach-Explained run (Starts-Rightful starts empty) in
      let (reigns', ext, inv') = Reach-Explained more inv in
      let c = ext (t.nodes i).current_term _ (inv.leads i l) in
      let one = two_reigns c.of_term (ap reigns' (sym same) ∙ inv'.leads i l') in
      subst (λ r. take (length (t.nodes i).log.entries) r.log ≡ (t.nodes i).log.entries) one c.grown
