-- ===== src/Raft/Cluster/Matching.antt =====
-- The steps of a cluster without crashes, and the logs.
use gammaflow.Base.{
  ◌+◌, ◌<◌, ◌≡◌, inl, inr, sym, ap, ◌∙◌, some, List, [], arith, tests, In, ◌==◌, Bool-cases,
  u64_mod,
}
use gammaflow.Raft.Types.{NodeId, Term, leader, RequestVoteArgs, AppendEntriesReply}
use gammaflow.Raft.Log.{RaftLog}
use gammaflow.Raft.Log.View.{term_of, term_of-take}
use gammaflow.Raft.Node.{Node}
use gammaflow.Raft.Append.{handle_append_entries}
use gammaflow.Raft.Append.Match.{append-Agree}
use gammaflow.Raft.Election.{start_election}
use gammaflow.Raft.Node.Frame.{Quiet}
use gammaflow.Raft.Run.Votes.{VoteKept}
use gammaflow.Raft.Run.Reign.{Holds, start_election-turn, handle_append_entries-turn}
use gammaflow.Raft.Cluster.{Cluster, Append}
use gammaflow.Raft.Cluster.Reigns.{Reigns, Genuine, Genuine-Agree, Continues, Rightful}
use gammaflow.Raft.Cluster.Onward.{Onward, Onward-same}

pub first_term : {reigns : Reigns} (l : RaftLog) → Genuine reigns l → term_of l.entries 0 ≡ 0
first_term l g = sym (term_of-take 1 0 l.entries (omega arith)) ∙ ap (λ es. term_of es 0) g.first

module _ {members : List NodeId} {s : Cluster} {reigns : Reigns} (inv : Rightful members s reigns)
    (i : NodeId) where
  pub Genuine-kept : {l : RaftLog} → l ≡ (s.nodes i).log → Genuine reigns l
  Genuine-kept same = rw same (inv.logs i)

  -- An event that neither touches the log nor changes the role within a term.
  pub Onward-calm :
      {n : Node}
      → VoteKept (s.nodes i) n
      → Quiet (s.nodes i) n
      → Holds (s.nodes i) n
      → Onward members s reigns i n reigns
  Onward-calm {n} kept quiet holds =
      Onward-same i inv (Genuine-kept holds.log) kept.grows
        (λ rises. elim quiet.ballot [
          | inl follows ↦ absurd (rises follows)
          | inr same ↦ inv.active i (λ f. rises (same.state ∙ f))
        ])
        (λ l. elim quiet.ballot [
          | inl follows ↦ absurd (ground (arith, l, follows))
          | inr same ↦ (sym same.state ∙ l, same.current_term, holds.log)
        ])
        (λ l. elim holds.ballot [
          | inl later ↦ inl later
          | inr same ↦ inr (same.current_term, same.state ∙ l)
        ])

  pub Onward-stands :
      {n : Node} {args : RequestVoteArgs}
      → In i members
      → (s.nodes i).current_term + 1 < u64_mod
      → start_election (s.nodes i) ≡ some (n, args)
      → Onward members s reigns i n reigns
  Onward-stands member fits h =
      let (stands, later, log) = start_election-turn (s.nodes i) fits h in
      Onward-same i inv (Genuine-kept log) (omega (arith, later)) (λ _. member)
        (λ l. absurd (ground (arith, l, stands))) (λ _. inl later)

  -- The leader of a term that the reigns give to another node is that node.
  pub own_term :
      {j : NodeId}
      → (s.nodes i).state ≡ leader
      → (t : Term) → (s.nodes i).current_term ≡ t
      → Continues (record { leader = j; log = [] }) reigns t
      → i ≡ j
  own_term l t same c =
      let mine = inv.leads i l in ground (arith, ap reigns same, mine, c.of_term, c.leader)

  -- A message of a leader.
  pub Onward-append :
      (m : Append) {n : Node} {r : AppendEntriesReply}
      → In m s.appends
      → m.follower ≡ i
      → handle_append_entries m.args (s.nodes i) ≡ some (n, r)
      → Onward members s reigns i n reigns
  Onward-append m {n} sent to h =
      let old = s.nodes i in
      let g = inv.appends m sent in
      let first = first_term old.log (inv.logs i) ∙ sym (first_term m.log g.genuine) in
      let agree = Genuine-Agree old.log m.log (inv.logs i) g.genuine in
      let genuine : Genuine reigns n.log =
        elim (append-Agree m.args old h (inv.logs i).fits m.log g.built g.genuine.fits first
          agree) [ inl kept ↦ Genuine-kept kept | inr taken ↦ rw taken g.genuine ] in
      elim (handle_append_entries-turn m.args old h) [
        | inl same ↦
            Onward-same i inv genuine (omega (arith, ap (λ k. k.current_term) same))
              (λ rises. inv.active i (λ f. rises (ap (λ k. k.state) same ∙ f)))
              (λ l. (
                ap (λ k. k.state) (sym same) ∙ l,
                ap (λ k. k.current_term) same,
                ap (λ k. k.log) same,
              ))
              (λ l. inr (ap (λ k. k.current_term) same, ap (λ k. k.state) same ∙ l))
        | inr (follows, now, le) ↦
            Onward-same i inv genuine (omega (arith, now, le)) (λ rises. absurd (rises follows))
              (λ l. absurd (ground (arith, l, follows)))
              (λ l. elim (Bool-cases (old.current_term == m.args.term)) [
                | inr later ↦ inl (ground (arith, now, le, later))
                | inl equal ↦ absurd (g.apart (to ∙ own_term l m.args.term (omega tests) g.reign))
              ])
      ]
