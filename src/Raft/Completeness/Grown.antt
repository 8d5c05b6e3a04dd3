-- ===== src/Raft/Completeness/Grown.antt =====
-- A node whose log only grew.
use gammaflow.Base.{suc, ◌<◌, ◌≡◌, ◌⊎◌, inl, inr, ◌∙◌, List, In, arith, u64_mod}
use gammaflow.Raft.Types.{NodeId, leader}
use gammaflow.Raft.Node.{Node}
use gammaflow.Raft.Cluster.{Cluster}
use gammaflow.Raft.Cluster.Reigns.{Rightful}
use gammaflow.Raft.Completeness.Logs.{Prefix, Prefix-take, Has-Prefix}
use gammaflow.Raft.Completeness.{World, Settled, IsNode, Complete, Matched}
use gammaflow.Raft.Completeness.Quorums.{Settled-inside}
use gammaflow.Raft.Completeness.Moves.{Move, Accepted-old, Led-old, Alive-old, Settled-on}

module _ {members : List NodeId} {s : Cluster} {w w' : World} {i : NodeId} {n : Node}
    (inv : Rightful members s w.reigns) (c : Complete members s w) (mv : Move w i (s.nodes i) n w')
    (grown : Prefix (s.nodes i).log.entries n.log.entries) where
  abbrev old : Node
  old = s.nodes i

  grown-Settled :
      Settled members w old.log.entries old.current_term old.commit_index
      → Settled members w' n.log.entries n.current_term old.commit_index
  grown-Settled h =
      let x = old.commit_index in
      let long = Settled-inside old.log.entries old.current_term x h in
      Settled-on inv c mv n.log.entries old.current_term n.current_term x mv.grows (record {
        term = h.term;
        place = h.place;
        not_newer = h.not_newer;
        covers = h.covers;
        reign = h.reign;
        of_term = h.of_term;
        has = h.has;
        committed = h.committed;
        same = Prefix-take (suc x) old.log.entries n.log.entries long grown ∙ h.same;
      })

  pub grown-IsNode :
      n.commit_index ≡ old.commit_index
      → (n.state ≡ leader
          → (p : NodeId) → In p n.peers
          → (n.match_index p ≡ 0) ⊎ Matched w' p n.current_term (n.match_index p))
      → ((p : NodeId) → n.next_index p < u64_mod)
      → IsNode members w' i n
  grown-IsNode commit matches next =
      let node = c.nodes i in
      record {
        accepted = λ t k a. elim (Accepted-old inv c mv i t k a) [
          | inl before ↦
              let (le, has) = node.accepted t k before in
              (
                omega (arith, le, mv.grows),
                λ alive.
                    Has-Prefix old.log.entries n.log.entries t k grown
                      (has (Alive-old inv c mv t k alive)),
              )
          | inr (_, now, has) ↦ (omega (arith, now), λ _. has)
        ];
        led = λ u t k l le alive. elim (Led-old inv c mv i u t k l) [
          | inl before ↦
              Has-Prefix old.log.entries n.log.entries t k grown
                (node.led u t k before le (Alive-old inv c mv t k alive))
          | inr (_, _, has) ↦ has
        ];
        commit = elim node.commit [
          | inl start ↦ inl (commit ∙ start)
          | inr h ↦ inr (rw commit (grown-Settled h))
        ];
        matches = matches;
        next = next;
      }
