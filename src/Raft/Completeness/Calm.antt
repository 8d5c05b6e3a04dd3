-- ===== src/Raft/Completeness/Calm.antt =====
-- A step that leaves the log and the reigns alone.
use mathlib.Core.Path.{subst}
use gammaflow.Base.{◌≤◌, ◌<◌, ◌≡◌, ◌⊎◌, inl, inr, refl, sym, ◌∙◌, List, In, arith, u64_mod}
use gammaflow.Raft.Types.{NodeId, leader, candidate}
use gammaflow.Raft.Node.{Node}
use gammaflow.Raft.Node.Frame.{Quiet}
use gammaflow.Raft.Run.Votes.{VoteKept}
use gammaflow.Raft.Run.Reign.{Holds}
use gammaflow.Raft.Cluster.{Cluster}
use gammaflow.Raft.Cluster.Reigns.{Rightful}
use gammaflow.Raft.Completeness.{World, Settled, IsNode, Complete, Matched}
use gammaflow.Raft.Completeness.Moves.{Move, Settled-on}
use gammaflow.Raft.Completeness.Following.{Swells-refl}

-- The node keeps its log, and does not start to campaign within its term.
pub record IsCalm (old n : Node) : Type 0 where
  pub log : n.log ≡ old.log
  pub grows : old.current_term ≤ n.current_term
  pub stood :
      n.state ≡ candidate
      → (old.current_term < n.current_term)
        ⊎ ((old.state ≡ candidate) × (n.current_term ≡ old.current_term))

pub calm-Move : {w : World} {i : NodeId} {old n : Node} → IsCalm old n → Move w i old n w
calm-Move {w} calm = record {
  grows = calm.grows;
  stood = λ stands. elim (calm.stood stands) [
    | inl later ↦ inl later
    | inr (stood, same) ↦ inr (stood, same, calm.log)
  ];
  swells = Swells-refl w;
  crowned = λ u r h. inl h;
  masks = λ u r h. refl;
  kept = λ a h. h;
  answered = λ a h success. inl h;
}

-- Quiet events that keep the reign are calm.
pub Quiet-IsCalm : {old n : Node} → VoteKept old n → Quiet old n → Holds old n → IsCalm old n
Quiet-IsCalm kept quiet holds = record {
  log = holds.log;
  grows = kept.grows;
  stood = λ stands. elim quiet.ballot [
    | inl follows ↦ absurd (ground (arith, follows, stands))
    | inr b ↦ inr (sym b.state ∙ stands, b.current_term)
  ];
}

module _ {members : List NodeId} {s : Cluster} {w : World} (inv : Rightful members s w.reigns)
    (c : Complete members s w) (i : NodeId) {n : Node} (calm : IsCalm (s.nodes i) n) where
  abbrev old : Node
  old = s.nodes i

  -- What is known of the node stays, where the leader's bookkeeping and the commit index do.
  pub calm-IsNode :
      ((n.commit_index ≡ 0) ⊎ Settled members w n.log.entries n.current_term n.commit_index)
      → (n.state ≡ leader
          → (p : NodeId) → In p n.peers
          → (n.match_index p ≡ 0) ⊎ Matched w p n.current_term (n.match_index p))
      → ((p : NodeId) → n.next_index p < u64_mod)
      → IsNode members w i n
  calm-IsNode commit matches next =
      let node = c.nodes i in
      record {
        accepted = λ t k a.
            let (le, has) = node.accepted t k a in
            (omega (arith, le, calm.grows), λ alive. rw calm.log (has alive));
        led = λ u t k l le alive. rw calm.log (node.led u t k l le alive);
        commit = commit;
        matches = matches;
        next = next;
      }

  pub calm_commit :
      n.commit_index ≡ old.commit_index
      → (n.commit_index ≡ 0) ⊎ Settled members w n.log.entries n.current_term n.commit_index
  calm_commit same = elim (c.nodes i).commit [
    | inl start ↦ inl (same ∙ start)
    | inr h ↦ inr (
        rw (same, calm.log)
          (Settled-on inv c (calm-Move calm) old.log.entries old.current_term n.current_term
            old.commit_index calm.grows h))
  ]

  -- Nothing of it changed.
  pub calm_same :
      n.commit_index ≡ old.commit_index
      → n.match_index ≡ old.match_index
      → n.next_index ≡ old.next_index
      → n.peers ≡ old.peers
      → (n.state ≡ leader → (old.state ≡ leader) × (n.current_term ≡ old.current_term))
      → IsNode members w i n
  calm_same commit matches next peers leads =
      calm-IsNode (calm_commit commit)
        (λ l p peer.
          let (was, same) = leads l in
          rw (matches, same) ((c.nodes i).matches was p (subst (In p) peers peer)))
        (λ p. rw next ((c.nodes i).next p))
