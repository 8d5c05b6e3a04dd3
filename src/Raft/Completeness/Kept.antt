-- ===== src/Raft/Completeness/Kept.antt =====
-- A step of one node: the other nodes, and what is on the way.
use mathlib.Core.Path.{subst}
use gammaflow.Base.{
  suc, ◌<◌, ◌≡◌, ◌≢◌, inl, inr, sym, ap, ◌∙◌, some, List, arith, tests, length, ltb, Bool-cases,
  update,
}
use gammaflow.Raft.Types.{NodeId}
use gammaflow.Raft.Node.{Node}
use gammaflow.Raft.Replication.{Round}
use gammaflow.Raft.Cluster.{Append, Cluster}
use gammaflow.Raft.Cluster.Votes.{update-cases}
use gammaflow.Raft.Cluster.Crowns.{two_reigns}
use gammaflow.Raft.Cluster.Reigns.{Reign, Rightful}
use gammaflow.Raft.Completeness.Logs.{Has, Prefix-take, Prefix-trans, term_of-same, Prefix-refl}
use gammaflow.Raft.Completeness.{World, IsNode, InReign, IsLate, IsMessage, IsRound, Complete}
use gammaflow.Raft.Completeness.Moves.{
  Swells, Move, Accepted-old, Led-old, Alive-old, Settled-now, Pledged-on, Matched-on,
}

module _ {members : List NodeId} {s : Cluster} {w w' : World} {i : NodeId} {n : Node}
    (inv : Rightful members s w.reigns) (c : Complete members s w)
    (mv : Move w i (s.nodes i) n w') where
  -- Another node.
  pub IsNode-on : (j : NodeId) → j ≢ i → IsNode members w' j (s.nodes j)
  IsNode-on j apart =
      let old = c.nodes j in
      let m = s.nodes j in
      record {
        accepted = λ t k a. elim (Accepted-old inv c mv j t k a) [
          | inl a' ↦
              let (le, has) = old.accepted t k a' in
              (le, λ alive. has (Alive-old inv c mv t k alive))
          | inr (self, _, _) ↦ absurd (apart self)
        ];
        led = λ u t k l le alive. elim (Led-old inv c mv j u t k l) [
          | inl l' ↦ old.led u t k l' le (Alive-old inv c mv t k alive)
          | inr (self, _, _) ↦ absurd (apart self)
        ];
        commit =
            Settled-now inv c mv m.log.entries m.current_term m.current_term m.commit_index
              (omega arith) old.commit;
        matches = λ l p peer. elim (old.matches l p peer) [
          | inl start ↦ inl start
          | inr h ↦ inr (Matched-on inv c mv p m.current_term (m.match_index p) h)
        ];
        next = old.next;
      }

  pub IsRound-on : (r : Round) → IsRound members w r → IsRound members w' r
  IsRound-on r h =
      let x = mv.swells r.term h.reign h.of_term in
      record {
        reign = x.reign;
        of_term = x.of_term;
        commit = Pledged-on inv c mv h.reign.log x.reign.log r.term r.commit_index x.grown h.commit;
      }

  InReign-on :
      (m : Append) (r : Reign) (x : Swells w' m.args.term r) → InReign m r → InReign m x.reign
  InReign-on m r x h = record {
    part = Prefix-trans m.log.entries r.log x.reign.log h.part x.grown;
    whole = λ k room other. elim (Bool-cases (ltb k (length r.log))) [
      | inl old ↦ h.whole k (omega tests) (λ e. other (
          term_of-same (suc k) k x.reign.log r.log (omega arith)
            (Prefix-take (suc k) r.log x.reign.log (omega tests) x.grown)
          ∙ e))
      | inr new ↦ absurd (other (x.own k (omega tests) room))
    ];
  }

  IsLate-on :
      (m : Append) (r : Reign) (x : Swells w' m.args.term r)
      → w.reigns m.args.term ≡ some r
      → r.leader ≡ m.leader
      → IsLate w m (s.nodes m.leader) r
      → IsLate w' m (update s.nodes i n m.leader) x.reign
  IsLate-on m r x of_term by h =
      let same : x.reign ≡ r = elim (mv.crowned m.args.term x.reign x.of_term) [
        | inl old ↦ two_reigns old of_term
        | inr (self, now, _) ↦
            let at : (s.nodes m.leader).current_term ≡ (s.nodes i).current_term =
              ap (λ j. (s.nodes j).current_term) (sym by ∙ sym x.leader ∙ self) in
            absurd (omega (arith, h.over, at, mv.grows, now))
      ] in
      record {
        over =
            update-cases (λ k. m.args.term < k.current_term) s.nodes i m.leader n h.over
              (λ e.
                let at = ap (λ j. (s.nodes j).current_term) e in
                omega (arith, h.over, at, mv.grows));
        has = λ t k le alive held.
            h.has t k le (Alive-old inv c mv t k alive) (subst (λ r. Has r.log t k) same held);
      }

  pub IsMessage-on :
      (m : Append) → IsMessage members w s.nodes m → IsMessage members w' (update s.nodes i n) m
  IsMessage-on m h =
      let x = mv.swells m.args.term h.reign h.of_term in
      record {
        rest = h.rest;
        reign = x.reign;
        of_term = x.of_term;
        leader = x.leader ∙ h.leader;
        source = elim h.source [
          | inl r ↦ inl (InReign-on m h.reign x r)
          | inr late ↦ inr (IsLate-on m h.reign x h.of_term h.leader late)
        ];
        commit =
            Pledged-on inv c mv m.log.entries m.log.entries m.args.term m.args.leader_commit
              (Prefix-refl m.log.entries) h.commit;
      }
