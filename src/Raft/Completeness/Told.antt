-- ===== src/Raft/Completeness/Told.antt =====
-- The steps that send a message of a leader.
use mathlib.Core.Path.{subst}
use gammaflow.Base.{◌≡◌, inl, inr, refl, sym, ap, ◌∙◌, some, List, ◌∷◌, In, arith}
use gammaflow.Raft.Types.{NodeId, AppendEntriesArgs}
use gammaflow.Raft.Replication.{Round, heartbeat_round, heartbeat_args, replicate_tick, send}
use gammaflow.Raft.Replication.Built.{
  heartbeat_args-Built, replicate_tick-Built, heartbeat_round-fields,
}
use gammaflow.Raft.Run.{}
use gammaflow.Raft.Cluster.{Cluster, Append, sends}
use gammaflow.Raft.Cluster.Reigns.{Rightful}
use gammaflow.Raft.Cluster.Crowns.{two_reigns}
use gammaflow.Raft.Cluster.Sending.{reigning, leader-apart, Rightful-beat, Rightful-message}
use gammaflow.Raft.Completeness.{World, IsRound, IsMessage, Complete}
use gammaflow.Raft.Completeness.Commanded.{}
use gammaflow.Raft.Completeness.Counting.{}
use gammaflow.Raft.Completeness.Telling.{
  beat-IsRound, told-IsMessage, own_pledge, heartbeat_args-IsMade, replicate_tick-IsMade,
  Complete-told,
}
use gammaflow.Raft.Completeness.Onto.{Onto, told-Onto}
use gammaflow.Raft.Completeness.Answered.{}

module _ {members : List NodeId} {s : Cluster} {w : World} (inv : Rightful members s w.reigns)
    (c : Complete members s w) where
  pub beat-Onto :
      (i : NodeId) {r : Round}
      → heartbeat_round (s.nodes i) ≡ some r
      → Onto members s w (record s { rounds = (i, r) ∷ s.rounds })
  beat-Onto i {r} h =
      let (leads, term, _) = heartbeat_round-fields (s.nodes i) h in
      let new = beat-IsRound inv c i h leads term in
      told-Onto inv c (Rightful-beat inv i h)
        (Complete-told ((i, r) ∷ s.rounds) s.appends c (λ a sent. sent)
          (λ j q given. elim given [
            | inl e ↦ subst (λ k. IsRound members w k.1) (sym e) new
            | inr old ↦ c.rounds j q old
          ])
          c.messages)
        (λ j. omega arith)

  sent-Onto :
      (i p : NodeId) {args : AppendEntriesArgs}
      → Rightful members (sends i p args s) w.reigns
      → IsMessage members w s.nodes
          (record { leader = i; follower = p; args = args; log = (s.nodes i).log })
      → Onto members s w (sends i p args s)
  sent-Onto i p {args} rightful new =
      let m : Append = record { leader = i; follower = p; args = args; log = (s.nodes i).log } in
      told-Onto inv c rightful
        (Complete-told s.rounds (m ∷ s.appends) c (λ a old. inr old) c.rounds
          (λ a given. elim given [
            | inl e ↦ subst (IsMessage members w s.nodes) (sym e) new
            | inr old ↦ c.messages a old
          ]))
        (λ j. omega arith)

  pub beat_to-Onto :
      (i : NodeId) (r : Round) (p : NodeId) {args : AppendEntriesArgs}
      → In (i, r) s.rounds
      → In p r.peers
      → heartbeat_args r p (s.nodes i) ≡ some args
      → Onto members s w (sends i p args s)
  beat_to-Onto i r p {args} round peer h =
      let (built, term) = heartbeat_args-Built r p (s.nodes i) (inv.logs i).fits h in
      let old = inv.rounds i r round in
      let known = c.rounds i r round in
      let mine : known.reign.leader ≡ i =
        ap (λ q. q.leader) (two_reigns known.of_term old.reign.of_term) ∙ old.reign.leader in
      sent-Onto i p (Rightful-message inv i p built (rw term old.reign) (old.apart p peer)) (
        told-IsMessage inv c i p built known.reign (ap w.reigns term ∙ known.of_term) mine
          r.commit_index (heartbeat_args-IsMade r p (s.nodes i) h) (rw term known.commit))

  pub replicate-Onto :
      (i p : NodeId) {args : AppendEntriesArgs}
      → In p (s.nodes i).peers
      → replicate_tick p (s.nodes i) ≡ some (send args)
      → Onto members s w (sends i p args s)
  replicate-Onto i p {args} peer h =
      let n = s.nodes i in
      let (built, term, l) = replicate_tick-Built p n (inv.logs i).fits h in
      sent-Onto i p
        (Rightful-message inv i p built (rw term (reigning inv i l)) (leader-apart inv i p l peer))
        (told-IsMessage inv c i p built (record { leader = i; log = n.log.entries })
          (ap w.reigns term ∙ inv.leads i l) refl n.commit_index (replicate_tick-IsMade p n h)
          (rw term (own_pledge inv c i l)))
