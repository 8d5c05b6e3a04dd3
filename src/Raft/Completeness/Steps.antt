-- ===== src/Raft/Completeness/Steps.antt =====
-- Every step of a cluster without crashes keeps the invariant.
use mathlib.Core.Path.{subst}
use gammaflow.Base.{
  ◌+◌, ◌<◌, ◌≡◌, inl, inr, refl, sym, ap, ◌∙◌, false, some, List, [], ◌∷◌, In, arith, ◌≤◌, length,
  int_max,
}
use gammaflow.Raft.Types.{Bytes, NodeId, AppendEntriesReply}
use gammaflow.Raft.Node.{Node, reset_election_timer}
use gammaflow.Raft.Vote.Grant.{handle_request_vote-SameData}
use gammaflow.Raft.Append.{handle_append_entries}
use gammaflow.Raft.Replication.{reset_heartbeat_timer}
use gammaflow.Raft.Replication.Built.{}
use gammaflow.Raft.Apply.{delivered}
use gammaflow.Raft.Submit.{submit}
use gammaflow.Raft.Run.{
  start, heartbeat_response, replicate_response, vote_request, heartbeats_sent, batch_delivered,
  step,
}
use gammaflow.Raft.Run.Reign.{submit-turn}
use gammaflow.Raft.Cluster.{
  Cluster, Append, set, cast, replies, Step, timeout, vote, count, beat, beat_to, replicate, append,
  beat_answered, replicate_answered, command, applied, beats_started, crash,
}
use gammaflow.Raft.Cluster.Votes.{Votes, update-cases}
use gammaflow.Raft.Cluster.Leaders.{Step-Votes}
use gammaflow.Raft.Cluster.Reigns.{Rightful}
use gammaflow.Raft.Cluster.Onward.{Onward-same, Rightful-Onward}
use gammaflow.Raft.Cluster.Matching.{Genuine-kept, Onward-append}
use gammaflow.Raft.Cluster.Crowns.{Onward-command, crown_self}
use gammaflow.Raft.Cluster.Sending.{Onward-event}
use gammaflow.Raft.Completeness.{World, IsNode, IsAck, Complete}
use gammaflow.Raft.Completeness.Moves.{Settled-on}
use gammaflow.Raft.Completeness.Moved.{Complete-move, IsReign-on}
use gammaflow.Raft.Completeness.Calm.{IsCalm}
use gammaflow.Raft.Completeness.Following.{acked_world, append-Move}
use gammaflow.Raft.Completeness.Followed.{append-IsNode, append_rises}
use gammaflow.Raft.Completeness.Voted.{cast-IsVote}
use gammaflow.Raft.Completeness.Commanded.{
  submit-Takes, longer, command-Move, longer-IsReign, command-IsNode,
}
use gammaflow.Raft.Completeness.Counting.{
  handle_heartbeat_response-IsAnswered, handle_replicate_response-IsAnswered,
}
use gammaflow.Raft.Completeness.Hints.{conflict_index-below}
use gammaflow.Raft.Completeness.Telling.{}
use gammaflow.Raft.Completeness.Onto.{same_reign, Onto, move-Onto, calm-Onto, still-Onto}
use gammaflow.Raft.Completeness.Answered.{
  event-IsCalm, kept-IsNode, event-Onto, answered-IsNode, answered_commit, timeout-Onto,
  counted-Onto,
}
use gammaflow.Raft.Completeness.Told.{beat-Onto, beat_to-Onto, replicate-Onto}

module _ {members : List NodeId} {s : Cluster} {w : World} (inv : Rightful members s w.reigns)
    (c : Complete members s w) where
  appended-Onto :
      (m : Append) {n : Node} {r : AppendEntriesReply}
      → In m s.appends
      → handle_append_entries m.args (s.nodes m.follower) ≡ some (n, r)
      → Votes false members (replies m n r s)
      → Onto members s w (replies m n r s)
  appended-Onto m {n} {r} sent h votes =
      let mv = append-Move inv c m sent h in
      let w' = acked_world inv c m sent h in
      record {
        later = w';
        rightful =
            Rightful-Onward inv (Onward-append inv m.follower m sent refl h) s.asks s.ballots _ []
              votes;
        complete =
            Complete-move inv c mv s.asks s.ballots (record { request = m; reply = r } ∷ s.acks) []
              (ap (λ l. record { request = m; reply = r } ∷ l) c.acked)
              (append-IsNode inv c m sent h)
              (λ u q before _ _ _. IsReign-on inv c mv [] u q before before) (λ a old. inl old)
              (λ v none. absurd none)
              (λ a given. elim given [
                | inl e ↦ subst (IsAck s) (sym e) (record {
                  sent = sent;
                  hint =
                      conflict_index-below m.args (s.nodes m.follower) (inv.logs m.follower).fits h;
                })
                | inr old ↦ c.acks a old
              ]);
        carried = λ es now x. Settled-on inv c mv es now now x (omega arith);
        commits = λ j.
            update-cases (λ k. (s.nodes j).commit_index ≤ k.commit_index) s.nodes m.follower j n
              (omega arith)
              (λ e.
                let at = ap (λ k. (s.nodes k).commit_index) e in
                omega (arith, at, append_rises inv c m sent h));
      }

  -- A step that changes nothing.
  unchanged-Onto :
      (i : NodeId) (n : Node)
      → n ≡ s.nodes i
      → Votes false members (set i n s)
      → Onto members s w (set i n s)
  unchanged-Onto i n same votes =
      let term = ap (λ k. k.current_term) same in
      let state = ap (λ k. k.state) same in
      let log = ap (λ k. k.log) same in
      still-Onto inv c i n
        (record {
          log = log;
          grows = omega (arith, term);
          stood = λ stands. inr (sym state ∙ stands, term);
        })
        (omega (arith, ap (λ k. k.commit_index) same))
        (Onward-same i inv (Genuine-kept inv i log) (omega (arith, term))
          (λ rises. inv.active i (λ f. rises (state ∙ f))) (λ l. (sym state ∙ l, term, log))
          (λ l. inr (term, state ∙ l)))
        votes (subst (IsNode members w i) (sym same) (c.nodes i))

  commanded-Onto :
      (i : NodeId) (b : Bytes)
      → length (s.nodes i).log.entries + 1 < int_max
      → Votes false members (set i (submit b (s.nodes i)).0 s)
      → Onto members s w (set i (submit b (s.nodes i)).0 s)
  commanded-Onto i b short votes =
      let n = (submit b (s.nodes i)).0 in
      elim (submit-turn b (s.nodes i)) [
        | inl same ↦ unchanged-Onto i n same votes
        | inr (l, (e, term, grown)) ↦
            let onward = Onward-command inv i b short l e term grown in
            let r' = longer inv c i b short l in
            move-Onto inv c i n (command-Move inv c i b short l)
              (omega (arith, (submit-Takes b (s.nodes i) l).commit)) onward votes c.acked
              (command-IsNode inv c i b short l)
              (λ u r h _ now _.
                same_reign n.current_term u r' r (crown_self n.current_term r' w.reigns) now h
                  (longer-IsReign inv c i b short l onward.log))
      ]

  pub Step-Onto : {t : Cluster} → Step false members s t → Onto members s w t
  unfolding step reset_election_timer reset_heartbeat_timer delivered
  Step-Onto (timeout i member fits h) =
      timeout-Onto inv c i member fits h (Step-Votes (timeout i member fits h) inv.votes)
  Step-Onto (vote a {n} {r} sent h) =
      let i = a.voter in
      let d = handle_request_vote-SameData a.args (s.nodes i) h in
      let calm : IsCalm (s.nodes i) n =
        event-IsCalm inv c i (vote_request a.args) tt tt tt (rw h refl) in
      let up : (s.nodes i).commit_index ≤ n.commit_index = omega (arith, d.commit_index) in
      calm-Onto inv c i n s.asks
        (record { voter = i; candidate = a.candidate; term = a.args.term; reply = r } ∷ s.ballots)
        (cast a r) calm up (Onward-event inv i (vote_request a.args) tt tt tt (rw h refl))
        (Step-Votes (vote a sent h) inv.votes)
        (kept-IsNode inv c i (vote_request a.args) tt tt tt (rw h refl) d.commit_index d.match_index
          d.next_index)
        (λ b old. inl old) (cast-IsVote inv c a sent h calm)
  Step-Onto (count b sent) = counted-Onto inv c b (Step-Votes (count b sent) inv.votes)
  Step-Onto (beat i h) = beat-Onto inv c i h
  Step-Onto (beat_to i r p round peer h) = beat_to-Onto inv c i r p round peer h
  Step-Onto (replicate i p peer h) = replicate-Onto inv c i p peer h
  Step-Onto (append m sent h) = appended-Onto m sent h (Step-Votes (append m sent h) inv.votes)
  Step-Onto (beat_answered a sent h) =
      let m = a.request in
      let e = heartbeat_response m.args.term m.follower m.args.entries (some a.reply) in
      event-Onto inv c m.leader e tt tt tt h
        (answered_commit inv c a sent (
          handle_heartbeat_response-IsAnswered m.args.term m.follower m.args.entries a.reply
            (s.nodes m.leader) h))
        (Step-Votes (beat_answered a sent h) inv.votes)
        (answered-IsNode inv c a sent (event-IsCalm inv c m.leader e tt tt tt h) (
          handle_heartbeat_response-IsAnswered m.args.term m.follower m.args.entries a.reply
            (s.nodes m.leader) h))
  Step-Onto (replicate_answered a sent h) =
      let m = a.request in
      let e = replicate_response m.args.term m.follower m.args.entries (some a.reply) in
      event-Onto inv c m.leader e tt tt tt (rw h refl)
        (answered_commit inv c a sent (
          handle_replicate_response-IsAnswered m.args.term m.follower m.args.entries a.reply
            (s.nodes m.leader) h))
        (Step-Votes (replicate_answered a sent h) inv.votes)
        (answered-IsNode inv c a sent (event-IsCalm inv c m.leader e tt tt tt (rw h refl)) (
          handle_replicate_response-IsAnswered m.args.term m.follower m.args.entries a.reply
            (s.nodes m.leader) h))
  Step-Onto (command i b short) =
      commanded-Onto i b short (Step-Votes (command i b short) inv.votes)
  Step-Onto (Step.start i) =
      event-Onto inv c i start tt tt tt refl (omega arith) (Step-Votes (Step.start i) inv.votes)
        (kept-IsNode inv c i start tt tt tt refl refl refl refl)
  Step-Onto (beats_started i) =
      event-Onto inv c i heartbeats_sent tt tt tt refl (omega arith)
        (Step-Votes (beats_started i) inv.votes)
        (kept-IsNode inv c i heartbeats_sent tt tt tt refl refl refl refl)
  Step-Onto (applied i b) =
      event-Onto inv c i (batch_delivered b) tt tt tt refl (omega arith)
        (Step-Votes (applied i b) inv.votes)
        (kept-IsNode inv c i (batch_delivered b) tt tt tt refl refl refl refl)
  Step-Onto (crash i f) = absurd (ground (arith, f))
