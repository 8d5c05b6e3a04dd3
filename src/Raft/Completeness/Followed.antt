-- ===== src/Raft/Completeness/Followed.antt =====
-- A message of a leader was handled: the invariant of the node.
use mathlib.Core.Path.{subst}
use gammaflow.Base.{
  ℕ, suc, ◌≤◌, ◌≡◌, ◌⊎◌, inl, inr, sym, ◌∙◌, true, some, List, In, arith, tests, ltb, Bool-cases,
  take,
}
use gammaflow.Raft.Types.{NodeId, Term, LogIndex, leader, AppendEntriesReply}
use gammaflow.Raft.Node.{Node}
use gammaflow.Raft.Append.{handle_append_entries}
use gammaflow.Raft.Run.Reign.{handle_append_entries-turn}
use gammaflow.Raft.Cluster.{Append, Cluster}
use gammaflow.Raft.Cluster.Reigns.{Rightful, IsPast}
use gammaflow.Raft.Completeness.Logs.{
  Has, Prefix-take, Has-Prefix, inside, take-shorter, Genuine-Has,
}
use gammaflow.Raft.Completeness.{
  World, Accepted, Led, Alive, Settled, Pledged, IsNode, Complete, Matched,
}
use gammaflow.Raft.Completeness.Moves.{Move, Committed-on, Alive-old, Settled-on, Matched-on}
use gammaflow.Raft.Completeness.Quorums.{Committed-Alive, Settled-inside}
use gammaflow.Raft.Completeness.Appending.{accepted_turn}
use gammaflow.Raft.Completeness.Following.{
  acked_world, appended, append-Move, kept_place, not_newer, kept_has,
}

module _ {members : List NodeId} {s : Cluster} {w : World} (inv : Rightful members s w.reigns)
    (c : Complete members s w) (m : Append) (sent : In m s.appends) {n : Node}
    {r : AppendEntriesReply}
    (handled : handle_append_entries m.args (s.nodes m.follower) ≡ some (n, r)) where
  abbrev old : Node
  old = s.nodes m.follower

  abbrev w' : World
  w' = acked_world inv c m sent handled

  abbrev mv : Move w m.follower old n w'
  mv = append-Move inv c m sent handled

  node : IsNode members w m.follower old
  node = c.nodes m.follower

  has_accepted :
      (t : Term) (k : ℕ)
      → Accepted w' m.follower t k
      → (t ≤ n.current_term) × (Alive w' t k → Has n.log.entries t k)
  has_accepted t k a = elim a.given [
    | inr before ↦
        let a' : Accepted w m.follower t k = record {
          ack = a.ack;
          given = before;
          success = a.success;
          by = a.by;
          of_term = a.of_term;
          has = a.has;
        } in
        let (le, has) = node.accepted t k a' in
        (
          omega (arith, le, mv.grows),
          λ alive.
              let alive' = Alive-old inv c mv t k alive in
              kept_has inv c m sent handled t k le alive' (has alive'),
        )
    | inl e ↦
        let accepted : r.success ≡ true = subst (λ b. b.reply.success ≡ true) e a.success in
        let (now, _, _) = accepted_turn m.args old handled (inv.logs m.follower).fits accepted in
        let of_term : m.args.term ≡ t = subst (λ b. b.request.args.term ≡ t) e a.of_term in
        let has : Has m.log.entries t k = subst (λ b. Has b.request.log.entries t k) e a.has in
        (
          omega (arith, now, of_term),
          λ _.
              Has-Prefix m.log.entries n.log.entries t k
                ((appended inv c m sent handled).covers accepted) has,
        )
  ]

  has_led :
      (u t : Term) (k : ℕ) → Led w' m.follower u t k → t ≤ u → Alive w' t k → Has n.log.entries t k
  has_led u t k l le alive =
      let l' : Led w m.follower u t k = record {
        reign = l.reign;
        of_term = l.of_term;
        leader = l.leader;
        has = l.has;
      } in
      let alive' = Alive-old inv c mv t k alive in
      let over : u ≤ old.current_term =
        elim (subst (λ j. IsPast (s.nodes j) u) l.leader (inv.past u l.reign l.of_term)) [
          | inl past ↦ omega (arith, past)
          | inr (now, _) ↦ omega (arith, now)
        ] in
      kept_has inv c m sent handled t k (omega (arith, le, over)) alive'
        (node.led u t k l' le alive')

  -- A commit index that stays.
  Settled-stays :
      Settled members w old.log.entries old.current_term old.commit_index
      → Settled members w' n.log.entries n.current_term old.commit_index
  Settled-stays h =
      let same : take (suc old.commit_index) n.log.entries
          ≡ take (suc old.commit_index) h.reign.log =
        elim (not_newer inv c m sent handled h.term h.not_newer) [
          | inl unchanged ↦ rw unchanged h.same
          | inr le ↦
              kept_place inv c m sent handled h.term h.place old.commit_index h.reign le h.of_term
                h.has (Committed-Alive inv c h.term h.place h.committed) h.covers h.same
        ] in
      Settled-on inv c mv n.log.entries old.current_term n.current_term old.commit_index mv.grows
        (record {
          term = h.term;
          place = h.place;
          not_newer = h.not_newer;
          covers = h.covers;
          reign = h.reign;
          of_term = h.of_term;
          has = h.has;
          committed = h.committed;
          same = same;
        })

  -- A commit index that rises to the leader's, as far as the log goes.
  Settled-rises :
      r.success ≡ true
      → Pledged members w m.log.entries m.args.term m.args.leader_commit
      → (x : LogIndex) → x ≤ m.args.leader_commit
      → Settled members w' n.log.entries n.current_term x
  Settled-rises accepted p x le =
      let (now, _, _) = accepted_turn m.args old handled (inv.logs m.follower).fits accepted in
      let covers = (appended inv c m sent handled).covers accepted in
      let o = Genuine-Has m.log p.term p.place (inv.appends m sent).genuine p.has in
      let room = inside m.log.entries p.place (omega (arith, p.has)) in
      record {
        term = p.term;
        place = p.place;
        not_newer = omega (arith, p.not_newer, now);
        covers = omega (arith, p.covers, le);
        reign = o.reign;
        of_term = o.of_term;
        has = o.has;
        committed = Committed-on inv c mv p.term p.place p.committed;
        same =
            Prefix-take (suc x) m.log.entries n.log.entries (omega (arith, p.covers, le, room))
              covers
            ∙ take-shorter (suc x) (suc p.place) m.log.entries o.reign.log
                (omega (arith, p.covers, le)) o.same;
      }

  stays :
      n.commit_index ≡ old.commit_index
      → (n.commit_index ≡ 0) ⊎ Settled members w' n.log.entries n.current_term n.commit_index
  stays same = elim node.commit [
    | inl start ↦ inl (same ∙ start)
    | inr h ↦ inr (rw same (Settled-stays h))
  ]

  commit-Settled :
      (n.commit_index ≡ 0) ⊎ Settled members w' n.log.entries n.current_term n.commit_index
  commit-Settled =
      let a = appended inv c m sent handled in
      elim (Bool-cases r.success) [
        | inr turned ↦ stays (a.refused turned).commit_index
        | inl accepted ↦ elim (Bool-cases (ltb old.commit_index m.args.leader_commit)) [
          | inr level ↦ stays (rw level at (a.commit accepted))
          | inl ahead ↦
              let rises = rw ahead at (a.commit accepted) in
              elim (c.messages m sent).commit [
                | inl start ↦ absurd (omega (tests, start))
                | inr p ↦ inr (Settled-rises accepted p n.commit_index (omega (arith, rises)))
              ]
        ]
      ]

  pub append_rises : old.commit_index ≤ n.commit_index
  append_rises =
      let a = appended inv c m sent handled in
      elim (Bool-cases r.success) [
        | inr turned ↦ omega (arith, (a.refused turned).commit_index)
        | inl accepted ↦ elim (Bool-cases (ltb old.commit_index m.args.leader_commit)) [
          | inr level ↦ omega (arith, rw level at (a.commit accepted))
          | inl ahead ↦
              let rises = rw ahead at (a.commit accepted) in
              elim node.commit [
                | inl start ↦ omega (arith, start)
                | inr h ↦
                    let room =
                      Settled-inside n.log.entries n.current_term old.commit_index
                        (Settled-stays h) in
                    omega (tests, rises, room)
              ]
        ]
      ]

  pub append-IsNode : IsNode members w' m.follower n
  append-IsNode = record {
    accepted = has_accepted;
    led = has_led;
    commit = commit-Settled;
    matches = elim (handle_append_entries-turn m.args old handled) [
      | inr (follows, _, _) ↦ λ l. absurd (ground (arith, l, follows))
      | inl same ↦
          subst
            (λ k.
              k.state ≡ leader
              → (p : NodeId) → In p k.peers
              → (k.match_index p ≡ 0) ⊎ Matched w' p k.current_term (k.match_index p))
            (sym same)
            (λ l p peer. elim (node.matches l p peer) [
              | inl start ↦ inl start
              | inr h ↦ inr (Matched-on inv c mv p old.current_term (old.match_index p) h)
            ])
    ];
    next = λ p. rw (appended inv c m sent handled).next (node.next p);
  }
