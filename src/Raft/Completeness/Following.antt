-- ===== src/Raft/Completeness/Following.antt =====
-- A node that handles a message of a leader.
use mathlib.Core.Path.{subst}
use gammaflow.Base.{
  ℕ, suc, ◌≤◌, ◌<◌, ◌≡◌, ◌⊎◌, inl, inr, refl, sym, ap, ◌∙◌, true, some, List, ◌∷◌, In, arith, tests,
  ltb, Bool-cases, length, take,
}
use gammaflow.Raft.Types.{NodeId, Term, AppendEntriesReply}
use gammaflow.Raft.Log.{RaftLog}
use gammaflow.Raft.Log.View.{term_of}
use gammaflow.Raft.Node.{Node}
use gammaflow.Raft.Append.{handle_append_entries}
use gammaflow.Raft.Run.Reign.{handle_append_entries-turn}
use gammaflow.Raft.Cluster.{Append, Ack, Cluster}
use gammaflow.Raft.Cluster.Reigns.{Reign, Rightful, Genuine, Genuine-Agree}
use gammaflow.Raft.Cluster.Matching.{first_term}
use gammaflow.Raft.Cluster.Crowns.{two_reigns}
use gammaflow.Raft.Completeness.Logs.{
  Has, Prefix, Prefix-take, Prefix-refl, Has-same, inside, take-shorter, Genuine-Has,
}
use gammaflow.Raft.Completeness.{World, Alive, Complete, world}
use gammaflow.Raft.Completeness.Moves.{Move, Swells}
use gammaflow.Raft.Completeness.Appending.{Appended, append-Appended, accepted_turn}

pub Swells-refl : (w : World) (u : Term) (r : Reign) → w.reigns u ≡ some r → Swells w u r
Swells-refl w u r h = record {
  reign = r;
  of_term = h;
  leader = refl;
  grown = Prefix-refl r.log;
  own = λ k past room. absurd (omega (arith, past, room));
}

module _ {members : List NodeId} {s : Cluster} {w : World} (inv : Rightful members s w.reigns)
    (c : Complete members s w) where
  -- Only the sentinel has term 0.
  pub real_terms :
      (l : RaftLog)
      → Genuine w.reigns l
      → (k : ℕ) → 0 < k
      → k < length l.entries
      → 0 < term_of l.entries k
  real_terms l g k later room =
      let h = g.inherited k later room in
      (c.reigns (term_of l.entries k) h.reign h.of_term).positive

  module _ (m : Append) (sent : In m s.appends) where
    -- A message has what may still be committed of its term or before, unless it is of that term
    -- and was sent too early.
    message_has :
        (t : Term) (k : ℕ) (rt : Reign)
        → t ≤ m.args.term
        → w.reigns t ≡ some rt
        → Has rt.log t k
        → Alive w t k
        → Has m.log.entries t k ⊎ (Prefix m.log.entries rt.log × (length m.log.entries ≤ k))
    message_has t k rt le of_term has alive =
        let h = c.messages m sent in
        let theirs : Has h.reign.log t k = elim (Bool-cases (ltb t m.args.term)) [
          | inl older ↦ (c.reigns m.args.term h.reign h.of_term).has t k (omega tests) alive
          | inr same ↦
              let one : t ≡ m.args.term = omega tests in
              subst (λ r. Has r.log t k) (two_reigns of_term (ap w.reigns one ∙ h.of_term)) has
        ] in
        elim h.source [
          | inr late ↦ inl (late.has t k le alive theirs)
          | inl r ↦ elim (Bool-cases (ltb k (length m.log.entries))) [
            | inl has_place ↦ inl (
                Has-same (suc k) h.reign.log m.log.entries t k (omega arith)
                  (Prefix-take (suc k) m.log.entries h.reign.log (omega tests) r.part) theirs)
            | inr early ↦ elim (Bool-cases (ltb t m.args.term)) [
              | inl older ↦
                  let room =
                    r.whole k (inside h.reign.log k (omega (arith, theirs)))
                      (λ e. omega (tests, theirs, e)) in
                  absurd (omega (tests, room))
              | inr same ↦
                  let one : t ≡ m.args.term = omega tests in
                  let r' = two_reigns (ap w.reigns one ∙ h.of_term) of_term in
                  inr (subst (λ r. Prefix m.log.entries r.log) r' r.part, omega tests)
            ]
          ]
        ]

    module _ {n : Node} {r : AppendEntriesReply}
        (handled : handle_append_entries m.args (s.nodes m.follower) ≡ some (n, r)) where
      abbrev pub old : Node
      old = s.nodes m.follower

      abbrev pub ack_of : Ack
      ack_of = record { request = m; reply = r }

      abbrev pub acked_world : World
      acked_world = world w.reigns w.masks (ack_of ∷ w.acks)

      pub appended : Appended m.log m.args old n r
      appended =
          let g = inv.appends m sent in
          let mine = inv.logs m.follower in
          append-Appended m.args old handled mine.fits m.log g.built g.genuine.fits
            (c.messages m sent).rest (first_term old.log mine ∙ sym (first_term m.log g.genuine))
            (Genuine-Agree old.log m.log mine g.genuine) (real_terms old.log mine)
            (real_terms m.log g.genuine)

      pub append-Move : Move w m.follower old n acked_world
      append-Move =
          let turn = handle_append_entries-turn m.args old handled in
          record {
            grows = elim turn [
              | inl same ↦ omega (arith, ap (λ k. k.current_term) same)
              | inr (_, now, le) ↦ omega (arith, now, le)
            ];
            stood = λ stands. elim turn [
              | inl same ↦ inr (
                ap (λ k. k.state) (sym same) ∙ stands,
                ap (λ k. k.current_term) same,
                ap (λ k. k.log) same,
              )
              | inr (follows, _, _) ↦ absurd (ground (arith, follows, stands))
            ];
            swells = λ u q h. Swells-refl acked_world u q h;
            crowned = λ u q h. inl h;
            masks = λ u q h. refl;
            kept = λ a h. inr h;
            answered = λ a h success. elim h [
              | inr before ↦ inl before
              | inl e ↦
                  let accepted : r.success ≡ true = subst (λ b. b.reply.success ≡ true) e success in
                  let (now, _, _) =
                    accepted_turn m.args old handled (inv.logs m.follower).fits accepted in
                  inr (
                    subst
                      (λ b.
                        (b.request.follower ≡ m.follower)
                        × (b.request.args.term ≡ n.current_term)
                        × Prefix b.request.log.entries n.log.entries)
                      (sym e) (refl, sym now, appended.covers accepted))
            ];
          }

      -- What the log shares with a leader whose entry may be committed stays.
      pub kept_place :
          (t : Term) (k x : ℕ) (rt : Reign)
          → t ≤ m.args.term
          → w.reigns t ≡ some rt
          → Has rt.log t k
          → Alive w t k
          → x ≤ k
          → take (suc x) old.log.entries ≡ take (suc x) rt.log
          → take (suc x) n.log.entries ≡ take (suc x) rt.log
      kept_place t k x rt le of_term has alive within same = elim appended.log [
        | inl kept ↦ rw kept same
        | inr taken ↦ elim (message_has t k rt le of_term has alive) [
          | inl theirs ↦
              let o = Genuine-Has m.log t k (inv.appends m sent).genuine theirs in
              rw taken (
                take-shorter (suc x) (suc k) m.log.entries o.reign.log (omega arith) o.same
                ∙ ap (λ q. take (suc x) q.log) (two_reigns o.of_term of_term))
          | inr (part, early) ↦ elim (Bool-cases (ltb x (length m.log.entries))) [
            | inl room ↦
                rw taken (sym (Prefix-take (suc x) m.log.entries rt.log (omega tests) part))
            | inr past ↦
                let size = length m.log.entries in
                let known =
                  appended.known
                    (take-shorter size (suc x) old.log.entries rt.log (omega tests) same ∙ part) in
                rw known same
          ]
        ]
      ]

      pub not_newer : (t : Term) → t ≤ old.current_term → (n ≡ old) ⊎ (t ≤ m.args.term)
      not_newer t le = elim (handle_append_entries-turn m.args old handled) [
        | inl same ↦ inl same
        | inr (_, _, le') ↦ inr (omega (arith, le, le'))
      ]

      pub kept_has :
          (t : Term) (k : ℕ)
          → t ≤ old.current_term
          → Alive w t k
          → Has old.log.entries t k
          → Has n.log.entries t k
      kept_has t k le alive has = elim (not_newer t le) [
        | inl same ↦ rw same has
        | inr le' ↦
            let o = Genuine-Has old.log t k (inv.logs m.follower) has in
            let same = kept_place t k k o.reign le' o.of_term o.has alive (omega arith) o.same in
            Has-same (suc k) o.reign.log n.log.entries t k (omega arith) (sym same) o.has
      ]
