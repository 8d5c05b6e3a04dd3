-- ===== src/Raft/Completeness/Moves.antt =====
-- A step of one node, and what was acknowledged, committed and settled before it.
use mathlib.Core.Path.{subst}
use gammaflow.Base.{
  ℕ, suc, ◌≤◌, ◌<◌, ◌≡◌, ◌⊎◌, inl, inr, sym, ap, ◌∙◌, true, some, List, In, arith, length,
}
use gammaflow.Raft.Types.{NodeId, Term, LogIndex, LogEntry, candidate}
use gammaflow.Raft.Log.View.{term_of}
use gammaflow.Raft.Node.{Node}
use gammaflow.Raft.Cluster.{Ack, Vote, Cluster}
use gammaflow.Raft.Cluster.Reigns.{Reign, Rightful}
use gammaflow.Raft.Completeness.Logs.{Has, Prefix, Has-Prefix, Prefix-take, inside}
use gammaflow.Raft.Completeness.{
  World, Accepted, Led, Acked, Alive, Committed, Settled, Pledged, Matched, Complete,
}

-- The reign goes on, and what came to its log is of its term.
pub record Swells (w : World) (u : Term) (old : Reign) : Type 0 where
  pub reign : Reign
  pub of_term : w.reigns u ≡ some reign
  pub leader : reign.leader ≡ old.leader
  pub grown : Prefix old.log reign.log
  pub own : (k : ℕ) → length old.log ≤ k → k < length reign.log → term_of reign.log k ≡ u

-- The reign was there before, or is that of the node.
abbrev pub IsCrowned : World → NodeId → Node → Term → Reign → Type 0
IsCrowned w i n u r =
    (w.reigns u ≡ some r) ⊎ ((r.leader ≡ i) × (n.current_term ≡ u) × (r.log ≡ n.log.entries))

abbrev pub IsAnswered : World → NodeId → Node → Ack → Type 0
IsAnswered w i n a =
    In a w.acks
    ⊎ ((a.request.follower ≡ i)
        × (a.request.args.term ≡ n.current_term)
        × Prefix a.request.log.entries n.log.entries)

-- The node `old` becomes `n`, and the world `w` becomes `w'`.
pub record Move (w : World) (i : NodeId) (old n : Node) (w' : World) : Type 0 where
  pub grows : old.current_term ≤ n.current_term
  pub stood :
      n.state ≡ candidate
      → (old.current_term < n.current_term)
        ⊎ ((old.state ≡ candidate) × (n.current_term ≡ old.current_term) × (n.log ≡ old.log))
  pub swells : (u : Term) (r : Reign) → w.reigns u ≡ some r → Swells w' u r
  pub crowned : (u : Term) (r : Reign) → w'.reigns u ≡ some r → IsCrowned w i n u r
  pub masks : (u : Term) (r : Reign) → w.reigns u ≡ some r → w'.masks u ≡ w.masks u
  pub kept : (a : Ack) → In a w.acks → In a w'.acks
  pub answered : (a : Ack) → In a w'.acks → a.reply.success ≡ true → IsAnswered w i n a

module _ {members : List NodeId} {s : Cluster} {w w' : World} {i : NodeId} {n : Node}
    (inv : Rightful members s w.reigns) (c : Complete members s w)
    (mv : Move w i (s.nodes i) n w') where
  Led-on : (p : NodeId) (u t : Term) (k : ℕ) → Led w p u t k → Led w' p u t k
  Led-on p u t k l =
      let x = mv.swells u l.reign l.of_term in
      record {
        reign = x.reign;
        of_term = x.of_term;
        leader = x.leader ∙ l.leader;
        has = Has-Prefix l.reign.log x.reign.log t k x.grown l.has;
      }

  pub Acked-on : (p : NodeId) (t : Term) (k : ℕ) → Acked w p t k → Acked w' p t k
  Acked-on p t k (inl a) = inl (record {
    ack = a.ack;
    given = mv.kept a.ack a.given;
    success = a.success;
    by = a.by;
    of_term = a.of_term;
    has = a.has;
  })
  Acked-on p t k (inr l) = inr (Led-on p t t k l)

  pub Committed-on : (t : Term) (k : ℕ) → Committed members w t k → Committed members w' t k
  Committed-on t k h = record {
    holders = h.holders;
    acked = λ p q. Acked-on p t k (h.acked p q);
    most = h.most;
  }

  -- What the node has just acknowledged it has.
  abbrev IsNews : NodeId → Term → ℕ → Type 0
  IsNews p t k = (p ≡ i) × (t ≡ n.current_term) × Has n.log.entries t k

  pub Accepted-old :
      (p : NodeId) (t : Term) (k : ℕ) → Accepted w' p t k → Accepted w p t k ⊎ IsNews p t k
  Accepted-old p t k a = elim (mv.answered a.ack a.given a.success) [
    | inl old ↦ inl (record {
      ack = a.ack;
      given = old;
      success = a.success;
      by = a.by;
      of_term = a.of_term;
      has = a.has;
    })
    | inr (self, now, part) ↦ inr (
      sym a.by ∙ self,
      sym a.of_term ∙ now,
      Has-Prefix a.ack.request.log.entries n.log.entries t k part a.has,
    )
  ]

  pub Led-old :
      (p : NodeId) (u t : Term) (k : ℕ)
      → Led w' p u t k
      → Led w p u t k ⊎ ((p ≡ i) × (u ≡ n.current_term) × Has n.log.entries t k)
  Led-old p u t k l = elim (mv.crowned u l.reign l.of_term) [
    | inl old ↦ inl (record { reign = l.reign; of_term = old; leader = l.leader; has = l.has })
    | inr (self, now, own) ↦ inr (sym l.leader ∙ self, sym now, subst (λ es. Has es t k) own l.has)
  ]

  pub Acked-old : (p : NodeId) (t : Term) (k : ℕ) → Acked w' p t k → Acked w p t k ⊎ IsNews p t k
  Acked-old p t k (inl a) = elim (Accepted-old p t k a) [
    | inl old ↦ inl (inl old)
    | inr new ↦ inr new
  ]
  Acked-old p t k (inr l) = elim (Led-old p t t k l) [ inl old ↦ inl (inr old) | inr new ↦ inr new ]

  -- Who voted in a term acknowledges nothing of an older one.
  pub Acked-voter :
      (v : Vote) (t : Term) (k : ℕ)
      → In v s.votes
      → t < v.term
      → Acked w' v.voter t k
      → Acked w v.voter t k
  Acked-voter v t k h older a = elim (Acked-old v.voter t k a) [
    | inl old ↦ old
    | inr (self, now, _) ↦
        let behind = (inv.votes.recorded v h).behind in
        let at : (s.nodes v.voter).current_term ≡ (s.nodes i).current_term =
          ap (λ j. (s.nodes j).current_term) self in
        absurd (omega (arith, behind, at, mv.grows, now, older))
  ]

  pub Alive-old : (t : Term) (k : ℕ) → Alive w' t k → Alive w t k
  Alive-old t k alive u r older of_term =
      let x = mv.swells u r of_term in
      let (q, voted, acked) = alive u x.reign older x.of_term in
      let voted' = ap (λ m. m q) (sym (mv.masks u r of_term)) ∙ voted in
      (q, voted', Acked-voter _ t k ((c.reigns u r of_term).masked q voted') older acked)

  pub Settled-on :
      (es : List LogEntry) (now now' : Term) (x : LogIndex)
      → now ≤ now'
      → Settled members w es now x
      → Settled members w' es now' x
  Settled-on es now now' x le h =
      let y = mv.swells h.term h.reign h.of_term in
      let room = inside h.reign.log h.place (omega (arith, h.has)) in
      record {
        term = h.term;
        place = h.place;
        not_newer = omega (arith, h.not_newer, le);
        covers = h.covers;
        reign = y.reign;
        of_term = y.of_term;
        has = Has-Prefix h.reign.log y.reign.log h.term h.place y.grown h.has;
        committed = Committed-on h.term h.place h.committed;
        same =
            h.same
            ∙ sym (
                Prefix-take (suc x) h.reign.log y.reign.log (omega (arith, h.covers, room))
                  y.grown);
      }

  pub Settled-now :
      (es : List LogEntry) (now now' : Term) (x : LogIndex)
      → now ≤ now'
      → (x ≡ 0) ⊎ Settled members w es now x
      → (x ≡ 0) ⊎ Settled members w' es now' x
  Settled-now es now now' x le (inl start) = inl start
  Settled-now es now now' x le (inr h) = inr (Settled-on es now now' x le h)

  pub Pledged-on :
      (es fs : List LogEntry) (now : Term) (x : LogIndex)
      → Prefix es fs
      → (x ≡ 0) ⊎ Pledged members w es now x
      → (x ≡ 0) ⊎ Pledged members w' fs now x
  Pledged-on es fs now x p (inl start) = inl start
  Pledged-on es fs now x p (inr h) = inr (record {
    term = h.term;
    place = h.place;
    not_newer = h.not_newer;
    covers = h.covers;
    has = Has-Prefix es fs h.term h.place p h.has;
    committed = Committed-on h.term h.place h.committed;
  })

  pub Matched-on : (p : NodeId) (t : Term) (m : LogIndex) → Matched w p t m → Matched w' p t m
  Matched-on p t m h = record {
    ack = h.ack;
    given = mv.kept h.ack h.given;
    success = h.success;
    by = h.by;
    of_term = h.of_term;
    covers = h.covers;
  }
