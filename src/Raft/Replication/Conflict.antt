-- ===== src/Raft/Replication/Conflict.antt =====
-- The back-up after a conflict: what `handleConflictLocked` does to the next index of a peer.
use gammaflow.Base.{
  update, if◌then◌else◌, lt→ltb, zero, suc, ◌-◌, ◌≤◌, ◌<◌, ◌≡◌, ◌≢◌, ◌⊎◌, inl, inr, refl, some,
  arith, tests, length, update_self, update_ne, Bool-cases, ltb, ◌==◌, add64, int_max,
}
use gammaflow.Raft.Types.{NodeId, Term, LogIndex, AppendEntriesReply}
use gammaflow.Raft.Log.{RaftLog, last_index}
use gammaflow.Raft.Log.View.{IsLog, term_of, term_at-eq, last_index-eq}
use gammaflow.Raft.Node.{Node}
use gammaflow.Raft.Replication.{last_index_of_term, handle_conflict}

-- The search finds nothing, or a place of the term, which lies below a bound that all such places have.
last_index_of_term-lt :
    (l : RaftLog) (t : Term) (b i : LogIndex)
    → IsLog l
    → i < length l.entries
    → ((j : LogIndex) → b ≤ j → j < length l.entries → term_of l.entries j ≢ t)
    → (r : LogIndex) × (last_index_of_term l t i ≡ some r) × (r ≤ i) × ((r ≡ 0) ⊎ (r < b))
unfolding last_index_of_term
last_index_of_term-lt l t b zero w h bound = (0, refl, omega arith, inl refl)
last_index_of_term-lt l t b (suc i) w h bound = elim (Bool-cases (term_of l.entries (suc i) == t)) [
  | inl found ↦
      let no = bound (suc i) in
      (
        suc i,
        rw (term_at-eq l (suc i) (omega (arith, w.fits)), found) refl,
        omega arith,
        inr (ground (arith, found, h, no)),
      )
  | inr other ↦
      let (r, e, le, below) = last_index_of_term-lt l t b i w (omega arith) bound in
      (r, rw (term_at-eq l (suc i) (omega (arith, w.fits)), other) e, omega arith, below)
]

-- The next index of a peer goes down, but not to 0, and that of no other peer changes.
pub record BacksUp (peer : NodeId) (n n' : Node) : Type 0 where
  pub above_zero : 0 < n'.next_index peer
  pub lower : n'.next_index peer < n.next_index peer
  pub others : (q : NodeId) → q ≢ peer → n'.next_index q ≡ n.next_index q

moved :
    (peer : NodeId) (n : Node) (i : LogIndex)
    → 0 < i
    → i < n.next_index peer
    → BacksUp peer n (record n { next_index = update n.next_index peer i })
moved peer n i h k = record {
  above_zero = rw (update_self n.next_index peer i) h;
  lower = rw (update_self n.next_index peer i) k;
  others = λ q. update_ne n.next_index peer q i;
}

-- A refusal whose hint is positive and below the next index moves the next index of the peer down,
-- but not to 0, and that of no other peer. (The log is within the range of an `int`, and, where
-- the hint has a term, the leader has no entry of it from the previous index on.)
pub handle_conflict-BacksUp :
    (peer : NodeId) (reply : AppendEntriesReply) (n : Node)
    → IsLog n.log
    → 0 < reply.conflict_index
    → reply.conflict_index < n.next_index peer
    → (0 < reply.conflict_term
        → (j : LogIndex) → n.next_index peer - 1 ≤ j
        → j < length n.log.entries
        → term_of n.log.entries j ≢ reply.conflict_term)
    → (n' : Node) × (handle_conflict peer reply n ≡ some n') × BacksUp peer n n'
unfolding handle_conflict
handle_conflict-BacksUp peer reply n w some_hint hint bound =
    elim (Bool-cases (ltb 0 reply.conflict_term)) [
      | inl term ↦
          let (r, e, le, below) =
            last_index_of_term-lt n.log reply.conflict_term (n.next_index peer - 1)
              (last_index n.log) w (omega (arith, last_index-eq n.log w, w.has_sentinel))
              (bound (omega tests)) in
          let size : r < int_max = omega (arith, last_index-eq n.log w, le, w.fits) in
          let i = if ltb 0 r then add64 r 1 else reply.conflict_index in
          (
            record n { next_index = update n.next_index peer i },
            rw (term, e) refl,
            moved peer n i (ground (arith, size, some_hint)) (ground (arith, size, below, hint)),
          )
      | inr no_term ↦ (
        record n { next_index = update n.next_index peer reply.conflict_index },
        rw (no_term, lt→ltb 0 reply.conflict_index some_hint) refl,
        moved peer n reply.conflict_index some_hint hint,
      )
    ]
