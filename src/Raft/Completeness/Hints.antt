-- ===== src/Raft/Completeness/Hints.antt =====
-- The conflict hint of a reply is an index.
use gammaflow.Base.{
  ℕ, suc, ◌+◌, ◌≤◌, ◌<◌, ◌≡◌, inl, inr, refl, none, some, Option, List, [], ◌∷◌, arith, ltb, ap,
  ◌∙◌, Bool-cases, bind-eq-some, length, drop, length-drop, u64_mod,
}
use gammaflow.Raft.Types.{Term, LogIndex, LogEntry, AppendEntriesArgs, AppendEntriesReply}
use gammaflow.Raft.Log.{RaftLog, contains, find_term, find_first_index_of_term, term_at}
use gammaflow.Raft.Log.View.{IsLog}
use gammaflow.Raft.Node.{Node}
use gammaflow.Raft.Append.{
  check_consistency, handle_append_entries, finish_append, store_entries, follow_leader,
}
use gammaflow.Raft.Append.Outcome.{follow_leader-SameData}

find_term-le : (t : Term) (i : ℕ) (es : List LogEntry) → find_term t i es ≤ i + length es
unfolding find_term
find_term-le t i [] = omega arith
find_term-le t i (x ∷ es) = ground (arith, find_term-le t (suc i) es)

find_first-below : (l : RaftLog) (t : Term) → IsLog l → find_first_index_of_term l t < u64_mod
unfolding find_first_index_of_term
find_first-below l t w =
    omega
      (arith, find_term-le t 1 (drop 1 l.entries), length-drop 1 l.entries, w.has_sentinel, w.fits)

check_consistency-below :
    (args : AppendEntriesArgs) (l : RaftLog) {t : Term} {i : LogIndex}
    → IsLog l
    → check_consistency args l ≡ some (some (t, i))
    → i < u64_mod
unfolding check_consistency
check_consistency-below args l w h = elim (Bool-cases (ltb 0 args.prev_log_index)) [
  | inr start ↦ absurd (ground (arith, rw start at h))
  | inl later ↦ elim (Bool-cases (contains l args.prev_log_index)) [
    | inr past ↦ ground (arith, rw (later, past) at h)
    | inl inside ↦
        let (u, _, k) = bind-eq-some (term_at l args.prev_log_index) _ (rw (later, inside) at h) in
        ground (arith, k, find_first-below l u w)
  ]
]

finish_append-below :
    (args : AppendEntriesArgs) (n : Node) (reply : AppendEntriesReply)
    (c : Option (Term × LogIndex)) {n' : Node} {r : AppendEntriesReply}
    → reply.conflict_index < u64_mod
    → ((t : Term) (i : LogIndex) → c ≡ some (t, i) → i < u64_mod)
    → finish_append args n reply c ≡ some (n', r)
    → r.conflict_index < u64_mod
unfolding finish_append
finish_append-below args n reply (some (t, i)) own below h = ground (arith, h, below t i refl)
finish_append-below args n reply none own below h =
    let (m, _, k) = bind-eq-some (store_entries args.prev_log_index 0 args.entries n) _ h in
    ground (arith, k, own)

pub conflict_index-below :
    (args : AppendEntriesArgs) (n : Node) {n' : Node} {r : AppendEntriesReply}
    → IsLog n.log
    → handle_append_entries args n ≡ some (n', r)
    → r.conflict_index < u64_mod
unfolding handle_append_entries
conflict_index-below args n w h = elim (Bool-cases (ltb args.term n.current_term)) [
  | inl stale ↦ ground (arith, h, stale)
  | inr fresh ↦
      let n₁ = follow_leader args n in
      let (c, checked, k) = bind-eq-some (check_consistency args n₁.log) _ (rw fresh at h) in
      let log = (follow_leader-SameData args n).log in
      finish_append-below args n₁ _ c (omega arith)
        (λ t i e. check_consistency-below args n₁.log (rw log w) (checked ∙ ap some e)) k
]
