-- ===== src/Raft/Replication/Built.antt =====
-- The messages that a leader builds, against its log.
use gammaflow.Base.{
  suc, ◌≤◌, ◌<◌, ◌≡◌, ◌⊎◌, inl, inr, some, List, [], arith, tests, ltb, Bool-cases, length, drop,
  int_max, sub64, bind-eq-some,
}
use gammaflow.Raft.Types.{NodeId, Term, LogIndex, LogEntry, leader, AppendEntriesArgs}
use gammaflow.Raft.Log.{RaftLog, entries, entries_from, term_at}
use gammaflow.Raft.Log.View.{
  IsLog, term_of, term_at-eq, term_at_panics, last_index-eq, entries_from-eq,
}
use gammaflow.Raft.Node.{Node, is_leader_state}
use gammaflow.Raft.Replication.{Round, heartbeat_args, heartbeat_round, replicate_tick, send}
use gammaflow.Raft.Append.Match.{Built}

pub entries_from-past :
    (l : RaftLog) (s : LogIndex) → IsLog l → length l.entries ≤ s → entries_from l s ≡ some []
unfolding entries_from entries
entries_from-past l s w h = ground (arith, last_index-eq l w)

-- `entries_from` at the place after `prev`, where the term of `prev` could be read.
rest_of :
    (l : RaftLog) (next : LogIndex) {t : Term} {es : List LogEntry}
    → IsLog l
    → term_at l (sub64 next 1) ≡ some t
    → entries_from l next ≡ some es
    → (sub64 next 1 < int_max)
      × (t ≡ term_of l.entries (sub64 next 1))
      × ((es ≡ drop (suc (sub64 next 1)) l.entries) ⊎ (es ≡ []))
rest_of l next {t} {es} w read got =
    let small : sub64 next 1 < int_max = elim (Bool-cases (ltb (sub64 next 1) int_max)) [
      | inl s ↦ omega tests
      | inr big ↦ absurd (ground (arith, read, term_at_panics l (sub64 next 1) w (omega tests)))
    ] in
    (
      small,
      ground (arith, read, term_at-eq l (sub64 next 1) small),
      elim (Bool-cases (ltb next (length l.entries))) [
        | inr past ↦ inr (ground (arith, got, entries_from-past l next w (omega tests)))
        | inl inside ↦
            let place : suc (sub64 next 1) ≡ next = omega (tests, small, w.fits) in
            inl (rw place (ground (arith, got, entries_from-eq l next w (omega (tests, w.fits)))))
      ],
    )

pub heartbeat_args-Built :
    (r : Round) (p : NodeId) (n : Node) {args : AppendEntriesArgs}
    → IsLog n.log
    → heartbeat_args r p n ≡ some args
    → Built args n.log × (args.term ≡ r.term)
unfolding heartbeat_args
heartbeat_args-Built r p n {args} w h =
    let next = n.next_index p in
    let (t, read, h') = bind-eq-some (term_at n.log (sub64 next 1)) _ h in
    let (es, got, h'') = bind-eq-some (entries_from n.log next) _ h' in
    let (small, term, rest) = rest_of n.log next w read got in
    ground (arith, h'', small, term, rest)

pub replicate_tick-Built :
    (p : NodeId) (n : Node) {args : AppendEntriesArgs}
    → IsLog n.log
    → replicate_tick p n ≡ some (send args)
    → Built args n.log × (args.term ≡ n.current_term) × (n.state ≡ leader)
unfolding replicate_tick
replicate_tick-Built p n {args} w h = elim (Bool-cases (is_leader_state n.state)) [
  | inr other ↦ absurd (ground (arith, h, other))
  | inl leads ↦
      let next = n.next_index p in
      let (t, read, h') = bind-eq-some (term_at n.log (sub64 next 1)) _ (rw leads at h) in
      let (es, got, h'') = bind-eq-some (entries_from n.log next) _ h' in
      let (small, term, rest) = rest_of n.log next w read got in
      ground (arith, h'', small, term, rest, leads)
]

pub heartbeat_round-fields :
    (n : Node) {r : Round}
    → heartbeat_round n ≡ some r
    → (n.state ≡ leader) × (r.term ≡ n.current_term) × (r.peers ≡ n.peers)
unfolding heartbeat_round
heartbeat_round-fields n h = ground (arith, h)
