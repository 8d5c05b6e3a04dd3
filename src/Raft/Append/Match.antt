-- ===== src/Raft/Append/Match.antt =====
-- AppendEntries between two logs that agree wherever they have an entry of the same term.
use gammaflow.Base.{
  ℕ, zero, suc, ◌≤◌, ◌<◌, ◌≡◌, refl, ap, ◌∙◌, ◌⊎◌, inl, inr, some, List, [], ◌∷◌, arith, tests, ltb,
  ◌==◌, Bool-cases, length, int_max, take, drop, drop_all, length-drop,
}
use gammaflow.Raft.Types.{LogEntry, AppendEntriesArgs, AppendEntriesReply}
use gammaflow.Raft.Log.{RaftLog}
use gammaflow.Raft.Log.View.{IsLog, term_of}
use gammaflow.Raft.Node.{Node}
use gammaflow.Raft.Append.{handle_append_entries, finish_append}
use gammaflow.Raft.Append.Merge.{merge}
use gammaflow.Raft.Append.Entries.{merged, merged_known}
use gammaflow.Raft.Append.Outcome.{Fits, check_consistency-eq, follow_leader-SameData}
use gammaflow.Raft.Append.Safety.{HasPrevious, success-outcome, log-success}
use gammaflow.Raft.Append.Commit.{refused-SameData}

abbrev pub Agree : List LogEntry → List LogEntry → Type 0
Agree old new =
    (j : ℕ)
    → j < length old
    → j < length new
    → term_of old j ≡ term_of new j
    → take (suc j) old ≡ take (suc j) new

same_head : {x y : LogEntry} {xs ys : List LogEntry} → x ∷ xs ≡ y ∷ ys → x ≡ y
same_head h = ground (arith, h)

Agree-tail : (x y : LogEntry) (old new : List LogEntry) → Agree (x ∷ old) (y ∷ new) → Agree old new
Agree-tail x y old new a j h k e = ap (drop 1) (a (suc j) (omega arith) (omega arith) e)

merge-Agree :
    (old new : List LogEntry) → Agree old new → (merge old new ≡ old) ⊎ (merge old new ≡ new)
merge-Agree [] new a = inr refl
merge-Agree (o ∷ old) [] a = inl refl
merge-Agree (o ∷ old) (e ∷ new) a = elim (Bool-cases (o.term == e.term)) [
  | inl same ↦
      let head : o ≡ e = same_head (a 0 (omega arith) (omega arith) (omega tests)) in
      rw same (elim (merge-Agree old new (Agree-tail o e old new a)) [
        | inl kept ↦ inl (ap (λ l. o ∷ l) kept)
        | inr taken ↦ inr (λ i. head i ∷ taken i)
      ])
  | inr differ ↦ inr (rw differ refl)
]

merged-Agree :
    (k : ℕ) (log full : List LogEntry)
    → k ≤ length log
    → take k log ≡ take k full
    → Agree log full
    → (merged k (drop k full) log ≡ log) ⊎ (merged k (drop k full) log ≡ full)
merged-Agree zero log full h same a = merge-Agree log full a
merged-Agree (suc k) [] full h same a = absurd (omega arith)
merged-Agree (suc k) (x ∷ log) [] h same a = absurd (ground (arith, same))
merged-Agree (suc k) (x ∷ log) (y ∷ full) h same a =
    let head = same_head same in
    elim (merged-Agree k log full (omega arith) (ap (drop 1) same) (Agree-tail x y log full a)) [
      | inl kept ↦ inl (ap (λ l. x ∷ l) kept)
      | inr taken ↦ inr (λ i. head i ∷ taken i)
    ]

-- The message was built from the log of its sender: it carries the rest of it, or nothing.
pub record Built (args : AppendEntriesArgs) (log : RaftLog) : Type 0 where
  pub previous : args.prev_log_index < int_max
  pub previous_term : args.prev_log_term ≡ term_of log.entries args.prev_log_index
  pub rest : (args.entries ≡ drop (suc args.prev_log_index) log.entries) ⊎ (args.entries ≡ [])

pub Built-Fits :
    (args : AppendEntriesArgs) (n : Node) (full : RaftLog)
    → Built args full
    → IsLog full
    → IsLog n.log
    → args.prev_log_index < length n.log.entries
    → Fits args n
Built-Fits args n full b w v inside = record {
  log = v;
  message = elim b.rest [
    | inl rest ↦
        omega (
          arith,
          ap length rest,
          length-drop (suc args.prev_log_index) full.entries,
          w.fits,
          v.fits,
        )
    | inr empty ↦ omega (arith, ap length empty, v.fits)
  ];
}

abbrev pub as_log : List LogEntry → RaftLog
as_log es = record { entries = es }

merged-nothing : (k : ℕ) (es log : List LogEntry) → k ≤ length log → es ≡ [] → merged k es log ≡ log
merged-nothing k es log h empty =
    rw empty (merged_known [] k log (omega arith) (λ j none. absurd (omega (arith, none))))

merged-Built :
    (args : AppendEntriesArgs) (log full : RaftLog)
    → Built args full
    → args.prev_log_index < length log.entries
    → term_of log.entries args.prev_log_index ≡ term_of full.entries args.prev_log_index
    → Agree log.entries full.entries
    → let m = merged (suc args.prev_log_index) args.entries log.entries in
      (m ≡ log.entries) ⊎ (m ≡ full.entries)
merged-Built args log full b inside at a =
    let k = suc args.prev_log_index in
    elim b.rest [
      | inr empty ↦ inl (merged-nothing k args.entries log.entries (omega arith) empty)
      | inl rest ↦ elim (Bool-cases (ltb args.prev_log_index (length full.entries))) [
        | inl has ↦ rw rest (
            merged-Agree k log.entries full.entries (omega arith)
              (a args.prev_log_index inside (omega tests) at) a)
        | inr short ↦ inl (
            merged-nothing k args.entries log.entries (omega arith)
              (rest ∙ drop_all k full.entries (omega tests)))
      ]
    ]

pub has_same :
    (args : AppendEntriesArgs) (log full : RaftLog)
    → Built args full
    → term_of log.entries 0 ≡ term_of full.entries 0
    → HasPrevious args log
    → term_of log.entries args.prev_log_index ≡ term_of full.entries args.prev_log_index
has_same args log full b first (inl sentinel) = rw sentinel first
has_same args log full b first (inr (inside, same)) = same ∙ b.previous_term

module _ (args : AppendEntriesArgs) (n : Node) {n' : Node} {r : AppendEntriesReply}
    (handled : handle_append_entries args n ≡ some (n', r)) (own : IsLog n.log) where
  -- A message beyond the end of the log is refused.
  beyond :
      args.prev_log_index < int_max → length n.log.entries ≤ args.prev_log_index → n'.log ≡ n.log
  unfolding handle_append_entries finish_append
  beyond small past = ground (
    arith,
    handled,
    own.has_sentinel,
    check_consistency-eq args n.log own small,
    (follow_leader-SameData args n).log,
  )

  -- The log afterwards is the old one or the sender's.
  pub append-Agree :
      (full : RaftLog)
      → Built args full
      → IsLog full
      → term_of n.log.entries 0 ≡ term_of full.entries 0
      → Agree n.log.entries full.entries
      → (n'.log ≡ n.log) ⊎ (n'.log ≡ full)
  append-Agree full b w first a =
      elim (Bool-cases (ltb args.prev_log_index (length n.log.entries))) [
        | inr past ↦ inl (beyond b.previous (omega tests))
        | inl inside ↦
            let fits = Built-Fits args n full b w own (omega tests) in
            elim (Bool-cases r.success) [
              | inr refused ↦ inl (refused-SameData args n fits handled refused).log
              | inl accepted ↦
                  let (_, has) = success-outcome args n fits handled accepted in
                  let same = log-success args n fits handled accepted in
                  elim (merged-Built args n.log full b (omega tests)
                    (has_same args n.log full b first has) a) [
                      | inl kept ↦ inl (ap as_log (same ∙ kept))
                      | inr taken ↦ inr (ap as_log (same ∙ taken))
                    ]
            ]
      ]
