-- ===== src/Raft/Completeness/Appending.antt =====
-- A message that carries the rest of a log, at a node whose log has the same origin.
use gammaflow.Base.{
  ℕ, suc, ◌+◌, ◌-◌, ◌≤◌, ◌<◌, ◌≡◌, ◌⊎◌, inl, inr, sym, ap, ◌∙◌, true, false, none, some,
  bind-eq-some, arith, tests, ltb, if◌then◌else◌, min, Bool-cases, length, drop, int_max, take_all,
  length-drop, length-take,
}
use gammaflow.Raft.Types.{follower, AppendEntriesArgs, AppendEntriesReply}
use gammaflow.Raft.Log.{RaftLog}
use gammaflow.Raft.Log.View.{IsLog, term_of, term_of-take, term_of-out}
use gammaflow.Raft.Node.{Node, save_entries}
use gammaflow.Raft.Run.Votes.{finish_append-SameVote}
use gammaflow.Raft.Run.Reign.{state-follow_leader}
use gammaflow.Raft.Node.Frame.{SameData}
use gammaflow.Raft.Append.{
  handle_append_entries, finish_append, follow_commit, follow_leader, check_consistency,
}
use gammaflow.Raft.Append.Entries.{merged_known, term_of-drop}
use gammaflow.Raft.Append.Match.{Agree, Built, Built-Fits, append-Agree, has_same, as_log}
use gammaflow.Raft.Append.Outcome.{
  Fits, check_consistency-eq, follow_leader-SameData, outcome, current_term-follow_leader,
}
use gammaflow.Raft.Append.Safety.{success-outcome, accepted_entries, log-success, place_in_log}
use gammaflow.Raft.Append.Commit.{accepted_commit, refused-SameData}
use gammaflow.Raft.Completeness.Logs.{Prefix, Prefix-refl, inside, term_of-same}

-- What the message leaves.
pub record Appended (full : RaftLog) (args : AppendEntriesArgs) (n n' : Node)
    (r : AppendEntriesReply) : Type 0 where
  pub log : (n'.log ≡ n.log) ⊎ (n'.log ≡ full)
  pub known : Prefix full.entries n.log.entries → n'.log ≡ n.log
  pub covers : r.success ≡ true → Prefix full.entries n'.log.entries
  pub commit :
      r.success ≡ true
      → n'.commit_index ≡ (
          if ltb n.commit_index args.leader_commit
          then min (length n'.log.entries - 1) args.leader_commit
          else n.commit_index)
  pub refused : r.success ≡ false → SameData n n'
  pub next : n'.next_index ≡ n.next_index

next-outcome :
    (args : AppendEntriesArgs) (n : Node) → (outcome args n none).next_index ≡ n.next_index
unfolding follow_commit save_entries
next-outcome args n = ground (arith, (follow_leader-SameData args n).next_index)

module _ (args : AppendEntriesArgs) (n : Node) {n' : Node} {r : AppendEntriesReply}
    (handled : handle_append_entries args n ≡ some (n', r)) (own : IsLog n.log) where
  -- An accepted message is followed.
  pub accepted_turn :
      r.success ≡ true
      → (n'.current_term ≡ args.term) × (n.current_term ≤ args.term) × (n'.state ≡ follower)
  unfolding handle_append_entries
  accepted_turn accepted = elim (Bool-cases (ltb args.term n.current_term)) [
    | inl stale ↦ absurd (ground (arith, handled, stale, accepted))
    | inr fresh ↦
        let n₁ = follow_leader args n in
        let (c, _, k) = bind-eq-some (check_consistency args n₁.log) _ (rw fresh at handled) in
        let same = finish_append-SameVote args n₁ _ c k in
        (
          same.current_term ∙ current_term-follow_leader args n (omega tests),
          omega tests,
          same.state ∙ state-follow_leader args n,
        )
  ]

  beyond_refused :
      args.prev_log_index < int_max
      → length n.log.entries ≤ args.prev_log_index
      → SameData n n' × (r.success ≡ false)
  unfolding handle_append_entries finish_append
  beyond_refused small past = ground (
    arith,
    handled,
    own.has_sentinel,
    check_consistency-eq args n.log own small,
    follow_leader-SameData args n,
  )

  module _ (full : RaftLog) (b : Built args full) (whole : IsLog full)
      (rest : args.entries ≡ drop (suc args.prev_log_index) full.entries)
      (first : term_of n.log.entries 0 ≡ term_of full.entries 0)
      (agree : Agree n.log.entries full.entries)
      (old_terms : (k : ℕ) → 0 < k → k < length n.log.entries → 0 < term_of n.log.entries k)
      (terms : (k : ℕ) → 0 < k → k < length full.entries → 0 < term_of full.entries k) where
    -- The previous entry of an accepted message is in the sender's log.
    has_previous :
        Fits args n
        → r.success ≡ true
        → (args.prev_log_index < length full.entries)
          × (term_of n.log.entries args.prev_log_index ≡ term_of full.entries args.prev_log_index)
    has_previous fits accepted =
        let prev = args.prev_log_index in
        let (_, has) = success-outcome args n fits handled accepted in
        let at = has_same args n.log full b first has in
        let room = place_in_log args n fits handled accepted in
        elim (Bool-cases (ltb prev (length full.entries))) [
          | inl has_prev ↦ (omega tests, at)
          | inr past ↦ absurd (
              omega (
                tests,
                at,
                term_of-out full.entries prev,
                old_terms prev (omega (tests, whole.has_sentinel)) room,
              ))
        ]

    last_term :
        Fits args n
        → r.success ≡ true
        → term_of n'.log.entries (length full.entries - 1)
          ≡ term_of full.entries (length full.entries - 1)
    last_term fits accepted =
        let prev = args.prev_log_index in
        let k = length full.entries - 1 in
        let (has_prev, at) = has_previous fits accepted in
        let (kept, placed) = accepted_entries args n fits handled accepted in
        elim (Bool-cases (ltb prev k)) [
          | inl behind ↦
              let j = k - suc prev in
              let place : suc prev + j ≡ k = omega tests in
              rw (← place) (
                placed j (omega (tests, ap length rest, length-drop (suc prev) full.entries))
                ∙ ap (λ es. term_of es j) rest
                ∙ term_of-drop (suc prev) j full.entries)
          | inr there ↦
              let place : prev ≡ k = omega (tests, has_prev) in
              rw (← place)
                (term_of-same (suc prev) prev n'.log.entries n.log.entries (omega arith) kept ∙ at)
        ]

    covered :
        Fits args n
        → r.success ≡ true
        → (n'.log ≡ n.log) ⊎ (n'.log ≡ full)
        → Prefix full.entries n'.log.entries
    covered fits accepted (inr taken) = rw taken (Prefix-refl full.entries)
    covered fits accepted (inl kept) =
        let k = length full.entries - 1 in
        let size : suc k ≡ length full.entries = omega (arith, whole.has_sentinel) in
        let at = ap (λ l. term_of l.entries k) (sym kept) ∙ last_term fits accepted in
        let room : k < length n.log.entries = elim (Bool-cases (ltb 0 k)) [
          | inl later ↦
              inside n.log.entries k
                (omega (arith, at, terms k (omega tests) (omega (arith, size))))
          | inr start ↦ omega (tests, own.has_sentinel)
        ] in
        let same = agree k room (omega (arith, size)) at in
        rw (kept, ← size) (same ∙ take_all (suc k) full.entries (omega (arith, size)))

    known_kept : Fits args n → r.success ≡ true → Prefix full.entries n.log.entries → n'.log ≡ n.log
    known_kept fits accepted p =
        let k = suc args.prev_log_index in
        let room = place_in_log args n fits handled accepted in
        let size = length-drop k full.entries in
        let long = ap length p in
        let all = length-take (length full.entries) n.log.entries in
        let (has_prev, _) = has_previous fits accepted in
        let same =
          log-success args n fits handled accepted
          ∙ merged_known args.entries k n.log.entries
              (omega (arith, ap length rest, size, long, all, has_prev, room))
              (λ j h.
                term_of-drop k j n.log.entries
                ∙ sym (
                    term_of-take (length full.entries) (k + j) n.log.entries
                      (omega (arith, h, ap length rest, size)))
                ∙ ap (λ es. term_of es (k + j)) p
                ∙ sym (term_of-drop k j full.entries)
                ∙ ap (λ es. term_of es j) (sym rest)) in
        ap as_log same

    pub append-Appended : Appended full args n n' r
    append-Appended =
        let log = append-Agree args n handled own full b whole first agree in
        elim (Bool-cases (ltb args.prev_log_index (length n.log.entries))) [
          | inr past ↦
              let (same, no_success) = beyond_refused b.previous (omega tests) in
              record {
                log = log;
                known = λ _. same.log;
                covers = λ e. absurd (ground (arith, e, no_success));
                commit = λ e. absurd (ground (arith, e, no_success));
                refused = λ _. same;
                next = same.next_index;
              }
          | inl has ↦
              let fits = Built-Fits args n full b whole own (omega tests) in
              record {
                log = log;
                known = λ p. elim (Bool-cases r.success) [
                  | inl accepted ↦ known_kept fits accepted p
                  | inr turned ↦ (refused-SameData args n fits handled turned).log
                ];
                covers = λ accepted. covered fits accepted log;
                commit = accepted_commit args n fits handled;
                refused = refused-SameData args n fits handled;
                next = elim (Bool-cases r.success) [
                  | inl accepted ↦
                      ap (λ k. k.next_index) (success-outcome args n fits handled accepted).0
                      ∙ next-outcome args n
                  | inr turned ↦ (refused-SameData args n fits handled turned).next_index
                ];
              }
        ]
