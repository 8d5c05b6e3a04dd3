-- ===== src/Raft/Append/Commit.antt =====
-- The follower's commit index, and what was committed before a message.
use gammaflow.Base.{
  ℕ, suc, ◌+◌, ◌-◌, ◌≤◌, ◌<◌, ◌≡◌, ap, none, some, List, arith, true, false, ltb, if◌then◌else◌,
  length, take, min, Bool-cases, inl, inr, length-take,
}
use gammaflow.Raft.Types.{AppendEntriesArgs, AppendEntriesReply}
use gammaflow.Raft.Log.{last_index}
use gammaflow.Raft.Log.View.{term_of, last_index-eq}
use gammaflow.Raft.Node.{Node, save_entries}
use gammaflow.Raft.Node.Frame.{SameData}
use gammaflow.Raft.Append.{follow_commit, handle_append_entries}
use gammaflow.Raft.Append.Outcome.{
  Fits, outcome, follow_leader-SameData, handle_append_entries-eq, handle_append_entries_stale,
}
use gammaflow.Raft.Append.Safety.{success-outcome, accepted-IsLog, agreed_entries_kept}

-- Up to the commit index the log is as it was; the commit index has not fallen, and lies in the log.
pub record CommitSafe (n n' : Node) : Type 0 where
  pub kept : take (suc n.commit_index) n'.log.entries ≡ take (suc n.commit_index) n.log.entries
  pub grows : n.commit_index ≤ n'.commit_index
  pub inside : n'.commit_index < length n'.log.entries

pub SameData-CommitSafe :
    {n n' : Node} → SameData n n' → n.commit_index < length n.log.entries → CommitSafe n n'
SameData-CommitSafe {n} s h = record {
  kept = ap (λ l. take (suc n.commit_index) l.entries) s.log;
  grows = omega (arith, s.commit_index);
  inside = rw (s.commit_index, s.log) h;
}

-- The message does not disagree with a committed entry. (The leader has every committed entry.)
abbrev pub Respects : AppendEntriesArgs → Node → Type 0
Respects args n =
    (j : ℕ)
    → j < length args.entries
    → suc args.prev_log_index + j ≤ n.commit_index
    → term_of n.log.entries (suc args.prev_log_index + j) ≡ term_of args.entries j

commit-outcome :
    (args : AppendEntriesArgs) (n : Node)
    → (outcome args n none).commit_index ≡ (
        if ltb n.commit_index args.leader_commit
        then min (last_index (outcome args n none).log) args.leader_commit
        else n.commit_index)
unfolding follow_commit save_entries
commit-outcome args n = ground (arith, (follow_leader-SameData args n).commit_index)

longer {ℓ} :
    {A : Type ℓ} (m : ℕ) (xs ys : List A) → take m xs ≡ take m ys → m ≤ length ys → m ≤ length xs
longer m xs ys e h = omega (arith, ap length e, length-take m xs, length-take m ys)

module _ (args : AppendEntriesArgs) (n : Node) {n' : Node} {r : AppendEntriesReply}
    (fits : Fits args n) (handled : handle_append_entries args n ≡ some (n', r)) where
  -- An accepted message takes the commit index to the leader's, but not past the end of the log.
  -- (The log and the message are within the range of an `int`.)
  pub accepted_commit :
      r.success ≡ true
      → n'.commit_index ≡ (
          if ltb n.commit_index args.leader_commit
          then min (length n'.log.entries - 1) args.leader_commit
          else n.commit_index)
  accepted_commit s =
      rw (← last_index-eq n'.log (accepted-IsLog args n fits handled s))
        (rw (success-outcome args n fits handled s).0 (commit-outcome args n))

  pub refused-SameData : r.success ≡ false → SameData n n'
  refused-SameData s = ground (
    arith,
    handle_append_entries-eq args n,
    handle_append_entries_stale args n,
    follow_leader-SameData args n,
  )

  -- No message that respects what is committed changes a committed entry, lowers the commit index
  -- or takes it past the end of the log, whether it is accepted or refused. (The log and the
  -- message are within the range of an `int`, and the commit index lies in the log.)
  pub handle_append_entries-CommitSafe :
      n.commit_index < length n.log.entries → Respects args n → CommitSafe n n'
  handle_append_entries-CommitSafe h same = elim (Bool-cases r.success) [
    | inl s ↦
        let kept =
          agreed_entries_kept args n fits handled (suc n.commit_index) s h
            (λ j p q. same j p (omega arith)) in
        let room = longer (suc n.commit_index) n'.log.entries n.log.entries kept h in
        record {
          kept = kept;
          grows = ground (arith, accepted_commit s);
          inside = ground (arith, accepted_commit s);
        }
    | inr s ↦ SameData-CommitSafe (refused-SameData s) h
  ]
