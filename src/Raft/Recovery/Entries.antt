-- ===== src/Raft/Recovery/Entries.antt =====
-- The log that a restart gives back after `HandleAppendEntries`.
use mathlib.Core.List.{append_assoc, append-nil, map-append}
use gammaflow.Base.{
  suc, ◌+◌, ◌<◌, ◌≡◌, ◌↔◌, refl, sym, ap, ◌∙◌, Option, none, some, List, [], ◌∷◌, ◌++◌, arith, true,
  false, Bool, Bool-cases, inl, inr, ◌==◌, if◌then◌else◌, map, length, length-append, take, drop,
  take-append-drop,
}
use gammaflow.Storage.Record.{term_record, entry_record}
use gammaflow.Storage.Wal.{Wal, persist_term, persist_entry}
use gammaflow.Storage.Replay.{Replayed, EntryRecord, absorb}
use gammaflow.Raft.Types.{Term, NodeId, LogEntry, AppendEntriesArgs, AppendEntriesReply}
use gammaflow.Raft.Log.{sentinel, restore_entries, new_raft_log}
use gammaflow.Raft.Node.{
  Node, new_node, wal_after, save_entries, save_wal_entries, stop_leading, reset_election_timer,
}
use gammaflow.Raft.Node.Frame.{wal-catch_up}
use gammaflow.Raft.Append.{follow_leader, follow_commit, handle_append_entries}
use gammaflow.Raft.Append.Merge.{merge, fresh}
use gammaflow.Raft.Append.Outcome.{Fits, outcome, follow_leader-SameData}
use gammaflow.Raft.Append.Safety.{success-outcome, log-success}
use gammaflow.Raft.Recovery.{to_log_entry, restore, replay_from, replay, restart}
use gammaflow.Raft.Recovery.Handlers.{follow_leader-IsDurable}
use gammaflow.Raft.Recovery.Durable.{IsDurable, Gives, Gives-entry, replayed, replayed_after}

-- The log entries among the records of the WAL.
abbrev pub wal_entries : Option Wal → List LogEntry
wal_entries none = []
wal_entries (some w) = map to_log_entry (replayed w).entries

wal_entries-term :
    (o : Option Wal) (t term : Term) (vote : NodeId)
    → Gives o term vote
    → wal_entries (wal_after (persist_term t) o) ≡ wal_entries o
unfolding persist_term absorb
wal_entries-term none t term vote g = refl
wal_entries-term (some w) t term vote g = ground (arith, replayed_after w g.0 (term_record t))

wal_entries-entry :
    (o : Option Wal) (e : LogEntry) (term : Term) (vote : NodeId)
    → Gives o term vote
    → wal_entries (wal_after (persist_entry e.index e.term e.command) o) ≡ wal_entries o ++ e ∷ []
unfolding persist_entry absorb
wal_entries-entry none e term vote g = absurd g
wal_entries-entry (some w) e term vote g =
    ap (λ s. map to_log_entry s.entries)
      (replayed_after w g.0 (entry_record e.index e.term e.command))
    ∙ map-append to_log_entry (replayed w).entries _

wal_entries-save :
    (es : List LogEntry) (o : Option Wal) (term : Term) (vote : NodeId)
    → Gives o term vote
    → wal_entries (save_wal_entries es o) ≡ wal_entries o ++ es
unfolding save_wal_entries
wal_entries-save [] o term vote g = sym (append-nil (wal_entries o))
wal_entries-save (e ∷ es) o term vote g =
    wal_entries-save es _ term vote (Gives-entry o e.index e.term e.command term vote g)
    ∙ ap (λ l. l ++ es) (wal_entries-entry o e term vote g)
    ∙ append_assoc (wal_entries o) (e ∷ []) es

log-restore :
    (s : Replayed) (es : List EntryRecord) (n : Node)
    → s.entries ≡ es
    → n.log ≡ new_raft_log
    → (restore s n).log.entries ≡ sentinel ∷ map to_log_entry es
unfolding restore restore_entries new_raft_log
log-restore s [] n e fresh_log = ground (arith, e, fresh_log)
log-restore s (x ∷ es) n e fresh_log = ground (arith, e)

log-replay_from :
    (o : Option Wal) (n : Node)
    → n.log ≡ new_raft_log
    → (replay_from o n).log.entries ≡ sentinel ∷ wal_entries o
log-replay_from none n fresh_log = unfold new_raft_log in ap (λ l. l.entries) fresh_log
log-replay_from (some w) n fresh_log =
    log-restore (replayed w) (replayed w).entries n refl fresh_log

-- A restarted node has the sentinel and the entries of the WAL.
log-restart : (n : Node) → (restart n).log.entries ≡ sentinel ∷ wal_entries n.wal
unfolding restart replay new_node
log-restart n = log-replay_from n.wal (new_node n.id n.peers n.wal n.draws) refl

-- Some entry of the message differs in term from the one that stands in its place.
abbrev pub conflicts : List LogEntry → List LogEntry → Bool
conflicts [] new = false
conflicts (o ∷ old) [] = false
conflicts (o ∷ old) (e ∷ new) =
    let rest = conflicts old new in if o.term == e.term then rest else true

merge-fresh :
    (old new : List LogEntry) → conflicts old new ≡ false → merge old new ≡ old ++ fresh old new
merge-fresh [] new h = refl
merge-fresh (o ∷ old) [] h = ap (λ l. o ∷ l) (sym (append-nil old))
merge-fresh (o ∷ old) (e ∷ new) h = ground (arith, merge-fresh old new)

merge_shorter :
    (old new : List LogEntry)
    → conflicts old new ≡ true
    → length (merge old new) < length old + length (fresh old new)
merge_shorter [] new h = ground (arith, h)
merge_shorter (o ∷ old) [] h = ground (arith, h)
merge_shorter (o ∷ old) (e ∷ new) h = ground (arith, merge_shorter old new)

-- A crash would lose nothing of the log.
abbrev pub RecoversLog : Node → Type 0
RecoversLog n = (restart n).log.entries ≡ n.log.entries

wal_entries-follow_leader :
    (args : AppendEntriesArgs) (n : Node)
    → IsDurable n
    → wal_entries (follow_leader args n).wal ≡ wal_entries n.wal
unfolding follow_leader stop_leading reset_election_timer
wal_entries-follow_leader args n d =
    ground (
      arith,
      wal-catch_up args.term n,
      wal_entries-term n.wal args.term n.current_term n.voted_for d,
    )

wal-outcome :
    (args : AppendEntriesArgs) (n : Node)
    → (outcome args n none).wal
      ≡ save_wal_entries
          (fresh (drop (suc args.prev_log_index) n.log.entries) args.entries)
          (follow_leader args n).wal
unfolding follow_commit save_entries
wal-outcome args n = ground (arith, (follow_leader-SameData args n).log)

module _ (args : AppendEntriesArgs) (n : Node) {n' : Node} {r : AppendEntriesReply}
    (fits : Fits args n) (handled : handle_append_entries args n ≡ some (n', r))
    (durable : IsDurable n) (whole : RecoversLog n) (accepted : r.success ≡ true) where
  recovered_after :
      let old = drop (suc args.prev_log_index) n.log.entries in
      (restart n').log.entries ≡ n.log.entries ++ fresh old args.entries
  recovered_after =
      let m = follow_leader args n in
      let added = fresh (drop (suc args.prev_log_index) n.log.entries) args.entries in
      let d = follow_leader-IsDurable args n durable in
      let kept =
        ap (λ k. wal_entries k.wal) (success-outcome args n fits handled accepted).0
        ∙ ap wal_entries (wal-outcome args n)
        ∙ wal_entries-save added m.wal m.current_term m.voted_for d
        ∙ ap (λ l. l ++ added) (wal_entries-follow_leader args n durable) in
      log-restart n'
      ∙ ap (λ l. sentinel ∷ l) kept
      ∙ ap (λ l. l ++ added) (sym (log-restart n) ∙ whole)

  -- After an accepted message a crash loses nothing of the log exactly if no entry of the message
  -- replaced one of another term. (Before it nothing would have been lost, every WAL write
  -- succeeds, and the log and the message are within the range of an `int`.)
  pub recovers_iff :
      RecoversLog n'
      ↔ (conflicts (drop (suc args.prev_log_index) n.log.entries) args.entries ≡ false)
  recovers_iff =
      let k = suc args.prev_log_index in
      let es = n.log.entries in
      let old = drop k es in
      let new = log-success args n fits handled accepted in
      let added = fresh old args.entries in
      let split : es ++ added ≡ take k es ++ (old ++ added) =
        ap (λ l. l ++ added) (sym (take-append-drop k es)) ∙ append_assoc (take k es) old added in
      (
        λ same. elim (Bool-cases (conflicts old args.entries)) [
          | inr agree ↦ agree
          | inl differ ↦ absurd (
              omega (
                arith,
                ap length (sym split ∙ sym recovered_after ∙ same ∙ new),
                length-append (take k es) (old ++ added),
                length-append (take k es) (merge old args.entries),
                length-append old added,
                merge_shorter old args.entries differ,
              ))
        ],
        λ agree.
            recovered_after
            ∙ split
            ∙ ap (λ l. take k es ++ l) (sym (merge-fresh old args.entries agree))
            ∙ sym new,
      )
