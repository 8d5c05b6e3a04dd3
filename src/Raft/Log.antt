-- ===== src/Raft/Log.antt =====
-- internal/raft/log.go: the 1-indexed log with its sentinel. A method that mutates the log returns
-- the new one, and `none` is a run-time panic (an index or a slice bound out of range).
pub mod View
pub mod Search
pub mod Order
use gammaflow.Base.{
  ℕ, suc, ◌-◌, Bool, Option, none, some, List, [], ◌∷◌, ◌++◌, ltb, ◌==◌, if◌then◌else◌, length,
  get_elem?, drop, slice, add64, sub64, pos, sub_ℕ, ltb_ℤ, to_int, ◌>>=◌,
}
use gammaflow.Raft.Types.{Term, LogIndex, LogEntry}

pub record RaftLog : Type 0 where
  pub entries : List LogEntry

abbrev pub sentinel : LogEntry
sentinel = record { term = 0; index = 0; command = [] }

unfoldable pub new_raft_log : RaftLog
new_raft_log = record { entries = sentinel ∷ [] }

unfoldable pub append : RaftLog → List LogEntry → RaftLog
append l es = record { entries = l.entries ++ es }

unfoldable pub entry : RaftLog → LogIndex → Option LogEntry
entry l idx = get_elem? l.entries idx

-- LogIndex(len(entries) - 1)
unfoldable pub last_index : RaftLog → LogIndex
last_index l = sub64 (length l.entries) 1

-- entries[len(entries)-1].Term; of an empty slice the index is -1, which panics.
unfoldable pub last_term : RaftLog → Option Term
last_term l = do e ← get_elem? l.entries (length l.entries - 1); some e.term

-- entries = entries[:idx+1] if int(idx) < len(entries)-1
unfoldable pub truncate_after : RaftLog → LogIndex → Option RaftLog
truncate_after l idx =
    if ltb_ℤ (to_int idx) (sub_ℕ (length l.entries) 1)
    then (do kept ← slice l.entries 0 (add64 idx 1); some (record { entries = kept }))
    else some l

-- A copy of entries[start..end]; nil where the range is empty or starts past the end.
unfoldable pub entries : RaftLog → LogIndex → LogIndex → Option (List LogEntry)
entries l start end =
    let n = length l.entries in
    if ltb end start
    then some []
    else if ltb_ℤ (to_int start) (pos n)
    then slice l.entries start (add64 (if ltb_ℤ (to_int end) (pos n) then end else sub64 n 1) 1)
    else some []

unfoldable pub entries_from : RaftLog → LogIndex → Option (List LogEntry)
entries_from l start = entries l start (last_index l)

unfoldable pub contains : RaftLog → LogIndex → Bool
contains l idx = ltb_ℤ (to_int idx) (pos (length l.entries))

-- The term at an index, 0 where `contains` refuses it.
unfoldable pub term_at : RaftLog → LogIndex → Option Term
unfolding contains
term_at l idx = if contains l idx then (do e ← get_elem? l.entries idx; some e.term) else some 0

unfoldable pub restore_entries : RaftLog → List LogEntry → RaftLog
restore_entries l es = record { entries = sentinel ∷ es }

-- `for i := 1; i < len(l.entries); i++`, over what stands from place `i` on.
unfoldable pub find_term : Term → ℕ → List LogEntry → LogIndex
find_term t i [] = 0
find_term t i (e ∷ es) = let rest = find_term t (suc i) es in if e.term == t then i else rest

unfoldable pub find_first_index_of_term : RaftLog → Term → LogIndex
unfolding find_term
find_first_index_of_term l t = find_term t 1 (drop 1 l.entries)
