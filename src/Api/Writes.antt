-- ===== src/Api/Writes.antt =====
-- What a successful answer to a write means.
use gammaflow.Base.{◌≤◌, ◌≡◌, ◌⊎◌, List, [], ◌∷◌, ◌++◌, true, add64}
use gammaflow.Raft.Types.{Term, LogIndex, LogEntry, Bytes}
use gammaflow.Raft.Log
use gammaflow.Raft.Log.{last_index}
use gammaflow.Raft.Node.{Node}
use gammaflow.Raft.Submit.{is_leader}

-- Among the states that the waiting loop saw is one of a leader of the term that has applied the
-- index.
abbrev pub Seen : LogIndex → Term → List Node → Type 0
Seen index term [] = ⊥
Seen index term (k ∷ looks) =
    ((is_leader k ≡ true) × ((k.current_term ≡ term) × (index ≤ k.last_applied)))
    ⊎ Seen index term looks

-- The entry that a leader makes of a command.
abbrev pub entry_for : Bytes → Node → LogEntry
entry_for command n = record {
  term = n.current_term;
  index = add64 (last_index n.log) 1;
  command = command;
}

-- The command was appended to the log of a leader, and its index was seen applied in the same term.
pub record Committed (command : Bytes) (m m' : Node) (looks : List Node) (index : LogIndex)
    (term : Term) : Type 0 where
  pub leads : is_leader m ≡ true
  pub appended : m'.log.entries ≡ m.log.entries ++ entry_for command m ∷ []
  pub index_of : index ≡ (entry_for command m).index
  pub term_of : term ≡ m.current_term
  pub seen : Seen index term looks
