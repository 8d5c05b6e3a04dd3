-- ===== src/Storage/Record.antt =====
-- internal/storage/wal.go: the three kinds of record that the write-ahead log keeps.
use gammaflow.Base.{ℕ, String, List}

-- `RecordTerm`, `RecordVote` and `RecordEntry` with their payloads, fields in the source's order.
pub data Record : Type 0 where
  term_record : (term : ℕ) → Record
  vote_record : (voted_for : String) (term : ℕ) → Record
  entry_record : (index term : ℕ) (command : List ℕ) → Record
