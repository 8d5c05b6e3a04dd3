-- ===== src/Storage/Wal.antt =====
-- internal/storage/wal.go as its callers see it: the records that `Replay` would give, in the order
-- of the `Append` calls. What becomes of a write and its fsync is the file system's choice, which is
-- given as the list of the outcomes still to come. A write that fails may leave a part of its record
-- in the file: `Replay` gives no record of this file from there on, so that later calls which
-- succeed are `unread` until the file is rotated or truncated. A handle that stays closed after a
-- failed rotation is a list of outcomes that fail to its end.
use gammaflow.Base.{ℕ, String, Option, none, some, List, [], ◌∷◌, ◌++◌}
use gammaflow.Storage.Record.{Record, term_record, vote_record, entry_record}

-- What becomes of one `Append`: it succeeds, and the record can be read or stands behind the part of
-- another; or it returns an error, with a record that can be read (the fsync failed) or without (the
-- rotation or the write failed, or the fsync failed behind the part of another).
pub data Outcome : Type 0 where
  stored : Outcome
  unread : Outcome
  unsynced : String → Outcome
  failed : String → Outcome

pub record Wal : Type 0 where
  pub records : List Record
  pub outcomes : List Outcome

-- The outcome of the next call. After the given ones all calls succeed.
abbrev pub next_outcome : Wal → Outcome
next_outcome w = elim w.outcomes [ [] ↦ stored | o ∷ _ ↦ o ]

abbrev later_outcomes : List Outcome → List Outcome
later_outcomes [] = []
later_outcomes (_ ∷ os) = os

abbrev written : Outcome → List Record → Record → List Record
written (failed _) rs r = rs
written unread rs r = rs
written _ rs r = rs ++ r ∷ []

abbrev error_of : Outcome → Option String
error_of stored = none
error_of unread = none
error_of (unsynced e) = some e
error_of (failed e) = some e

-- `Append`: the log afterwards, and the error returned.
unfoldable pub append : Record → Wal → Wal × Option String
append r w =
    let o = next_outcome w in
    (record w { records = written o w.records r; outcomes = later_outcomes w.outcomes }, error_of o)

unfoldable pub persist_term : ℕ → Wal → Wal × Option String
persist_term term = append (term_record term)

unfoldable pub persist_vote : String → ℕ → Wal → Wal × Option String
persist_vote voted_for term = append (vote_record voted_for term)

unfoldable pub persist_entry : ℕ → ℕ → List ℕ → Wal → Wal × Option String
persist_entry index term command = append (entry_record index term command)
