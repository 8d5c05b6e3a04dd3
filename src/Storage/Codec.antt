-- ===== src/Storage/Codec.antt =====
-- The JSON payloads of wal.go: what its three record types need of `encoding/json`. Go's encoder and
-- decoder stand outside the repository, so they are given, with the law that the documentation of
-- the package states for these structs: a value that was marshalled unmarshals to itself.
use gammaflow.Base.{ℕ, String, List, Option, some, ◌≡◌}
use gammaflow.Storage.Record.{Record, term_record, vote_record, entry_record}

pub record Codec : Type 0 where
  -- json.Marshal of TermRecord, VoteRecord and EntryRecord
  pub write_term : ℕ → List ℕ
  pub write_vote : String → ℕ → List ℕ
  pub write_entry : ℕ → ℕ → List ℕ → List ℕ
  -- json.Unmarshal into them; `none` is an error
  pub read_term : List ℕ → Option ℕ
  pub read_vote : List ℕ → Option (String × ℕ)
  pub read_entry : List ℕ → Option (ℕ × ℕ × List ℕ)
  pub term_law : (t : ℕ) → read_term (write_term t) ≡ some t
  pub vote_law : (v : String) (t : ℕ) → read_vote (write_vote v t) ≡ some (v, t)
  pub entry_law : (i t : ℕ) (c : List ℕ) → read_entry (write_entry i t c) ≡ some (i, t, c)

-- The type tags and the payload of a record.
abbrev pub tag : Record → ℕ
tag (term_record t) = 1
tag (vote_record v t) = 2
tag (entry_record i t c) = 3

abbrev pub payload : Codec → Record → List ℕ
payload c (term_record t) = c.write_term t
payload c (vote_record v t) = c.write_vote v t
payload c (entry_record i t command) = c.write_entry i t command
