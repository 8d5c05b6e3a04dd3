-- ===== src/Kvstore/Codec.antt =====
-- The commands of store.go and the JSON they travel as. Go's encoder and decoder stand outside the
-- repository, so they are given, with what the documentation of `encoding/json` states for this
-- struct of (valid UTF-8) strings: a value that was marshalled unmarshals to itself, and the text
-- is not empty.
use gammaflow.Base.{ℕ, String, List, [], Option, some, ◌≡◌, ◌≢◌}

pub record Command : Type 0 where
  pub op : String
  pub key : String
  pub value : String

pub record CommandCodec : Type 0 where
  -- json.Marshal, which does not fail on this struct
  pub write : Command → List ℕ
  -- json.Unmarshal; `none` is an error
  pub read : List ℕ → Option Command
  pub law : (c : Command) → read (write c) ≡ some c
  pub nonempty : (c : Command) → write c ≢ []
