-- ===== src/Tests/Codecs.antt =====
-- Concrete codecs with the laws that are asked of `encoding/json`.
use gammaflow.Base.{
  arith, ℕ, String, ◌≡◌, ◌≢◌, refl, ap, Option, some, none, List, [], ◌∷◌, ◌++◌, ◌>>=◌, length,
  take, drop, take-append_self, drop-append_self,
}
use gammaflow.Storage.Codec.{Codec}
use gammaflow.Kvstore.Codec.{Command, CommandCodec}
use gammaflow.Tests.Text.{codes, text_of, text_of-codes}

abbrev read_term : List ℕ → Option ℕ
read_term (t ∷ []) = some t
read_term _ = none

abbrev read_vote : List ℕ → Option (String × ℕ)
read_vote (t ∷ ns) = text_of ns >>= λ v. some (v, t)
read_vote _ = none

abbrev read_entry : List ℕ → Option (ℕ × ℕ × List ℕ)
read_entry (i ∷ t ∷ c) = some (i, t, c)
read_entry _ = none

-- The payloads of the WAL.
abbrev pub wal_codec : Codec
wal_codec = record {
  write_term = λ t. t ∷ [];
  write_vote = λ v t. t ∷ codes v;
  write_entry = λ i t c. i ∷ t ∷ c;
  read_term = read_term;
  read_vote = read_vote;
  read_entry = read_entry;
  term_law = λ t. refl;
  vote_law = λ v t. ap (λ o. o >>= λ w. some (w, t)) (text_of-codes v);
  entry_law = λ i t c. refl;
}

abbrev write_command : Command → List ℕ
write_command c =
    length (codes c.op) ∷ length (codes c.key) ∷ codes c.op ++ (codes c.key ++ codes c.value)

abbrev read_command : List ℕ → Option Command
read_command (a ∷ b ∷ ns) = do
  let rest = drop a ns
  op ← text_of (take a ns)
  key ← text_of (take b rest)
  value ← text_of (drop b rest)
  some (record { op = op; key = key; value = value })
read_command _ = none

pub read-write_command : (c : Command) → read_command (write_command c) ≡ some c
read-write_command c =
    let (op, key, value) : List ℕ × List ℕ × List ℕ = (codes c.op, codes c.key, codes c.value) in
    rw (take-append_self op (key ++ value), drop-append_self op (key ++ value))
      (rw (take-append_self key value, drop-append_self key value)
        (rw (text_of-codes c.op, text_of-codes c.key, text_of-codes c.value) refl))

pub write-nonempty : (c : Command) → write_command c ≢ []
write-nonempty c e = ground (arith, e)

-- The commands of the store.
abbrev pub command_codec : CommandCodec
command_codec = record {
  write = write_command;
  read = read_command;
  law = read-write_command;
  nonempty = write-nonempty;
}
