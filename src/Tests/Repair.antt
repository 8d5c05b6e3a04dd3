-- ===== src/Tests/Repair.antt =====
-- Replay that truncates, at a concrete input.
use gammaflow.Base.{◌≡◌, refl, some, true, false, List, [], ◌∷◌, ◌++◌, ℕ, take, arith}
use gammaflow.Storage.Record.{term_record, vote_record}
use gammaflow.Storage.Codec.{payload}
use gammaflow.Storage.Frame.{frame, header, put_u32}
use gammaflow.Storage.Replay.{nothing, replay_file, Replayed, done, absorb}
use gammaflow.Storage.Replay.File.{encode, replay_torn}
use gammaflow.Storage.Repair.{replay_each, truncate_file, readable, unreadable}
use gammaflow.Storage.Repair.Again.{replay_again, all_readable}
use gammaflow.Tests.Codecs.{wal_codec}

-- A record of a term, whole, and ten bytes of a second one.
abbrev whole : List ℕ
whole = frame 1 (payload wal_codec (term_record 2))

abbrev torn_file : List ℕ
torn_file =
    encode wal_codec (term_record 2 ∷ [])
    ++ take 10 (frame 2 (payload wal_codec (vote_record "a" 2)))

abbrev result : Replayed
result = record { term = 2; voted_for = ""; entries = [] }

torn : replay_file wal_codec torn_file ≡ done result (some 13)
unfolding frame header put_u32 absorb
torn =
    replay_torn wal_codec (term_record 2 ∷ []) (vote_record "a" 2) 10
      (omega arith, (omega arith, tt)) (omega arith)

first_replay :
    replay_each wal_codec (all_readable true (torn_file ∷ [])) nothing ≡ some (result, whole ∷ [])
unfolding replay_each truncate_file frame header put_u32
first_replay = rw (torn, replay_each) refl

replay_again_example :
    replay_each wal_codec (all_readable false (whole ∷ [])) nothing ≡ some (result, whole ∷ [])
unfolding frame header put_u32
replay_again_example =
    replay_again wal_codec (torn_file ∷ []) (whole ∷ []) nothing result false (omega arith, tt)
      first_replay

-- A file that cannot be read ends the replay.
ended :
    replay_each wal_codec ((torn_file, unreadable) ∷ (whole, readable true) ∷ []) nothing
    ≡ some (nothing, torn_file ∷ whole ∷ [])
unfolding replay_each
ended = refl
