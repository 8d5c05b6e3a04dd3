-- ===== src/Storage/Repair.antt =====
-- internal/storage/wal.go: `Replay` with what it does to the files, `truncateFile`, and the errors of
-- reading and truncating them.
pub mod Again
use gammaflow.Base.{ℕ, Bool, true, false, Option, none, some, List, [], ◌∷◌, map, take, ◌>>=◌}
use gammaflow.Storage.Codec.{Codec}
use gammaflow.Storage.Replay.{Replayed, out_of_fuel, panicked, done, replay_file, merge_file}

-- What the operating system says of a file: that it cannot be read, or that it can, and then whether
-- it can be opened and truncated.
pub data Fate : Type 0 where
  unreadable : Fate
  readable : (truncates : Bool) → Fate

-- `truncateFile` at the offset that the loop asks for, if it asks. The offset counts the bytes of
-- records that were read, so that it is never behind the end of the file.
unfoldable pub truncate_file : Bool → Option ℕ → List ℕ → List ℕ
truncate_file true (some offset) bytes = take offset bytes
truncate_file _ _ bytes = bytes

abbrev pub with_file : List ℕ → Replayed × List (List ℕ) → Replayed × List (List ℕ)
with_file f (s, fs) = (s, f ∷ fs)

-- `Replay`: what it returns, and the files after it. A file that cannot be read ends it; `none` is a
-- panic.
unfoldable pub replay_each :
    Codec → List (List ℕ × Fate) → Replayed → Option (Replayed × List (List ℕ))
replay_each c [] s = some (s, [])
replay_each c ((f, unreadable) ∷ fs) s = some (s, f ∷ map (λ p. p.0) fs)
replay_each c ((f, readable truncates) ∷ fs) s = elim (replay_file c f) [
  | out_of_fuel ↦ none
  | panicked ↦ none
  | done t offset ↦
      replay_each c fs (merge_file s t)
      >>= (λ r. some (with_file (truncate_file truncates offset f) r))
]
