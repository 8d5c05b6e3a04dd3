-- ===== src/Storage/Disk.antt =====
-- internal/storage/wal.go on its files: `Append` with the rotation at 64 MB, and `Replay` over all
-- files, where every file is opened and closed without an error (Handle has these errors).
pub mod Merge
pub mod Rotation
use gammaflow.Base.{
  ℕ, suc, ◌+◌, ◌*◌, Bool, true, false, Option, none, some, List, [], ◌∷◌, ◌++◌, ltb, if◌then◌else◌,
  length, take,
}
use gammaflow.Storage.Record.{Record}
use gammaflow.Storage.Codec.{Codec, tag, payload}
use gammaflow.Storage.Frame.{frame}
use gammaflow.Storage.Replay.{Replayed, out_of_fuel, panicked, done, replay_file, merge_file}

abbrev pub max_wal_size : ℕ
max_wal_size = 64 * 1024 * 1024

-- `WAL` with its directory: the files before the open one, oldest first, and the open one.
pub record Disk : Type 0 where
  pub older : List (List ℕ)
  pub current : List ℕ
  pub file_id : ℕ
  pub file_size : ℕ

-- `NewWAL` in an empty directory.
abbrev pub new_disk : Disk
new_disk = record { older = []; current = []; file_id = 1; file_size = 0 }

-- The next file does not exist yet, since the open one has the highest id.
unfoldable pub rotate : Disk → Disk
rotate d = record {
  older = d.older ++ d.current ∷ [];
  current = [];
  file_id = suc d.file_id;
  file_size = 0;
}

-- What the file system makes of a write and its fsync: all is well, only some bytes are written, or
-- the fsync fails.
pub data Write : Type 0 where
  synced unsynced : Write
  short : ℕ → Write

abbrev pub reached : Write → List ℕ → List ℕ
reached (short k) bytes = take k bytes
reached _ bytes = bytes

abbrev pub succeeds : Write → Bool
succeeds synced = true
succeeds _ = false

-- `Append`; the `Bool` is whether it returns no error.
unfoldable pub append_record : Codec → Record → Write → Disk → Disk × Bool
append_record c r w d =
    let buf = frame (tag r) (payload c r) in
    let d₁ = if ltb max_wal_size (d.file_size + length buf) then rotate d else d in
    (
      record d₁ {
        current = d₁.current ++ reached w buf;
        file_size = if succeeds w then d₁.file_size + length buf else d₁.file_size;
      },
      succeeds w,
    )

-- The files in the order of their ids.
abbrev pub files : Disk → List (List ℕ)
files d = d.older ++ d.current ∷ []

-- `Replay`: the results accumulate from file to file, `none` is a panic.
unfoldable pub replay_files : Codec → List (List ℕ) → Replayed → Option Replayed
replay_files c [] s = some s
replay_files c (f ∷ fs) s = elim (replay_file c f) [
  | out_of_fuel ↦ none
  | panicked ↦ none
  | done t offset ↦ replay_files c fs (merge_file s t)
]
