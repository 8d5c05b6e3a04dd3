-- ===== src/Storage/Handle.antt =====
-- internal/storage/wal.go with the errors of opening and closing its files: `openCurrentFile`, `rotate`,
-- `Append`, `Close`, `listWALFiles` and `NewWAL`.
pub mod Stuck
use gammaflow.Base.{
  ℕ, suc, ◌+◌, Bool, true, false, Option, none, some, List, [], ◌∷◌, ◌++◌, ltb, if◌then◌else◌, ◌||◌,
  length,
}
use gammaflow.Storage.Record.{Record}
use gammaflow.Storage.Codec.{Codec, tag, payload}
use gammaflow.Storage.Frame.{frame}
use gammaflow.Storage.Disk.{Disk, Write, reached, succeeds, max_wal_size}

-- The `*os.File` of a WAL. A file that was closed, also with an error, stays closed.
pub data Handle : Type 0 where
  usable closed : Handle

-- `WAL`: its files, the id and size it keeps of the current one, and its handle.
pub record Wal : Type 0 where
  pub disk : Disk
  pub handle : Handle

-- What the operating system says to a Close, an OpenFile and a Stat: whether they succeed.
pub record Answers : Type 0 where
  pub closes : Bool
  pub opens : Bool
  pub stats : Bool

abbrev pub no_errors : Answers
no_errors = record { closes = true; opens = true; stats = true }

-- The directory after `OpenFile` created the file behind the current one.
abbrev pub created : Disk → Disk
created d = record d { older = d.older ++ d.current ∷ []; current = [] }

-- `openCurrentFile` in `rotate`, where the file of the new id does not exist yet.
unfoldable pub open_next_file : Answers → Wal → Wal × Bool
open_next_file os w =
    if os.opens
    then if os.stats
      then (record { disk = record (created w.disk) { file_size = 0 }; handle = usable }, true)
      else (record w { disk = created w.disk }, false)
    else (w, false)

-- `Close` on a file, closed or not.
unfoldable pub close_file : Answers → Handle → Bool
close_file os usable = os.closes
close_file os closed = false

-- `Close`.
unfoldable pub close : Answers → Wal → Wal × Bool
close os w = (record w { handle = closed }, close_file os w.handle)

-- `rotate`; the `Bool` is whether it returns no error.
unfoldable pub rotate : Answers → Wal → Wal × Bool
rotate os w =
    let w₁ = record w { handle = closed } in
    if close_file os w.handle
    then open_next_file os (record w₁ { disk = record w.disk { file_id = suc w.disk.file_id } })
    else (w₁, false)

-- `file.Write` and `file.Sync` of one record.
unfoldable pub write_record : Write → List ℕ → Wal → Wal × Bool
write_record io buf w = elim w.handle [
  | closed ↦ (w, false)
  | usable ↦ (
    record w {
      disk = record w.disk {
        current = w.disk.current ++ reached io buf;
        file_size = if succeeds io then w.disk.file_size + length buf else w.disk.file_size;
      };
    },
    succeeds io,
  )
]

unfoldable pub then_write : Write → List ℕ → Wal × Bool → Wal × Bool
then_write io buf (w, true) = write_record io buf w
then_write io buf (w, false) = (w, false)

-- `Append`; the `Bool` is whether it returns no error.
unfoldable pub append : Codec → Record → Answers → Write → Wal → Wal × Bool
append c r os io w =
    let buf = frame (tag r) (payload c r) in
    then_write io buf
      (if ltb max_wal_size (w.disk.file_size + length buf) then rotate os w else (w, true))

-- `Append` of one record after the other, each with its own answers, whatever the calls return; the
-- results in their order.
unfoldable pub append_each : Codec → List (Record × Answers × Write) → Wal → Wal × List Bool
append_each c [] w = (w, [])
append_each c ((r, os, io) ∷ calls) w =
    let (w₁, ok) = append c r os io w in let (w₂, oks) = append_each c calls w₁ in (w₂, ok ∷ oks)
