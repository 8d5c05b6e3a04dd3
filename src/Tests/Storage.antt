-- ===== src/Tests/Storage.antt =====
-- The WAL: the theorems of Storage at concrete inputs.
use mathlib.Core.Bool.{false≢true}
use gammaflow.Base.{
  eq_iff, ◌≡◌, ◌≢◌, some, none, [], ◌∷◌, ◌++◌, List, arith, take, length, ltb, if◌then◌else◌,
}
use gammaflow.Storage.Record.{Record, term_record, vote_record, entry_record}
use gammaflow.Storage.Codec.{tag, payload}
use gammaflow.Storage.Frame.{frame, header, put_u32}
use gammaflow.Storage.Replay.{scan, nothing, out_of_fuel, replay_file, done, absorb_all}
use gammaflow.Storage.Replay.Fuel.{scan_fuel}
use gammaflow.Storage.Replay.File.{encode, replay_torn}
use gammaflow.Storage.Disk.{replay_files, files, new_disk}
use gammaflow.Storage.Disk.Rotation.{append_all, replay_files-append_all}
use gammaflow.Tests.Codecs.{wal_codec}

abbrev records : List Record
records = term_record 2 ∷ vote_record "node-1" 2 ∷ []

abbrev last : Record
last = entry_record 1 2 (7 ∷ [])

scan_fuel_example :
    (scan wal_codec 2 (9 ∷ []) 0 nothing ≡ scan wal_codec 7 (9 ∷ []) 0 nothing)
    × (scan wal_codec 2 (9 ∷ []) 0 nothing ≢ out_of_fuel)
scan_fuel_example = scan_fuel wal_codec 2 7 (9 ∷ []) 0 nothing (omega arith) (omega arith)

-- Ten bytes of the last record are in the file.
replay_torn_example :
    replay_file wal_codec
      (encode wal_codec records ++ take 10 (frame (tag last) (payload wal_codec last)))
    ≡ done
        (absorb_all records nothing)
        (if ltb 10 8 then none else some (length (encode wal_codec records)))
unfolding frame header put_u32
replay_torn_example = replay_torn wal_codec records last 10 (omega arith) (omega arith)

replay_files-append_all_example :
    replay_files wal_codec (files (append_all wal_codec records new_disk)) nothing
    ≡ some (absorb_all records nothing)
replay_files-append_all_example =
    replay_files-append_all wal_codec records (omega arith, (omega arith, tt))
      (
        omega arith,
        (
          omega arith,
          ((λ e. false≢true ((eq_iff "node-1" "").1 e)), (omega arith, (omega arith, tt))),
        ),
      )
