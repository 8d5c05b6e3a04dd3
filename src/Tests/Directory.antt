-- ===== src/Tests/Directory.antt =====
-- Opening and closing the files of a WAL: the theorems of Storage at concrete inputs.
use mathlib.Core.List.Permᴰ
use gammaflow.Storage.Handle
use gammaflow.Base.{◌≡◌, refl, true, false, some, none, List, [], ◌∷◌}
use gammaflow.Storage.Record.{term_record}
use gammaflow.Storage.Frame.{frame, header, put_u32}
use gammaflow.Storage.Disk.{Disk, new_disk, synced, max_wal_size, append_record, rotate}
use gammaflow.Storage.Disk.Rotation.{append_all}
use gammaflow.Storage.Handle.{
  Wal, usable, closed, no_errors, Answers, append_each, append, close_file, open_next_file,
}
use gammaflow.Storage.Handle.Stuck.{failed_rotation-stuck}
use gammaflow.Storage.Directory.{
  DirEntry, new_wal, opened, list_failed, wal_files, list_wal_files, sort_by_id, at_last,
  open_current_file,
}
use gammaflow.Storage.Directory.Order.{numbered}
use gammaflow.Storage.Directory.Reopen.{as_listed, new_wal-as_listed, new_wal-append_all}
use gammaflow.Tests.Codecs.{wal_codec}

-- A WAL whose file is full.
abbrev full_wal : Wal
full_wal = record {
  disk = record { older = []; current = []; file_id = 1; file_size = max_wal_size };
  handle = usable;
}

-- The next file cannot be opened.
abbrev no_open : Answers
no_open = record { closes = true; opens = false; stats = true }

-- Two records later the operating system makes no error any more.
failed_rotation-stuck_example :
    append_each wal_codec
      ((term_record 3, no_open, synced) ∷ (term_record 4, no_errors, synced) ∷ [])
      full_wal
    ≡ ((append wal_codec (term_record 3) no_open synced full_wal).0, false ∷ false ∷ [])
unfolding Handle.rotate close_file open_next_file frame header put_u32
failed_rotation-stuck_example =
    failed_rotation-stuck wal_codec (term_record 3) no_open synced
      ((term_record 4, no_errors, synced) ∷ []) full_wal refl refl

-- Two files, of which the last has a torn write that the size does not count.
abbrev left : Disk
left = record { older = (1 ∷ 2 ∷ []) ∷ []; current = 3 ∷ 4 ∷ 5 ∷ []; file_id = 2; file_size = 1 }

-- The directory lists the last file first, and also a directory and a file of another kind.
abbrev listing : List DirEntry
listing =
    record { is_dir = true; has_prefix = true; scanned = some 3; content = [] }
    ∷ record { is_dir = false; has_prefix = true; scanned = some 2; content = left.current }
    ∷ record { is_dir = false; has_prefix = false; scanned = none; content = 7 ∷ [] }
    ∷ record { is_dir = false; has_prefix = true; scanned = some 1; content = 1 ∷ 2 ∷ [] }
    ∷ []

new_wal-as_listed_example :
    new_wal true (some listing) no_errors
    ≡ opened (record { disk = as_listed left; handle = usable })
unfolding wal_files numbered
new_wal-as_listed_example = new_wal-as_listed left listing ∣ Permᴰ.swap refl refl ∣₁

-- A WAL whose writes succeeded is found as it was left.
same_wal :
    new_wal true
      (some (
        record {
          is_dir = false;
          has_prefix = true;
          scanned = some 1;
          content = (append_all wal_codec (term_record 2 ∷ []) new_disk).current;
        }
        ∷ []))
      no_errors
    ≡ opened (record { disk = append_all wal_codec (term_record 2 ∷ []) new_disk; handle = usable })
unfolding wal_files numbered append_record rotate frame header put_u32
same_wal = new_wal-append_all wal_codec (term_record 2 ∷ []) _ ∣ Permᴰ.refl _ ∣₁

-- In a directory without files of the WAL it is new.
empty : new_wal true (some []) no_errors ≡ opened (record { disk = new_disk; handle = usable })
unfolding new_wal list_wal_files wal_files sort_by_id at_last open_current_file
empty = refl

unreadable : new_wal true none no_errors ≡ list_failed
unfolding new_wal list_wal_files
unreadable = refl
