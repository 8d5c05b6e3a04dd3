-- ===== src/Storage/Directory/Reopen.antt =====
-- A WAL that is opened on the files it left.
use mathlib.Core.List.{Perm, append_assoc, append-nil}
use gammaflow.Base.{
  ℕ, suc, ◌+◌, ◌≡◌, refl, ap, ◌∙◌, Bool-cases, inl, inr, true, some, List, [], ◌∷◌, ◌++◌, length,
  arith, length-append, ltb,
}
use gammaflow.Storage.Record.{Record}
use gammaflow.Storage.Codec.{Codec, tag, payload}
use gammaflow.Storage.Frame.{frame}
use gammaflow.Storage.Disk.{Disk, new_disk, rotate, synced, append_record, max_wal_size, files}
use gammaflow.Storage.Disk.Rotation.{append_all}
use gammaflow.Storage.Handle.{usable, no_errors}
use gammaflow.Storage.Directory.{
  DirEntry, wal_files, sort_by_id, list_wal_files, at_last, open_current_file, opened, new_wal,
}
use gammaflow.Storage.Directory.Order.{numbered, numbered-Differ, sort-numbered, sort-Perm}

at_last-numbered :
    (k : ℕ) (older cs : List (List ℕ)) (c : List ℕ)
    → at_last older (numbered k (cs ++ c ∷ []))
      ≡ record { older = older ++ cs; current = c; file_id = k + length cs; file_size = length c }
unfolding at_last numbered
at_last-numbered k older [] c = ground (arith, append-nil older)
at_last-numbered k older (b ∷ []) c = ground arith
at_last-numbered k older (b ∷ e ∷ cs) c =
    at_last-numbered (suc k) (older ++ b ∷ []) (e ∷ cs) c
    ∙ ground (arith, append_assoc older (b ∷ []) (e ∷ cs))

-- The disk as the files show it.
abbrev pub as_listed : Disk → Disk
as_listed d = record {
  older = d.older;
  current = d.current;
  file_id = 1 + length d.older;
  file_size = length d.current;
}

-- The order in which the directory lists the files does not matter.
in_order :
    (d : Disk) (es : List DirEntry)
    → Perm (wal_files es) (numbered 1 (files d))
    → sort_by_id (wal_files es) ≡ numbered 1 (files d)
in_order d es p = sort-Perm p (numbered-Differ 1 (files d)) ∙ sort-numbered 1 (files d)

-- A directory that holds the files of a WAL, in any order and among other entries, is opened
-- without an error, if the operating system makes none, as these files in the order of their ids,
-- the last one open, with the number of files for its id and its true length for the size,
-- whatever id and size the WAL had.
pub new_wal-as_listed :
    (d : Disk) (es : List DirEntry)
    → Perm (wal_files es) (numbered 1 (files d))
    → new_wal true (some es) no_errors ≡ opened (record { disk = as_listed d; handle = usable })
unfolding new_wal list_wal_files open_current_file
new_wal-as_listed d es p = rw (in_order d es p) (rw (at_last-numbered 1 [] d.older d.current) refl)

append-as_listed :
    (c : Codec) (r : Record) (d : Disk)
    → as_listed d ≡ d
    → as_listed (append_record c r synced d).0 ≡ (append_record c r synced d).0
unfolding append_record rotate
append-as_listed c r d h =
    elim (Bool-cases (ltb max_wal_size (d.file_size + length (frame (tag r) (payload c r))))) [
      | inl full ↦ rw full (ground (arith, h, length-append d.older (d.current ∷ [])))
      | inr room ↦
          rw room (ground (arith, h, length-append d.current (frame (tag r) (payload c r))))
    ]

append_all-as_listed :
    (c : Codec) (rs : List Record) (d : Disk)
    → as_listed d ≡ d
    → as_listed (append_all c rs d) ≡ append_all c rs d
append_all-as_listed c [] d h = h
append_all-as_listed c (r ∷ rs) d h =
    append_all-as_listed c rs (append_record c r synced d).0 (append-as_listed c r d h)

-- A WAL to which records were appended, every write of which succeeded, is opened again as it was.
pub new_wal-append_all :
    (c : Codec) (rs : List Record) (es : List DirEntry)
    → Perm (wal_files es) (numbered 1 (files (append_all c rs new_disk)))
    → new_wal true (some es) no_errors
      ≡ opened (record { disk = append_all c rs new_disk; handle = usable })
new_wal-append_all c rs es p =
    new_wal-as_listed (append_all c rs new_disk) es p
    ∙ ap (λ d. opened (record { disk = d; handle = usable }))
        (append_all-as_listed c rs new_disk refl)
