-- ===== src/Storage/Directory.antt =====
-- internal/storage/wal.go, opening a WAL: `listWALFiles`, `openCurrentFile` and `NewWAL` on a directory
-- that may hold files already.
pub mod Order
pub mod Reopen
use mathlib.Core.Bool.{not}
use gammaflow.Base.{
  ℕ, Bool, true, false, Option, none, some, List, [], ◌∷◌, ◌++◌, ltb, ◌==◌, if◌then◌else◌, ◌||◌,
  length, map,
}
use gammaflow.Storage.Disk.{Disk}
use gammaflow.Storage.Handle.{Wal, usable, Answers}

-- An entry that `ReadDir` returns: whether it is a directory, whether its name has the prefix `wal_`,
-- and the id that `Sscanf` reads in the name. The names of the WAL's files are those that `Sprintf`
-- writes, so that an id stands for a name.
pub record DirEntry : Type 0 where
  pub is_dir : Bool
  pub has_prefix : Bool
  pub scanned : Option ℕ
  pub content : List ℕ

-- `walFile`, with what the file holds for its path.
pub record WalFile : Type 0 where
  pub id : ℕ
  pub content : List ℕ

-- The loop of `listWALFiles`.
unfoldable pub wal_files : List DirEntry → List WalFile
wal_files [] = []
wal_files (e ∷ es) =
    let rest = wal_files es in
    if e.is_dir || not e.has_prefix
    then rest
    else elim e.scanned [ none ↦ rest | some i ↦ record { id = i; content = e.content } ∷ rest ]

unfoldable pub insert_by_id : WalFile → List WalFile → List WalFile
insert_by_id f [] = f ∷ []
insert_by_id f (g ∷ gs) =
    let rest = insert_by_id f gs in if ltb g.id f.id then g ∷ rest else f ∷ g ∷ gs

-- `sort.Slice` by the ids.
unfoldable pub sort_by_id : List WalFile → List WalFile
sort_by_id [] = []
sort_by_id (f ∷ fs) = insert_by_id f (sort_by_id fs)

-- `listWALFiles`; `none` is an error of `ReadDir`.
unfoldable pub list_wal_files : Option (List DirEntry) → Option (List WalFile)
list_wal_files none = none
list_wal_files (some es) = some (sort_by_id (wal_files es))

-- What `NewWAL` returns: the error of the call that failed, or the WAL.
pub data Opening : Type 0 where
  make_failed list_failed open_failed stat_failed : Opening
  opened : Wal → Opening

-- The files in the directory when the last of them is opened, with their ids behind.
unfoldable pub at_last : List (List ℕ) → List WalFile → Disk
at_last older [] = record { older = older; current = []; file_id = 1; file_size = 0 }
at_last older (f ∷ []) = record {
  older = older;
  current = f.content;
  file_id = f.id;
  file_size = length f.content;
}
at_last older (f ∷ g ∷ gs) = at_last (older ++ f.content ∷ []) (g ∷ gs)

-- `openCurrentFile` in `NewWAL`: the last file, or that of id 1, which it creates.
unfoldable pub open_current_file : Answers → Disk → Opening
open_current_file os d =
    if os.opens
    then if os.stats then opened (record { disk = d; handle = usable }) else stat_failed
    else open_failed

unfoldable pub new_wal : Bool → Option (List DirEntry) → Answers → Opening
new_wal false listed os = make_failed
new_wal true listed os = elim (list_wal_files listed) [
  | none ↦ list_failed
  | some fs ↦ open_current_file os (at_last [] fs)
]
