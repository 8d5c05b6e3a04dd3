-- ===== src/Storage/Handle/Stuck.antt =====
-- A WAL whose file is closed, as `Append` leaves it when a rotation fails.
use mathlib.Core.Bool.{false≢true}
use gammaflow.Base.{
  suc, ◌≡◌, refl, Bool, Bool-cases, inl, inr, true, false, List, [], ◌∷◌, ltb, map, length, ◌+◌,
  ◌⊎◌, sym, ◌∙◌,
}
use gammaflow.Storage.Record.{Record}
use gammaflow.Storage.Codec.{Codec, tag, payload}
use gammaflow.Storage.Frame.{frame}
use gammaflow.Storage.Disk.{Disk, Write, max_wal_size, append_record}
use gammaflow.Storage.Disk
use gammaflow.Storage.Handle.{
  Wal, closed, usable, Answers, append, append_each, rotate, then_write, write_record, close_file,
  open_next_file, created, no_errors,
}

-- A WAL whose file is closed.
abbrev pub shut : Disk → Wal
shut d = record { disk = d; handle = closed }

-- `Append` starts with a rotation.
abbrev pub is_full : Codec → Record → Disk → Bool
is_full c r d = ltb max_wal_size (d.file_size + length (frame (tag r) (payload c r)))

append-shut :
    (c : Codec) (r : Record) (os : Answers) (io : Write) (d : Disk)
    → append c r os io (shut d) ≡ (shut d, false)
unfolding append rotate then_write write_record close_file
append-shut c r os io d = elim (Bool-cases (is_full c r d)) [
  | inl full ↦ rw full refl
  | inr room ↦ rw room refl
]

append_each-shut :
    (c : Codec) (calls : List (Record × Answers × Write)) (d : Disk)
    → append_each c calls (shut d) ≡ (shut d, map (λ _. false) calls)
unfolding append_each
append_each-shut c [] d = refl
append_each-shut c ((r, os, io) ∷ calls) d =
    rw (append-shut c r os io d) (rw (append_each-shut c calls d) refl)

-- A rotation that fails leaves the file closed.
rotate-shut :
    (os : Answers) (w : Wal)
    → ((rotate os w).1 ≡ true) ⊎ ((d : Disk) × (rotate os w ≡ (shut d, false)))
unfolding rotate open_next_file
rotate-shut os w = elim (Bool-cases (close_file os w.handle)) [
  | inl e ↦ elim (Bool-cases os.opens) [
    | inl o ↦ elim (Bool-cases os.stats) [
      | inl s ↦ inl (rw e (rw o (rw s refl)))
      | inr s ↦
          inr (record (created w.disk) { file_id = suc w.disk.file_id }, rw e (rw o (rw s refl)))
    ]
    | inr o ↦ inr (record w.disk { file_id = suc w.disk.file_id }, rw e (rw o refl))
  ]
  | inr e ↦ inr (w.disk, rw e refl)
]

failed_rotation :
    (c : Codec) (r : Record) (os : Answers) (io : Write) (w : Wal)
    → is_full c r w.disk ≡ true
    → (rotate os w).1 ≡ false
    → (d : Disk) × (append c r os io w ≡ (shut d, false))
unfolding append then_write
failed_rotation c r os io w full fails = elim (rotate-shut os w) [
  | inl e ↦ absurd (false≢true (sym fails ∙ e))
  | inr (d, e) ↦ (d, rw full (rw e refl))
]

-- If an `Append` has to rotate and the rotation fails, then it returns an error, and so does every
-- `Append` after it, which changes nothing, whatever the operating system then answers.
pub failed_rotation-stuck :
    (c : Codec) (r : Record) (os : Answers) (io : Write) (calls : List (Record × Answers × Write))
    (w : Wal)
    → is_full c r w.disk ≡ true
    → (rotate os w).1 ≡ false
    → append_each c ((r, os, io) ∷ calls) w
      ≡ ((append c r os io w).0, false ∷ map (λ _. false) calls)
unfolding append_each
failed_rotation-stuck c r os io calls w full fails =
    let (d, e) = failed_rotation c r os io w full fails in
    rw e (rw (append_each-shut c calls d) refl)

-- While the file is open and it can be closed and the next one opened, this `Append` is that of
-- `Disk`.
pub append-no_errors :
    (c : Codec) (r : Record) (io : Write) (d : Disk)
    → append c r no_errors io (record { disk = d; handle = usable })
      ≡ (record { disk = (append_record c r io d).0; handle = usable }, (append_record c r io d).1)
unfolding append rotate then_write write_record close_file open_next_file append_record Disk.rotate
append-no_errors c r io d = elim (Bool-cases (is_full c r d)) [
  | inl full ↦ rw full refl
  | inr room ↦ rw room refl
]
