-- ===== src/Storage/Disk/Rotation.antt =====
-- What `Replay` makes of records that `Append` spread over several files.
use mathlib.Core.List.{append_assoc, append-nil, map-append}
use gammaflow.Base.{
  ℕ, ◌+◌, ◌≡◌, refl, sym, ap, ◌∙◌, Bool-cases, inl, inr, some, List, [], ◌∷◌, ◌++◌, map, ltb,
  length,
}
use gammaflow.Storage.Record.{Record}
use gammaflow.Storage.Codec.{Codec, tag, payload}
use gammaflow.Storage.Frame.{frame}
use gammaflow.Storage.Replay.{Replayed, nothing, absorb_all}
use gammaflow.Storage.Replay.File.{encode, SizesFit, replay-encode}
use gammaflow.Storage.Disk.{
  Disk, new_disk, rotate, synced, append_record, max_wal_size, files, replay_files,
}
use gammaflow.Storage.Disk.Merge.{InOrder, InOrder-append, merge-file}

-- `Append` of each record, when every write succeeds.
abbrev pub append_all : Codec → List Record → Disk → Disk
append_all c [] d = d
append_all c (r ∷ rs) d = append_all c rs (append_record c r synced d).0

abbrev pub concat : List (List Record) → List Record
concat [] = []
concat (g ∷ gs) = g ++ concat gs

-- The files hold the records, each file some of them.
record Holds (c : Codec) (d : Disk) (rs : List Record) : Type 0 where
  groups : List (List Record)
  last : List Record
  older : d.older ≡ map (encode c) groups
  current : d.current ≡ encode c last
  all : rs ≡ concat groups ++ last

encode-append :
    (c : Codec) (rs : List Record) (r : Record)
    → encode c (rs ++ r ∷ []) ≡ encode c rs ++ frame (tag r) (payload c r)
encode-append c [] r = append-nil (frame (tag r) (payload c r))
encode-append c (x ∷ rs) r =
    ap (λ l. frame (tag x) (payload c x) ++ l) (encode-append c rs r)
    ∙ sym (append_assoc (frame (tag x) (payload c x)) (encode c rs) (frame (tag r) (payload c r)))

concat-append : (gs : List (List Record)) (l : List Record) → concat (gs ++ l ∷ []) ≡ concat gs ++ l
concat-append [] l = append-nil l
concat-append (g ∷ gs) l =
    ap (λ t. g ++ t) (concat-append gs l) ∙ sym (append_assoc g (concat gs) l)

append-Holds :
    (c : Codec) (r : Record) (d : Disk) (rs : List Record)
    → Holds c d rs
    → Holds c (append_record c r synced d).0 (rs ++ r ∷ [])
unfolding append_record rotate
append-Holds c r d rs h =
    elim (Bool-cases (ltb max_wal_size (d.file_size + length (frame (tag r) (payload c r))))) [
      | inl full ↦ rw full (record {
        groups = h.groups ++ h.last ∷ [];
        last = r ∷ [];
        older =
            ap (λ l. l ++ d.current ∷ []) h.older
            ∙ ap (λ b. map (encode c) h.groups ++ b ∷ []) h.current
            ∙ sym (map-append (encode c) h.groups (h.last ∷ []));
        current = sym (append-nil (frame (tag r) (payload c r)));
        all = ap (λ l. l ++ r ∷ []) (h.all ∙ sym (concat-append h.groups h.last));
      })
      | inr room ↦ rw room (record {
        groups = h.groups;
        last = h.last ++ r ∷ [];
        older = h.older;
        current =
            ap (λ l. l ++ frame (tag r) (payload c r)) h.current ∙ sym (encode-append c h.last r);
        all = ap (λ l. l ++ r ∷ []) h.all ∙ append_assoc (concat h.groups) h.last (r ∷ []);
      })
    ]

append_all-Holds :
    (c : Codec) (rs ss : List Record) (d : Disk)
    → Holds c d ss
    → Holds c (append_all c rs d) (ss ++ rs)
append_all-Holds c [] ss d h = rw (append-nil ss) h
append_all-Holds c (r ∷ rs) ss d h =
    rw (← append_assoc ss (r ∷ []) rs) (
      append_all-Holds c rs (ss ++ r ∷ []) (append_record c r synced d).0 (append-Holds c r d ss h))

SizesFit-append :
    (c : Codec) (rs ss : List Record) → SizesFit c (rs ++ ss) → SizesFit c rs × SizesFit c ss
SizesFit-append c [] ss f = (tt, f)
SizesFit-append c (r ∷ rs) ss f = let (g, h) = SizesFit-append c rs ss f.1 in ((f.0, g), h)

absorb_all-append :
    (rs ss : List Record) (s : Replayed) → absorb_all (rs ++ ss) s ≡ absorb_all ss (absorb_all rs s)
absorb_all-append [] ss s = refl
absorb_all-append (r ∷ rs) ss s = absorb_all-append rs ss _

-- One more file.
replay_step :
    (c : Codec) (g : List Record) (fs : List (List ℕ)) (s : Replayed)
    → SizesFit c g
    → InOrder s.term g
    → replay_files c (encode c g ∷ fs) s ≡ replay_files c fs (absorb_all g s)
unfolding replay_files
replay_step c g fs s fit o =
    rw (replay_files, replay-encode c g fit) (ap (replay_files c fs) (merge-file g s o))

replay_groups :
    (c : Codec) (gs : List (List Record)) (last : List Record) (s : Replayed)
    → SizesFit c (concat gs ++ last)
    → InOrder s.term (concat gs ++ last)
    → replay_files c (map (encode c) gs ++ encode c last ∷ []) s
      ≡ some (absorb_all (concat gs ++ last) s)
replay_groups c [] last s fit o = replay_step c last [] s fit o ∙ (unfold replay_files in refl)
replay_groups c (g ∷ gs) last s fit o =
    let split = append_assoc g (concat gs) last in
    let (sizes, later) = SizesFit-append c g (concat gs ++ last) (rw split at fit) in
    let (order, after) = InOrder-append g (concat gs ++ last) s (rw split at o) in
    replay_step c g (map (encode c) gs ++ encode c last ∷ []) s sizes order
    ∙ replay_groups c gs last (absorb_all g s) later after
    ∙ ap some
        (sym (absorb_all-append g (concat gs ++ last) s) ∙ ap (λ l. absorb_all l s) (sym split))

-- Rotation loses nothing: of records that were appended one by one to a new WAL, wherever the files
-- were split, `Replay` gives what one reading of the records in their order gives. (Every write
-- succeeds, sizes fit a uint32, terms are positive and do not fall, and votes name a candidate.)
pub replay_files-append_all :
    (c : Codec) (rs : List Record)
    → SizesFit c rs
    → InOrder 0 rs
    → replay_files c (files (append_all c rs new_disk)) nothing ≡ some (absorb_all rs nothing)
replay_files-append_all c rs fit o =
    let empty : Holds c new_disk [] = record {
      groups = [];
      last = [];
      older = refl;
      current = refl;
      all = refl;
    } in
    let h = append_all-Holds c rs [] new_disk empty in
    let same : files (append_all c rs new_disk) ≡ map (encode c) h.groups ++ encode c h.last ∷ [] =
      λ i. h.older i ++ h.current i ∷ [] in
    ap (λ fs. replay_files c fs nothing) same
    ∙ replay_groups c h.groups h.last nothing (rw (← h.all) fit) (rw (← h.all) o)
    ∙ ap (λ l. some (absorb_all l nothing)) (sym h.all)
