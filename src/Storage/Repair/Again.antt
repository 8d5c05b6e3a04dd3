-- ===== src/Storage/Repair/Again.antt =====
-- `Replay` after `Replay`: what the first one truncated is not truncated again.
use gammaflow.Base.{
  ℕ, ◌<◌, ◌≡◌, refl, ap, ◌∙◌, Bool, true, false, Option, none, some, List, [], ◌∷◌, map, length,
  bind-eq-some,
}
use gammaflow.Storage.Codec.{Codec}
use gammaflow.Storage.Frame.{u32_mod}
use gammaflow.Storage.Replay.{
  Replayed, Scanned, out_of_fuel, panicked, done, replay_file, merge_file,
}
use gammaflow.Storage.Replay.Truncated.{replay-truncated}
use gammaflow.Storage.Repair.{Fate, readable, truncate_file, with_file, replay_each}

-- All files can be read, and truncated or not.
abbrev pub all_readable : Bool → List (List ℕ) → List (List ℕ × Fate)
all_readable io fs = map (λ f. (f, readable io)) fs

abbrev pub AllShort : List (List ℕ) → Type 0
AllShort [] = Unit
AllShort (f ∷ fs) = (length f < u32_mod) × AllShort fs

replay_file-truncate_file :
    (c : Codec) (f : List ℕ) (t : Replayed) (offset : Option ℕ) (io : Bool)
    → length f < u32_mod
    → replay_file c f ≡ done t offset
    → (o : Option ℕ) × (replay_file c (truncate_file true offset f) ≡ done t o)
      × (truncate_file io o (truncate_file true offset f) ≡ truncate_file true offset f)
unfolding truncate_file
replay_file-truncate_file c f t none true short h = (none, h, refl)
replay_file-truncate_file c f t none false short h = (none, h, refl)
replay_file-truncate_file c f t (some off) true short h =
    (none, (replay-truncated c f t off short h).1, refl)
replay_file-truncate_file c f t (some off) false short h =
    (none, (replay-truncated c f t off short h).1, refl)

replay_again_done :
    (c : Codec) (f : List ℕ) (fs gs gs' : List (List ℕ)) (s t r r' : Replayed) (o : Option ℕ)
    (io : Bool)
    → replay_file c f ≡ done t o
    → truncate_file io o f ≡ f
    → ((t : Replayed) (gs' : List (List ℕ))
        → replay_each c (all_readable true fs) t ≡ some (r, gs')
        → replay_each c (all_readable io gs') t ≡ some (r, gs'))
    → replay_each c (all_readable true fs) (merge_file s t) ≡ some (r', gs')
    → some (with_file f (r', gs')) ≡ some (r, gs)
    → replay_each c (all_readable io gs) s ≡ some (r, gs)
unfolding replay_each
replay_again_done c f fs gs gs' s t r r' o io again same later first joined =
    let same_result : r' ≡ r = cc joined in
    let same_files : f ∷ gs' ≡ gs = cc joined in
    let rest = later (merge_file s t) gs' (first ∙ ap (λ q. some (q, gs')) same_result) in
    rw (← same_files) (rw (again, replay_each) (rw rest (rw same refl)))

replay_again_step :
    (c : Codec) (f : List ℕ) (fs gs : List (List ℕ)) (s r : Replayed) (io : Bool) (found : Scanned)
    → replay_file c f ≡ found
    → length f < u32_mod
    → ((t : Replayed) (gs' : List (List ℕ))
        → replay_each c (all_readable true fs) t ≡ some (r, gs')
        → replay_each c (all_readable io gs') t ≡ some (r, gs'))
    → replay_each c (all_readable true (f ∷ fs)) s ≡ some (r, gs)
    → replay_each c (all_readable io gs) s ≡ some (r, gs)
unfolding replay_each
replay_again_step c f fs gs s r io out_of_fuel e short later h =
    absurd (cc (rw (e, replay_each) at h))
replay_again_step c f fs gs s r io panicked e short later h = absurd (cc (rw (e, replay_each) at h))
replay_again_step c f fs gs s r io (done t offset) e short later h =
    let f' = truncate_file true offset f in
    let ((r', gs'), first, joined) =
      bind-eq-some (replay_each c (all_readable true fs) (merge_file s t))
        (λ p. some (with_file f' p)) (rw (e, replay_each) at h) in
    let (o, again, same) = replay_file-truncate_file c f t offset io short e in
    replay_again_done c f' fs gs gs' s t r r' o io again same later first joined

-- A `Replay` that can read all files, and truncates those it wants to, leaves files from which the
-- next `Replay` takes the same result, and which that leaves as they are. (The files are shorter
-- than 2^32 bytes, and the first `Replay` does not panic.)
pub replay_again :
    (c : Codec) (fs gs : List (List ℕ)) (s r : Replayed) (io : Bool)
    → AllShort fs
    → replay_each c (all_readable true fs) s ≡ some (r, gs)
    → replay_each c (all_readable io gs) s ≡ some (r, gs)
unfolding replay_each
replay_again c [] gs s r io short h = cc h
replay_again c (f ∷ fs) gs s r io short h =
    replay_again_step c f fs gs s r io (replay_file c f) refl short.0
      (λ t gs' k. replay_again c fs gs' t r io short.1 k) h
