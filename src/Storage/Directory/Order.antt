-- ===== src/Storage/Directory/Order.antt =====
-- The order of the files of a WAL by their ids: it does not depend on the order in which the directory
-- lists them.
use mathlib.Core.List.{Perm, Permᴰ, Memᴰ, Pairwise, mem-cons_self}
use mathlib.Core.List.Permᴰ
use mathlib.Core.Logic.{◌≢◌, ∥∥₁_elim}
use mathlib.Core.HLevel.{¬_prop, ⊥_prop}
use mathlib.Core.List.Memᴰ
use gammaflow.Base.{ℕ, suc, ◌≡◌, refl, sym, ◌∙◌, List, [], ◌∷◌, arith, ◌≤◌}
use gammaflow.Storage.Directory.{WalFile, insert_by_id, sort_by_id}

abbrev pub Differ : WalFile → WalFile → Type 0
Differ f g = f.id ≢ g.id

insert-swap :
    (f g : WalFile) (hs : List WalFile)
    → Differ f g
    → insert_by_id f (insert_by_id g hs) ≡ insert_by_id g (insert_by_id f hs)
unfolding insert_by_id
insert-swap f g [] d = ground (arith, d)
insert-swap f g (h ∷ hs) d = ground (arith, d, insert-swap f g hs d)

sort-Permᴰ :
    {fs gs : List WalFile} → Permᴰ fs gs → Pairwise Differ fs → sort_by_id fs ≡ sort_by_id gs
unfolding sort_by_id
sort-Permᴰ Permᴰ.nil _ = refl
sort-Permᴰ (Permᴰ.cons e p) (Pairwise.cons _ t) = rw e (rw (sort-Permᴰ p t) refl)
sort-Permᴰ (Permᴰ.swap {a = a} {b = b} {l = l} e₁ e₂) (Pairwise.cons d _) =
    rw e₁ (rw e₂ (insert-swap _ _ (sort_by_id l) (rw e₁ at (rw e₂ at (d b mem-cons_self)))))
sort-Permᴰ (Permᴰ.trans p q) t =
    sort-Permᴰ p t ∙ sort-Permᴰ q (Permᴰ.pairwise (λ f g. ¬_prop) (λ f g d e. d (sym e)) p t)

files_set : IsSet (List WalFile)
files_set = hlevel

pub sort-Perm :
    {fs gs : List WalFile} → Perm fs gs → Pairwise Differ gs → sort_by_id fs ≡ sort_by_id gs
sort-Perm {fs} {gs} p d = ∥∥₁_elim p (files_set _ _) (λ q. sym (sort-Permᴰ (Permᴰ.symm q) d))

-- Files with the ids from one on.
unfoldable pub numbered : ℕ → List (List ℕ) → List WalFile
numbered k [] = []
numbered k (c ∷ cs) = record { id = k; content = c } ∷ numbered (suc k) cs

numbered-Memᴰ : (k : ℕ) (cs : List (List ℕ)) {f : WalFile} → Memᴰ f (numbered k cs) → k ≤ f.id
unfolding numbered
numbered-Memᴰ k [] m = absurd (Memᴰ.not-nil m)
numbered-Memᴰ k (c ∷ cs) (Memᴰ.head e) = rw e (omega arith)
numbered-Memᴰ k (c ∷ cs) (Memᴰ.tail m) = let h = numbered-Memᴰ (suc k) cs m in omega arith

pub numbered-Differ : (k : ℕ) (cs : List (List ℕ)) → Pairwise Differ (numbered k cs)
unfolding numbered
numbered-Differ k [] = Pairwise.nil
numbered-Differ k (c ∷ cs) =
    Pairwise.cons
      (λ f m e. ∥∥₁_elim m ⊥_prop (λ n. let h = numbered-Memᴰ (suc k) cs n in omega arith))
      (numbered-Differ (suc k) cs)

insert-numbered :
    (k : ℕ) (c : List ℕ) (cs : List (List ℕ))
    → insert_by_id (record { id = k; content = c }) (numbered (suc k) cs)
      ≡ record { id = k; content = c } ∷ numbered (suc k) cs
unfolding numbered insert_by_id
insert-numbered k c [] = refl
insert-numbered k c (b ∷ cs) = ground arith

pub sort-numbered : (k : ℕ) (cs : List (List ℕ)) → sort_by_id (numbered k cs) ≡ numbered k cs
unfolding numbered sort_by_id
sort-numbered k [] = refl
sort-numbered k (c ∷ cs) = rw (sort-numbered (suc k) cs) (insert-numbered k c cs)
