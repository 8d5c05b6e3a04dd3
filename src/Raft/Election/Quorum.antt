-- ===== src/Raft/Election/Quorum.antt =====
-- Two majorities of one cluster have a member in common.
use mathlib.Core.Logic.{∥∥₁_elim}
use mathlib.Core.List.{Perm}
use mathlib.Core.List.{Permᴰ}
use native.Mathlib.Nat.{ℕ_set}
use gammaflow.Base.{
  suc, ◌+◌, ◌<◌, ◌≡◌, inl, inr, refl, ap, ◌∙◌, sym, Bool, Bool-cases, true, List, [], ◌∷◌, arith,
  In, length,
}
use gammaflow.Raft.Types.{NodeId}
use gammaflow.Raft.Election.Campaign.{supporters}

supporters-Permᴰ :
    (m : NodeId → Bool) {ks ls : List NodeId} → Permᴰ ks ls → supporters m ks ≡ supporters m ls
supporters-Permᴰ m Permᴰ.nil = refl
supporters-Permᴰ m (Permᴰ.cons e d) = ground (arith, e, supporters-Permᴰ m d)
supporters-Permᴰ m (Permᴰ.swap e f) = ground (arith, e, f)
supporters-Permᴰ m (Permᴰ.trans c d) = supporters-Permᴰ m c ∙ supporters-Permᴰ m d

-- The order of the members does not matter.
pub supporters-Perm :
    (m : NodeId → Bool) {ks ls : List NodeId} → Perm ks ls → supporters m ks ≡ supporters m ls
supporters-Perm m p = ∥∥₁_elim p (ℕ_set _ _) (supporters-Permᴰ m)

supporters-all : (ks : List NodeId) → supporters (λ _. true) ks ≡ length ks
supporters-all [] = refl
supporters-all (k ∷ ks) = ap suc (supporters-all ks)

pub length-Perm : {ks ls : List NodeId} → Perm ks ls → length ks ≡ length ls
length-Perm {ks} {ls} p =
    sym (supporters-all ks) ∙ supporters-Perm (λ _. true) p ∙ supporters-all ls

-- Two sets that together count more than all members share one.
pub shared_member :
    (m k : NodeId → Bool) (ks : List NodeId)
    → length ks < supporters m ks + supporters k ks
    → (p : NodeId) × In p ks × (m p ≡ true) × (k p ≡ true)
shared_member m k [] h = absurd (omega arith)
shared_member m k (x ∷ ks) h = elim (Bool-cases (m x)) [
  | inl e ↦ elim (Bool-cases (k x)) [
    | inl f ↦ (x, inl refl, e, f)
    | inr f ↦ later m k x ks (shared_member m k ks (ground (arith, h, e, f)))
  ]
  | inr e ↦ later m k x ks (shared_member m k ks (ground (arith, h, e)))
]
  where
    later :
        (m k : NodeId → Bool) (x : NodeId) (ks : List NodeId)
        → ((p : NodeId) × In p ks × (m p ≡ true) × (k p ≡ true))
        → (p : NodeId) × In p (x ∷ ks) × (m p ≡ true) × (k p ≡ true)
    later m k x ks (p, i, e, f) = (p, inr i, e, f)
