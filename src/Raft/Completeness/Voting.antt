-- ===== src/Raft/Completeness/Voting.antt =====
-- A vote is granted to a candidate that has what the voter has.
use mathlib.Core.Path.{subst}
use gammaflow.Base.{
  ℕ, suc, ◌-◌, ◌≤◌, ◌<◌, ◌≡◌, ◌⊎◌, inl, inr, refl, sym, ap, List, arith, tests, ltb, Bool-cases,
  length, take, min,
}
use gammaflow.Raft.Types.{NodeId, Term, LogEntry}
use gammaflow.Raft.Log.{RaftLog}
use gammaflow.Raft.Log.View.{term_of}
use gammaflow.Raft.Cluster.{Cluster}
use gammaflow.Raft.Cluster.Reigns.{Rightful, Genuine, Genuine-Kin}
use gammaflow.Raft.Cluster.Matching.{first_term}
use gammaflow.Raft.Completeness.Logs.{Has, Has-same, inside, Genuine-Has, term_of-same, Sorted}
use gammaflow.Raft.Completeness.{World, Alive, Complete}

module _ {members : List NodeId} {s : Cluster} {w : World} (inv : Rightful members s w.reigns)
    (c : Complete members s w) where
  -- The terms of a log do not fall, since those of the reigns do not.
  pub Genuine-Sorted : (l : RaftLog) → Genuine w.reigns l → Sorted l.entries
  Genuine-Sorted l g a b le room = elim (Bool-cases (ltb 0 (term_of l.entries b))) [
    | inl real ↦
        let o = Genuine-Has l (term_of l.entries b) b g (omega tests, refl) in
        let sorted =
          (c.reigns (term_of l.entries b) o.reign o.of_term).sorted a b le
            (inside o.reign.log b (omega (arith, o.has))) in
        let at = term_of-same (suc b) a l.entries o.reign.log (omega arith) o.same in
        omega (arith, sorted, at, o.has)
    | inr unreal ↦ elim (Bool-cases (ltb 0 a)) [
      | inl later ↦
          let h = g.inherited b (omega tests) room in
          let pos = (c.reigns (term_of l.entries b) h.reign h.of_term).positive in
          absurd (omega (tests, pos))
      | inr start ↦
          let zeroth : a ≡ 0 = omega tests in
          omega (tests, ap (term_of l.entries) zeroth, first_term l g)
    ]
  ]

  -- The log of the candidate ends in a newer term, or in the same term and not before.
  abbrev AsNew : List LogEntry → List LogEntry → Type 0
  AsNew es fs =
      let a = length es - 1 in
      let b = length fs - 1 in
      (term_of es a < term_of fs b) ⊎ ((term_of fs b ≡ term_of es a) × (a ≤ b))

  pub newer_has :
      (l m : RaftLog)
      → Genuine w.reigns l
      → Genuine w.reigns m
      → AsNew l.entries m.entries
      → (t : Term) (k : ℕ) → Alive w t k
      → Has l.entries t k
      → Has m.entries t k
  newer_has l m g h new t k alive has =
      let es = l.entries in
      let fs = m.entries in
      let a = length es - 1 in
      let b = length fs - 1 in
      let room = inside es k (omega (arith, has)) in
      let last = Genuine-Sorted l g k a (omega (arith, room)) (omega (arith, room)) in
      elim new [
        | inl newer ↦
            let u = term_of fs b in
            let o = Genuine-Has m u b h (omega (arith, newer), refl) in
            let r = c.reigns u o.reign o.of_term in
            let theirs = r.has t k (omega (arith, last, has, newer)) alive in
            elim (Bool-cases (ltb b k)) [
              | inr before ↦ Has-same (suc b) o.reign.log fs t k (omega tests) (sym o.same) theirs
              | inl behind ↦
                  let sorted =
                    r.sorted b k (omega tests) (inside o.reign.log k (omega (arith, theirs))) in
                  absurd (omega (arith, sorted, theirs, o.has, last, has, newer))
            ]
        | inr (same, le) ↦
            let kin =
              Genuine-Kin l m g h a b (omega (arith, room)) (omega (arith, h.fits.has_sentinel))
                (sym same) in
            let size : min a b ≡ a = omega (arith, le) in
            Has-same (suc a) es fs t k (omega (arith, room))
              (subst (λ x. take (suc x) es ≡ take (suc x) fs) size kin) has
      ]
