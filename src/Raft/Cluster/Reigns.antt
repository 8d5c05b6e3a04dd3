-- ===== src/Raft/Cluster/Reigns.antt =====
-- The logs of a cluster as prefixes of the logs of its leaders, each kept under its term.
use mathlib.Core.Path.{subst}
use gammaflow.Base.{
  min, ℕ, suc, ◌≤◌, ◌<◌, ◌≡◌, ◌≢◌, ◌⊎◌, inl, inr, refl, sym, ap, ◌∙◌, false, Option, some, List, [],
  ◌∷◌, arith, tests, In, length, take, take_all, take-take, length-take, ltb, Bool-cases,
}
use gammaflow.Raft.Types.{NodeId, Term, LogEntry, follower, leader}
use gammaflow.Raft.Log.{RaftLog, sentinel}
use gammaflow.Raft.Log.View.{IsLog, term_of}
use gammaflow.Raft.Append.Match.{Agree, Built}
use gammaflow.Raft.Node.{Node}
use gammaflow.Raft.Replication.{Round}
use gammaflow.Raft.Replication.CatchUp.{Kin}
use gammaflow.Raft.Cluster.{Append, Cluster}
use gammaflow.Raft.Cluster.Votes.{Votes}
use gammaflow.Raft.Cluster.Leaders.{Elected}

-- A leader, and the log it has or had when its term was over.
pub record Reign : Type 0 where
  pub leader : NodeId
  pub log : List LogEntry

abbrev pub Reigns : Type 0
Reigns = Term → Option Reign

-- The entries up to place `k` are those of the leader of the term that stands there.
pub record Inherited (reigns : Reigns) (es : List LogEntry) (k : ℕ) : Type 0 where
  pub reign : Reign
  pub of_term : reigns (term_of es k) ≡ some reign
  pub within : k < length reign.log
  pub same : take (suc k) es ≡ take (suc k) reign.log

pub record Genuine (reigns : Reigns) (l : RaftLog) : Type 0 where
  pub fits : IsLog l
  pub first : take 1 l.entries ≡ sentinel ∷ []
  pub inherited : (k : ℕ) → 0 < k → k < length l.entries → Inherited reigns l.entries k

-- The reign of a term goes on: the same leader, with a log that may have grown.
pub record Continues (old : Reign) (reigns : Reigns) (t : Term) : Type 0 where
  pub reign : Reign
  pub of_term : reigns t ≡ some reign
  pub leader : reign.leader ≡ old.leader
  pub grown : take (length old.log) reign.log ≡ old.log

abbrev pub Extends : Reigns → Reigns → Type 0
Extends reigns reigns' = (t : Term) (r : Reign) → reigns t ≡ some r → Continues r reigns' t

pub Extends-refl : (reigns : Reigns) → Extends reigns reigns
Extends-refl reigns t r h = record {
  reign = r;
  of_term = h;
  leader = refl;
  grown = take_all (length r.log) r.log (omega arith);
}

module _ {reigns reigns' : Reigns} (more : Extends reigns reigns') where
  Inherited-Extends : (es : List LogEntry) (k : ℕ) → Inherited reigns es k → Inherited reigns' es k
  Inherited-Extends es k h =
      let c = more (term_of es k) h.reign h.of_term in
      let long : length h.reign.log ≤ length c.reign.log =
        omega (arith, ap length c.grown, length-take (length h.reign.log) c.reign.log) in
      record {
        reign = c.reign;
        of_term = c.of_term;
        within = omega (arith, h.within, long);
        same =
            h.same
            ∙ ap (take (suc k)) (sym c.grown)
            ∙ take-take (suc k) (length h.reign.log) c.reign.log (omega (arith, h.within));
      }

  pub Genuine-Extends : (l : RaftLog) → Genuine reigns l → Genuine reigns' l
  Genuine-Extends l g = record {
    fits = g.fits;
    first = g.first;
    inherited = λ k h h'. Inherited-Extends l.entries k (g.inherited k h h');
  }

pub Continues-Extends :
    {r : Reign} {reigns reigns' : Reigns} {t : Term}
    → Extends reigns reigns'
    → Continues r reigns t
    → Continues r reigns' t
Continues-Extends {r} {t = t} more c =
    let d = more t c.reign c.of_term in
    let long : length r.log ≤ length c.reign.log =
      omega (arith, ap length c.grown, length-take (length r.log) c.reign.log) in
    record {
      reign = d.reign;
      of_term = d.of_term;
      leader = d.leader ∙ c.leader;
      grown =
          sym (take-take (length r.log) (length c.reign.log) d.reign.log long)
          ∙ ap (take (length r.log)) d.grown
          ∙ c.grown;
    }

module _ {reigns : Reigns} where
  -- Two inherited places of one term.
  Inherited-same :
      (es fs : List LogEntry) (k : ℕ)
      → Inherited reigns es k
      → Inherited reigns fs k
      → term_of es k ≡ term_of fs k
      → take (suc k) es ≡ take (suc k) fs
  Inherited-same es fs k h h' e =
      let one : h.reign ≡ h'.reign = ground (arith, h.of_term, h'.of_term, ap reigns e) in
      h.same ∙ ap (λ r. take (suc k) r.log) one ∙ sym h'.same

  pub Genuine-Agree :
      (l m : RaftLog) → Genuine reigns l → Genuine reigns m → Agree l.entries m.entries
  Genuine-Agree l m g h k inside inside' e = elim (Bool-cases (ltb 0 k)) [
    | inl later ↦
        Inherited-same l.entries m.entries k (g.inherited k (omega tests) inside)
          (h.inherited k (omega tests) inside') e
    | inr start ↦
        let zeroth : k ≡ 0 = omega tests in
        subst (λ j. take (suc j) l.entries ≡ take (suc j) m.entries) (sym zeroth)
          (g.first ∙ sym h.first)
  ]

-- Shorter beginnings of equal beginnings.
take-shorter :
    (m k : ℕ) (xs ys : List LogEntry) → m ≤ k → take k xs ≡ take k ys → take m xs ≡ take m ys
take-shorter m k xs ys h same = sym (take-take m k xs h) ∙ ap (take m) same ∙ take-take m k ys h

module _ {reigns : Reigns} (l m : RaftLog) (g : Genuine reigns l) (h : Genuine reigns m) where
  Kin-later :
      (a b : ℕ)
      → 0 < a
      → 0 < b
      → a < length l.entries
      → b < length m.entries
      → term_of l.entries a ≡ term_of m.entries b
      → take (suc (min a b)) l.entries ≡ take (suc (min a b)) m.entries
  Kin-later a b a_later b_later a_in b_in e =
      let i = g.inherited a a_later a_in in
      let j = h.inherited b b_later b_in in
      let one : i.reign ≡ j.reign = ground (arith, i.of_term, j.of_term, ap reigns e) in
      take-shorter (suc (min a b)) (suc a) l.entries i.reign.log (omega arith) i.same
      ∙ ap (λ r. take (suc (min a b)) r.log) one
      ∙ sym (take-shorter (suc (min a b)) (suc b) m.entries j.reign.log (omega arith) j.same)

  pub Genuine-Kin : Kin l.entries m.entries
  Genuine-Kin a b a_in b_in e = elim (Bool-cases (ltb 0 (min a b))) [
    | inl later ↦ Kin-later a b (omega tests) (omega tests) a_in b_in e
    | inr start ↦
        let zeroth : min a b ≡ 0 = omega tests in
        subst (λ j. take (suc j) l.entries ≡ take (suc j) m.entries) (sym zeroth)
          (g.first ∙ sym h.first)
  ]

-- The log of a sender that was built into the message, on the way from the leader of its term.
pub record Sent (reigns : Reigns) (m : Append) : Type 0 where
  pub genuine : Genuine reigns m.log
  pub built : Built m.args m.log
  pub reign : Continues (record { leader = m.leader; log = [] }) reigns m.args.term
  pub apart : m.follower ≢ m.leader

pub record Rounded (reigns : Reigns) (i : NodeId) (r : Round) : Type 0 where
  pub reign : Continues (record { leader = i; log = [] }) reigns r.term
  pub apart : (p : NodeId) → In p r.peers → p ≢ i

-- The reign of the term is that of the node, which has left it only for a greater term.
abbrev pub IsPast : Node → Term → Type 0
IsPast n t = (t < n.current_term) ⊎ ((n.current_term ≡ t) × (n.state ≡ leader))

pub record Rightful (members : List NodeId) (s : Cluster) (reigns : Reigns) : Type 0 where
  pub votes : Votes false members s
  pub active : (i : NodeId) → (s.nodes i).state ≢ follower → In i members
  pub leads :
      (i : NodeId)
      → (s.nodes i).state ≡ leader
      → reigns (s.nodes i).current_term
        ≡ some (record { leader = i; log = (s.nodes i).log.entries })
  pub elected : (t : Term) (r : Reign) → reigns t ≡ some r → Elected members s.votes r.leader t
  pub past : (t : Term) (r : Reign) → reigns t ≡ some r → IsPast (s.nodes r.leader) t
  pub logs : (i : NodeId) → Genuine reigns (s.nodes i).log
  pub rounds : (i : NodeId) (r : Round) → In (i, r) s.rounds → Rounded reigns i r
  pub appends : (m : Append) → In m s.appends → Sent reigns m
