-- ===== src/Raft/Completeness/Logs.antt =====
-- Entries of a term at a place of a log, and logs that begin alike.
use gammaflow.Base.{
  ℕ, suc, ◌≤◌, ◌<◌, ◌≡◌, inl, inr, sym, ap, ◌∙◌, some, List, arith, tests, ltb, Bool-cases,
  get_elem?, length, take, take-take, take_all, length-take,
}
use gammaflow.Raft.Types.{Term, LogEntry}
use gammaflow.Raft.Log.{RaftLog}
use gammaflow.Raft.Log.View.{term_of, term_of-out, term_of-take}
use gammaflow.Raft.Cluster.Reigns.{Reign, Reigns, Genuine}
use gammaflow.Raft.Cluster.Matching.{first_term}

-- The entry at place `k` has term `t`; the sentinel does not count.
abbrev pub Has : List LogEntry → Term → ℕ → Type 0
Has es t k = (0 < t) × (term_of es k ≡ t)

abbrev pub Prefix : List LogEntry → List LogEntry → Type 0
Prefix es fs = take (length es) fs ≡ es

abbrev pub Sorted : List LogEntry → Type 0
Sorted es = (i j : ℕ) → i ≤ j → j < length es → term_of es i ≤ term_of es j

abbrev pub Numbered : List LogEntry → Type 0
Numbered es = (k : ℕ) (e : LogEntry) → get_elem? es k ≡ some e → e.index ≡ k

pub inside : (es : List LogEntry) (k : ℕ) → 0 < term_of es k → k < length es
inside es k h = elim (Bool-cases (ltb k (length es))) [
  | inl has ↦ omega tests
  | inr past ↦ absurd (omega (arith, h, term_of-out es k (omega tests)))
]

pub take-shorter :
    (m k : ℕ) (xs ys : List LogEntry) → m ≤ k → take k xs ≡ take k ys → take m xs ≡ take m ys
take-shorter m k xs ys h same = sym (take-take m k xs h) ∙ ap (take m) same ∙ take-take m k ys h

pub term_of-same :
    (m k : ℕ) (xs ys : List LogEntry) → k < m → take m xs ≡ take m ys → term_of xs k ≡ term_of ys k
term_of-same m k xs ys h same =
    sym (term_of-take m k xs h) ∙ ap (λ es. term_of es k) same ∙ term_of-take m k ys h

pub Has-same :
    (m : ℕ) (xs ys : List LogEntry) (t : Term) (k : ℕ)
    → k < m
    → take m xs ≡ take m ys
    → Has xs t k
    → Has ys t k
Has-same m xs ys t k h same has = (has.0, sym (term_of-same m k xs ys h same) ∙ has.1)

-- A prefix as a common beginning.
pub Prefix-take :
    (m : ℕ) (es fs : List LogEntry) → m ≤ length es → Prefix es fs → take m fs ≡ take m es
Prefix-take m es fs h p = sym (take-take m (length es) fs h) ∙ ap (take m) p

pub Prefix-le : (es fs : List LogEntry) → Prefix es fs → length es ≤ length fs
Prefix-le es fs p = omega (arith, ap length p, length-take (length es) fs)

pub Has-Prefix : (es fs : List LogEntry) (t : Term) (k : ℕ) → Prefix es fs → Has es t k → Has fs t k
Has-Prefix es fs t k p has =
    let in_es = inside es k (omega (arith, has)) in
    Has-same (suc k) es fs t k (omega arith) (sym (Prefix-take (suc k) es fs in_es p)) has

pub Prefix-trans : (es fs gs : List LogEntry) → Prefix es fs → Prefix fs gs → Prefix es gs
Prefix-trans es fs gs p q = Prefix-take (length es) fs gs (Prefix-le es fs p) q ∙ p

pub Prefix-refl : (es : List LogEntry) → Prefix es es
Prefix-refl es = take_all (length es) es (omega arith)

-- The leader that made the entry, whose log begins alike.
pub record Origin (reigns : Reigns) (es : List LogEntry) (t : Term) (k : ℕ) : Type 0 where
  pub reign : Reign
  pub of_term : reigns t ≡ some reign
  pub has : Has reign.log t k
  pub same : take (suc k) es ≡ take (suc k) reign.log

pub Genuine-Has :
    {reigns : Reigns} (l : RaftLog) (t : Term) (k : ℕ)
    → Genuine reigns l
    → Has l.entries t k
    → Origin reigns l.entries t k
Genuine-Has {reigns} l t k g has = elim (Bool-cases (ltb 0 k)) [
  | inl later ↦
      let i = g.inherited k (omega tests) (inside l.entries k (omega (arith, has))) in
      record {
        reign = i.reign;
        of_term = ap reigns (sym has.1) ∙ i.of_term;
        has = Has-same (suc k) l.entries i.reign.log t k (omega arith) i.same has;
        same = i.same;
      }
  | inr first ↦
      let zeroth : k ≡ 0 = omega tests in
      absurd (omega (arith, has, ap (term_of l.entries) zeroth, first_term l g))
]
