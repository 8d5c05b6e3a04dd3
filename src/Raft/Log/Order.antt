-- ===== src/Raft/Log/Order.antt =====
-- Logs whose terms never fall, as every log of a Raft node is.
use gammaflow.Base.{zero, suc, ◌≤◌, ◌<◌, List, [], ◌∷◌, arith, length}
use gammaflow.Raft.Types.{Term, LogIndex, LogEntry}
use gammaflow.Raft.Log.View.{term_of}

abbrev pub TermsFrom : Term → List LogEntry → Type 0
TermsFrom t [] = Unit
TermsFrom t (e ∷ es) = (t ≤ e.term) × TermsFrom t es

abbrev pub TermsUpTo : Term → List LogEntry → Type 0
TermsUpTo t [] = Unit
TermsUpTo t (e ∷ es) = (e.term ≤ t) × TermsUpTo t es

abbrev pub IsSorted : List LogEntry → Type 0
IsSorted [] = Unit
IsSorted (e ∷ es) = TermsFrom e.term es × IsSorted es

TermsFrom-le :
    (t : Term) (es : List LogEntry) (i : LogIndex)
    → TermsFrom t es
    → i < length es
    → t ≤ term_of es i
TermsFrom-le t [] i h p = absurd (omega arith)
TermsFrom-le t (e ∷ es) zero h p = h.0
TermsFrom-le t (e ∷ es) (suc i) h p = TermsFrom-le t es i h.1 (omega arith)

pub TermsUpTo-le :
    (t : Term) (es : List LogEntry) (i : LogIndex) → TermsUpTo t es → term_of es i ≤ t
TermsUpTo-le t [] i h = omega arith
TermsUpTo-le t (e ∷ es) zero h = h.0
TermsUpTo-le t (e ∷ es) (suc i) h = TermsUpTo-le t es i h.1

pub IsSorted-le :
    (es : List LogEntry) (i j : LogIndex)
    → IsSorted es
    → i ≤ j
    → j < length es
    → term_of es i ≤ term_of es j
IsSorted-le [] i j s h p = omega arith
IsSorted-le (e ∷ es) zero zero s h p = omega arith
IsSorted-le (e ∷ es) zero (suc j) s h p = TermsFrom-le e.term es j s.0 (omega arith)
IsSorted-le (e ∷ es) (suc i) zero s h p = absurd (omega arith)
IsSorted-le (e ∷ es) (suc i) (suc j) s h p = IsSorted-le es i j s.1 (omega arith) (omega arith)
