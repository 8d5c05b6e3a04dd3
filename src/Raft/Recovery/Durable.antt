-- ===== src/Raft/Recovery/Durable.antt =====
-- The term and the vote that the WAL would give back, and the WAL calls that change them.
use gammaflow.Base.{ℕ, ◌≡◌, ◌≢◌, refl, ap, ◌∙◌, Option, none, some, List, [], ◌∷◌, ◌++◌, arith}
use gammaflow.Storage.Record.{Record, term_record, vote_record, entry_record}
use gammaflow.Storage.Wal
use gammaflow.Storage.Wal.{Wal, persist_term, persist_vote, persist_entry}
use gammaflow.Storage.Replay.{Replayed, nothing, absorb, absorb_all}
use gammaflow.Raft.Types.{Term, NodeId, LogEntry}
use gammaflow.Raft.Node.{Node, wal_after, save_wal_entries}

-- What the records of the WAL are replayed to.
abbrev pub replayed : Wal → Replayed
replayed w = absorb_all w.records nothing

-- There is a WAL of which no write has failed or will, and the records give the term, and the vote if one was cast. (After a
-- change of term the records may still give the vote of an older term.)
abbrev pub Gives : Option Wal → Term → NodeId → Type 0
Gives none term vote = ⊥
Gives (some w) term vote =
    (w.outcomes ≡ []) × ((replayed w).term ≡ term) × (vote ≢ "" → (replayed w).voted_for ≡ vote)

abbrev pub IsDurable : Node → Type 0
IsDurable n = Gives n.wal n.current_term n.voted_for

absorb_all-append :
    (rs : List Record) (r : Record) (s : Replayed)
    → absorb_all (rs ++ r ∷ []) s ≡ absorb r (absorb_all rs s)
absorb_all-append [] r s = refl
absorb_all-append (x ∷ rs) r s = absorb_all-append rs r (absorb x s)

module _ (w : Wal) (good : w.outcomes ≡ []) where
  pub records_after :
      (r : Record)
      → ((Wal.append r w).0.outcomes ≡ []) × ((Wal.append r w).0.records ≡ w.records ++ r ∷ [])
  unfolding Wal.append
  records_after r = ground (arith, good)

  pub replayed_after : (r : Record) → replayed (Wal.append r w).0 ≡ absorb r (replayed w)
  replayed_after r =
      ap (λ rs. absorb_all rs nothing) (records_after r).1 ∙ absorb_all-append w.records r nothing

-- A new term with no vote.
pub Gives-term :
    (o : Option Wal) (t term : Term) (vote : NodeId)
    → Gives o term vote
    → Gives (wal_after (persist_term t) o) t ""
unfolding persist_term absorb
Gives-term none t term vote g = g
Gives-term (some w) t term vote g =
    ground (arith, records_after w g.0 (term_record t), replayed_after w g.0 (term_record t))

-- A vote in the current term.
pub Gives-vote :
    (o : Option Wal) (v : NodeId) (term : Term) (vote : NodeId)
    → Gives o term vote
    → Gives (wal_after (persist_vote v term) o) term v
unfolding persist_vote absorb
Gives-vote none v term vote g = g
Gives-vote (some w) v term vote g =
    ground
      (arith, records_after w g.0 (vote_record v term), replayed_after w g.0 (vote_record v term))

pub Gives-entry :
    (o : Option Wal) (i t : ℕ) (b : List ℕ) (term : Term) (vote : NodeId)
    → Gives o term vote
    → Gives (wal_after (persist_entry i t b) o) term vote
unfolding persist_entry absorb
Gives-entry none i t b term vote g = g
Gives-entry (some w) i t b term vote g =
    ground (
      arith,
      g,
      records_after w g.0 (entry_record i t b),
      replayed_after w g.0 (entry_record i t b),
    )

pub Gives-entries :
    (es : List LogEntry) (o : Option Wal) (term : Term) (vote : NodeId)
    → Gives o term vote
    → Gives (save_wal_entries es o) term vote
unfolding save_wal_entries
Gives-entries [] o term vote g = g
Gives-entries (e ∷ es) o term vote g =
    Gives-entries es (wal_after (persist_entry e.index e.term e.command) o) term vote
      (Gives-entry o e.index e.term e.command term vote g)
