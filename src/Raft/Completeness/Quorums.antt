-- ===== src/Raft/Completeness/Quorums.antt =====
-- Majorities that met: of an entry's holders and a leader's voters one is both.
use gammaflow.Base.{ℕ, suc, length-take, ◌<◌, ap, List, arith, length}
use gammaflow.Raft.Types.{NodeId, Term, LogIndex, LogEntry}
use gammaflow.Raft.Election.Quorum.{shared_member}
use gammaflow.Raft.Cluster.{Cluster}
use gammaflow.Raft.Cluster.Reigns.{Rightful}
use gammaflow.Raft.Completeness.Logs.{inside}
use gammaflow.Raft.Completeness.{World, Alive, Committed, Settled, Complete}

-- A log has what is settled of it.
pub Settled-inside :
    {members : List NodeId} {w : World} (es : List LogEntry) (now : Term) (x : LogIndex)
    → Settled members w es now x
    → x < length es
Settled-inside es now x h =
    let room = inside h.reign.log h.place (omega (arith, h.has)) in
    omega (
      arith,
      ap length h.same,
      length-take (suc x) es,
      length-take (suc x) h.reign.log,
      h.covers,
      room,
    )

module _ {members : List NodeId} {s : Cluster} {w : World} (inv : Rightful members s w.reigns)
    (c : Complete members s w) where
  pub Committed-Alive : (t : Term) (k : ℕ) → Committed members w t k → Alive w t k
  Committed-Alive t k h u r older of_term =
      let elected = c.reigns u r of_term in
      let (q, _, holds, voted) =
        shared_member h.holders (w.masks u) members (omega (arith, h.most, elected.most)) in
      (q, voted, h.acked q holds)
