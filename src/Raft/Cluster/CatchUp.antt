-- ===== src/Raft/Cluster/CatchUp.antt =====
-- A leader of a cluster brings its log to a peer.
use gammaflow.Base.{ℕ, ◌≤◌, ◌<◌, ◌≡◌, ◌∙◌, sym, false, true, some, List, length, take}
use gammaflow.Raft.Types.{NodeId, leader}
use gammaflow.Raft.Node.{Node}
use gammaflow.Raft.Replication.CatchUp.{turns, turns-covers}
use gammaflow.Raft.Cluster.{Cluster, Reach}
use gammaflow.Raft.Cluster.Leaders.{Starts}
use gammaflow.Raft.Cluster.Reigns.{Genuine-Kin}
use gammaflow.Raft.Cluster.Matching.{first_term}
use gammaflow.Raft.Cluster.LogMatching.{Empty, Reach-Explained, Starts-Rightful}

-- Catching up: if a leader and a peer of it now only exchange the messages of `replicateLog` and
-- their replies, then within as many turns as the next index of the peer says one is accepted,
-- none panics, and the peer has the whole log of the leader. (The cluster started with empty logs
-- and nothing sent, and no node crashed, nor stood for election when its term counter would wrap;
-- the peer's term is not newer; the next index is above 0 and a place of the leader's log.)
pub catches_up :
    (members : List NodeId) {s t : Cluster}
    → Starts false members s
    → Empty s
    → Reach false members s t
    → (i j : NodeId) (k : ℕ) → (t.nodes i).state ≡ leader
    → (t.nodes j).current_term ≤ (t.nodes i).current_term
    → 0 < (t.nodes i).next_index j
    → (t.nodes i).next_index j < length (t.nodes i).log.entries
    → (t.nodes i).next_index j ≤ k
    → (n : Node) × (f : Node) × (turns j k (t.nodes i) (t.nodes j) ≡ some (n, f, true))
      × (n.log ≡ (t.nodes i).log)
      × (take (length (t.nodes i).log.entries) f.log.entries ≡ (t.nodes i).log.entries)
catches_up members {t = t} starts empty run i j k l le above inside few =
    let (reigns, _, inv) = Reach-Explained run (Starts-Rightful starts empty) in
    let mine = inv.logs i in
    let theirs = inv.logs j in
    turns-covers k j (t.nodes i) (t.nodes j) l mine.fits theirs.fits above inside
      (Genuine-Kin (t.nodes j).log (t.nodes i).log theirs mine) le
      (first_term (t.nodes j).log theirs ∙ sym (first_term (t.nodes i).log mine)) few
