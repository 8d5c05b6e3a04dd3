-- ===== src/Kvstore/Replicas.antt =====
-- The stores of the nodes of a cluster: `applyLoop` and the consumer of cmd/server/main.go at each.
use mathlib.Core.Path.{subst}
use gammaflow.Base.{
  suc, ◌≤◌, ◌<◌, ◌≡◌, refl, sym, ap, ◌∙◌, false, some, List, arith, map, take, update_self,
}
use gammaflow.Raft.Types.{NodeId, LogIndex, LogEntry}
use gammaflow.Raft.Node.{Node}
use gammaflow.Raft.Apply.{Batch, collect, delivered}
use gammaflow.Raft.Cluster.{Cluster, set, applied, Reach, here, next}
use gammaflow.Raft.Cluster.Leaders.{Starts}
use gammaflow.Raft.Cluster.LogMatching.{Empty}
use gammaflow.Raft.Completeness.Safety.{
  Fresh, state_machine_safety, committed_stays, log_fits, committed_inside,
}
use gammaflow.Kvstore.Codec.{CommandCodec}
use gammaflow.Kvstore.{KvStore, new_kv_store, consume_all}
use gammaflow.Kvstore.Applied.{store_at, up_to, up_to-take, apply_loop_refines}

-- The store of a node on the way from the start of the cluster to a later state, after its apply
-- loop has handed over the entries up to an index. A turn collects under the first hold of the
-- mutex, where `last_applied` is as the loop left it, and delivers under the second; the cluster
-- goes on in between.
pub data Replica (members : List NodeId) (c : CommandCodec) (s : Cluster) (i : NodeId)
    : Cluster → LogIndex → KvStore → Type 0 where
  begins : Replica members c s i s 0 new_kv_store
  goes_on :
      {t u : Cluster} {k : LogIndex} {x : KvStore}
      → Replica members c s i t k x
      → Reach false members t u
      → Replica members c s i u k x
  turn :
      {t u : Cluster} {k : LogIndex} {x : KvStore} {b : Batch}
      → Replica members c s i t k x
      → (t.nodes i).last_applied ≡ k
      → collect (t.nodes i) ≡ some (some b)
      → Reach false members t u
      → Replica members c s i
          (set i (delivered b (u.nodes i)) u)
          b.new_last_applied
          (consume_all c (map (λ e. e.command) b.entries) x)

pub Reach-trans :
    {members : List NodeId} {s t u : Cluster}
    → Reach false members s t
    → Reach false members t u
    → Reach false members s u
Reach-trans run here = run
Reach-trans run (next more h) = next (Reach-trans run more) h

collect-ahead :
    (n : Node) {b : Batch}
    → collect n ≡ some (some b)
    → (n.last_applied < n.commit_index) × (b.new_last_applied ≡ n.commit_index)
unfolding collect
collect-ahead n h = ground (arith, h)

store_at-same :
    (c : CommandCodec) (k : LogIndex) (es fs : List LogEntry)
    → take (suc k) es ≡ take (suc k) fs
    → store_at c k es ≡ store_at c k fs
store_at-same c k es fs same =
    let same' : up_to k es ≡ up_to k fs =
      sym (up_to-take k es) ∙ ap (up_to k) same ∙ up_to-take k fs in
    ap (λ l. consume_all c (map (λ e. e.command) l) new_kv_store) same'

module _ (members : List NodeId) (c : CommandCodec) {s : Cluster} (starts : Starts false members s)
    (empty : Empty s) (fresh : Fresh s) (i : NodeId) where
  -- The store is the result of the log up to the index, which is committed.
  record InStep (t : Cluster) (k : LogIndex) (x : KvStore) : Type 0 where
    pub run : Reach false members s t
    pub committed : k ≤ (t.nodes i).commit_index
    pub at : x ≡ store_at c k (t.nodes i).log.entries

  InStep-later :
      {t u : Cluster} {k : LogIndex} {x : KvStore}
      → InStep t k x
      → Reach false members t u
      → InStep u k x
  InStep-later {t} {u} {k} h more =
      let (up, _) = committed_stays members starts empty fresh h.run more i in
      record {
        run = Reach-trans h.run more;
        committed = omega (arith, h.committed, up);
        at =
            h.at
            ∙ store_at-same c k (t.nodes i).log.entries (u.nodes i).log.entries (
                state_machine_safety members starts empty fresh h.run more i i k h.committed
                  (omega (arith, h.committed, up)));
      }

  Replica-InStep :
      {t : Cluster} {k : LogIndex} {x : KvStore} → Replica members c s i t k x → InStep t k x
  unfolding consume_all delivered
  Replica-InStep begins = record { run = here; committed = omega arith; at = refl }
  Replica-InStep (goes_on r h) = InStep-later (Replica-InStep r) h
  Replica-InStep (turn {t} {u} {k} {x} {b} r last collected more) =
      let h = Replica-InStep r in
      let n = t.nodes i in
      let (ahead, new) = collect-ahead n collected in
      let (up, kept) = committed_stays members starts empty fresh h.run more i in
      let (b', collected', done) =
        apply_loop_refines c n (u.nodes i) x (log_fits members starts empty fresh h.run more i)
          ahead (committed_inside members starts empty fresh h.run more i) kept
          (h.at ∙ ap (λ j. store_at c j n.log.entries) (sym last)) in
      let one : b' ≡ b = ground (arith, collected, collected') in
      let here' = update_self u.nodes i (delivered b (u.nodes i)) in
      record {
        run = Reach-trans h.run (next more (applied i b));
        committed = rw here' (omega (arith, new, up));
        at = rw here' (
            subst
              (λ a.
                consume_all c (map (λ e. e.command) a.entries) x
                ≡ store_at c a.new_last_applied (u.nodes i).log.entries)
              one done);
      }

-- Replicas agree: the stores of two nodes, after the apply loops of both have handed over the
-- entries up to the same index, are the same. (The members know each other and have names; the
-- cluster started with empty logs, with nothing sent or committed and next indices of 64 bits; no
-- node crashed, nor stood for election when its term counter would wrap.)
pub replicas_agree :
    (members : List NodeId) (c : CommandCodec) {s t : Cluster}
    → Starts false members s
    → Empty s
    → Fresh s
    → (i j : NodeId) (k : LogIndex) {x y : KvStore} → Replica members c s i t k x
    → Replica members c s j t k y
    → x ≡ y
replicas_agree members c {t = t} starts empty fresh i j k a b =
    let h = Replica-InStep members c starts empty fresh i a in
    let g = Replica-InStep members c starts empty fresh j b in
    h.at
    ∙ store_at-same c k (t.nodes i).log.entries (t.nodes j).log.entries
        (state_machine_safety members starts empty fresh h.run here i j k h.committed g.committed)
    ∙ sym g.at
