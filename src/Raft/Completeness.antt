-- ===== src/Raft/Completeness.antt =====
-- Why the leaders of a cluster without crashes have every committed entry: the invariant.
pub mod Logs
pub mod Moves
pub mod Kept
pub mod Moved
pub mod Appending
pub mod Following
pub mod Quorums
pub mod Followed
pub mod Calm
pub mod Voting
pub mod Voted
pub mod Crowned
pub mod Grown
pub mod Commanded
pub mod Winning
pub mod Counting
pub mod Reaching
pub mod Counted
pub mod Hints
pub mod Telling
pub mod Onto
pub mod Answered
pub mod Told
pub mod Steps
pub mod Safety
use gammaflow.Base.{
  ℕ, suc, ◌*◌, ◌≤◌, ◌<◌, ◌≡◌, ◌⊎◌, Bool, true, none, some, Option, List, In, get_elem?, length,
  take, drop, u64_mod, ◌-◌,
}
use gammaflow.Raft.Types.{NodeId, Term, LogIndex, LogEntry, candidate, leader}
use gammaflow.Raft.Log.{RaftLog}
use gammaflow.Raft.Log.View.{term_of}
use gammaflow.Raft.Node.{Node}
use gammaflow.Raft.Append.Match.{as_log}
use gammaflow.Raft.Election.Campaign.{supporters}
use gammaflow.Raft.Replication.{Round}
use gammaflow.Raft.Cluster.{Ask, Append, Ack, Vote, Cluster}
use gammaflow.Raft.Cluster.Votes.{vote_for}
use gammaflow.Raft.Cluster.Reigns.{Reign, Reigns, Genuine}
use gammaflow.Raft.Completeness.Logs.{Has, Sorted, Numbered, Prefix}

-- The reigns with those who elected them, and the answers that were given.
pub record World : Type 0 where
  pub reigns : Reigns
  pub masks : Term → NodeId → Bool
  pub acks : List Ack

-- The node accepted a message of the term whose sender had the entry.
pub record Accepted (w : World) (p : NodeId) (t : Term) (k : ℕ) : Type 0 where
  pub ack : Ack
  pub given : In ack w.acks
  pub success : ack.reply.success ≡ true
  pub by : ack.request.follower ≡ p
  pub of_term : ack.request.args.term ≡ t
  pub has : Has ack.request.log.entries t k

-- The node has or had the entry as the leader of term `u`.
pub record Led (w : World) (p : NodeId) (u t : Term) (k : ℕ) : Type 0 where
  pub reign : Reign
  pub of_term : w.reigns u ≡ some reign
  pub leader : reign.leader ≡ p
  pub has : Has reign.log t k

abbrev pub Acked : World → NodeId → Term → ℕ → Type 0
Acked w p t k = Accepted w p t k ⊎ Led w p t t k

-- The entry may still be committed: of those who elected a later leader, one had acknowledged it.
abbrev pub Alive : World → Term → ℕ → Type 0
Alive w t k =
    (u : Term) (r : Reign)
    → t < u
    → w.reigns u ≡ some r
    → (q : NodeId) × (w.masks u q ≡ true) × Acked w q t k

-- More than half of the members acknowledged the entry.
pub record Committed (members : List NodeId) (w : World) (t : Term) (k : ℕ) : Type 0 where
  pub holders : NodeId → Bool
  pub acked : (p : NodeId) → holders p ≡ true → Acked w p t k
  pub most : length members < 2 * supporters holders members

-- Up to the commit index the log is that of a leader, which has a committed entry there or behind.
pub record Settled (members : List NodeId) (w : World) (es : List LogEntry) (now : Term)
    (c : LogIndex) : Type 0 where
  pub term : Term
  pub place : ℕ
  pub not_newer : term ≤ now
  pub covers : c ≤ place
  pub reign : Reign
  pub of_term : w.reigns term ≡ some reign
  pub has : Has reign.log term place
  pub committed : Committed members w term place
  pub same : take (suc c) es ≡ take (suc c) reign.log

-- The commit index that a leader tells goes with a log that has the entry.
pub record Pledged (members : List NodeId) (w : World) (es : List LogEntry) (now : Term)
    (c : LogIndex) : Type 0 where
  pub term : Term
  pub place : ℕ
  pub not_newer : term ≤ now
  pub covers : c ≤ place
  pub has : Has es term place
  pub committed : Committed members w term place

pub record IsReign (members : List NodeId) (w : World) (votes : List Vote) (u : Term) (r : Reign)
    : Type 0 where
  pub positive : 0 < u
  pub sorted : Sorted r.log
  pub up_to : (k : ℕ) → term_of r.log k ≤ u
  pub numbered : Numbered r.log
  pub masked : (q : NodeId) → w.masks u q ≡ true → In (vote_for q r.leader u) votes
  pub most : length members < 2 * supporters (w.masks u) members
  pub has : (t : Term) (k : ℕ) → t < u → Alive w t k → Has r.log t k
  pub genuine : Genuine w.reigns (as_log r.log)

-- The peer has the leader's log up to the index.
pub record Matched (w : World) (p : NodeId) (t : Term) (m : LogIndex) : Type 0 where
  pub ack : Ack
  pub given : In ack w.acks
  pub success : ack.reply.success ≡ true
  pub by : ack.request.follower ≡ p
  pub of_term : ack.request.args.term ≡ t
  pub covers : m < length ack.request.log.entries

pub record IsNode (members : List NodeId) (w : World) (i : NodeId) (n : Node) : Type 0 where
  pub accepted :
      (t : Term) (k : ℕ)
      → Accepted w i t k
      → (t ≤ n.current_term) × (Alive w t k → Has n.log.entries t k)
  pub led : (u t : Term) (k : ℕ) → Led w i u t k → t ≤ u → Alive w t k → Has n.log.entries t k
  pub commit : (n.commit_index ≡ 0) ⊎ Settled members w n.log.entries n.current_term n.commit_index
  pub matches :
      n.state ≡ leader
      → (p : NodeId) → In p n.peers
      → (n.match_index p ≡ 0) ⊎ Matched w p n.current_term (n.match_index p)
  pub next : (p : NodeId) → n.next_index p < u64_mod

-- A message is of the reign of its term: sent in it, or later with a log that has what the reign's
-- log has.
pub record InReign (m : Append) (r : Reign) : Type 0 where
  pub part : Prefix m.log.entries r.log
  pub whole :
      (k : ℕ) → k < length r.log → (term_of r.log k ≡ m.args.term → ⊥) → k < length m.log.entries

pub record IsLate (w : World) (m : Append) (n : Node) (r : Reign) : Type 0 where
  pub over : m.args.term < n.current_term
  pub has :
      (t : Term) (k : ℕ) → t ≤ m.args.term → Alive w t k → Has r.log t k → Has m.log.entries t k

pub record IsMessage (members : List NodeId) (w : World) (f : NodeId → Node) (m : Append)
    : Type 0 where
  pub rest : m.args.entries ≡ drop (suc m.args.prev_log_index) m.log.entries
  pub reign : Reign
  pub of_term : w.reigns m.args.term ≡ some reign
  pub leader : reign.leader ≡ m.leader
  pub source : InReign m reign ⊎ IsLate w m (f m.leader) reign
  pub commit :
      (m.args.leader_commit ≡ 0) ⊎ Pledged members w m.log.entries m.args.term m.args.leader_commit

pub record IsRound (members : List NodeId) (w : World) (r : Round) : Type 0 where
  pub reign : Reign
  pub of_term : w.reigns r.term ≡ some reign
  pub commit : (r.commit_index ≡ 0) ⊎ Pledged members w reign.log r.term r.commit_index

-- A request tells the end of the candidate's log as long as it campaigns.
pub record IsAsk (f : NodeId → Node) (a : Ask) : Type 0 where
  pub behind : a.args.term ≤ (f a.candidate).current_term
  pub last :
      (f a.candidate).state ≡ candidate
      → (f a.candidate).current_term ≡ a.args.term
      → let es = (f a.candidate).log.entries in
        (a.args.last_log_index ≡ length es - 1)
        × (a.args.last_log_term ≡ term_of es (length es - 1))

-- What the vote says of the candidate's log.
pub record Backs (w : World) (v : Vote) (es : List LogEntry) : Type 0 where
  pub has : (t : Term) (k : ℕ) → t < v.term → Acked w v.voter t k → Alive w t k → Has es t k
  pub below :
      (u : Term) (r : Reign) (k : ℕ)
      → 0 < u
      → w.reigns u ≡ some r
      → w.masks u v.voter ≡ true
      → term_of es k ≡ u
      → u < v.term

pub record IsVote (w : World) (f : NodeId → Node) (v : Vote) : Type 0 where
  pub behind : v.term ≤ (f v.candidate).current_term
  pub backs :
      (f v.candidate).state ≡ candidate
      → (f v.candidate).current_term ≡ v.term
      → w.reigns v.term ≡ none
      → Backs w v (f v.candidate).log.entries

pub record IsAck (s : Cluster) (a : Ack) : Type 0 where
  pub sent : In a.request s.appends
  pub hint : a.reply.conflict_index < u64_mod

abbrev pub world : Reigns → (Term → NodeId → Bool) → List Ack → World
world reigns masks acks = record { reigns = reigns; masks = masks; acks = acks }

pub record Complete (members : List NodeId) (s : Cluster) (w : World) : Type 0 where
  pub acked : w.acks ≡ s.acks
  pub reigns : (u : Term) (r : Reign) → w.reigns u ≡ some r → IsReign members w s.votes u r
  pub nodes : (i : NodeId) → IsNode members w i (s.nodes i)
  pub messages : (m : Append) → In m s.appends → IsMessage members w s.nodes m
  pub rounds : (i : NodeId) (r : Round) → In (i, r) s.rounds → IsRound members w r
  pub campaigns : (i : NodeId) → (s.nodes i).state ≡ candidate → 0 < (s.nodes i).current_term
  pub asks : (a : Ask) → In a s.asks → IsAsk s.nodes a
  pub votes : (v : Vote) → In v s.votes → IsVote w s.nodes v
  pub acks : (a : Ack) → In a s.acks → IsAck s a
