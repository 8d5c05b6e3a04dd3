-- ===== src/Raft/Completeness/Onto.antt =====
-- What is known after a step: both invariants, and what was settled before.
use mathlib.Core.Path.{subst}
use gammaflow.Base.{
  ◌≤◌, ◌≡◌, ◌⊎◌, inl, sym, ap, ◌∙◌, false, some, List, [], ◌++◌, In, arith, update, update_self,
  add64, u64_mod,
}
use gammaflow.Raft.Types.{NodeId, Term, LogIndex, LogEntry, candidate, leader}
use gammaflow.Raft.Log.{last_index}
use gammaflow.Raft.Node.{Node}
use gammaflow.Raft.Election.{init_next, init_match}
use gammaflow.Raft.Cluster.{Ask, Ballot, Vote, Cluster, set}
use gammaflow.Raft.Cluster.Votes.{Votes, update-cases}
use gammaflow.Raft.Cluster.Leaders.{Elected, leader-Elected}
use gammaflow.Raft.Cluster.Reigns.{Reign, Rightful}
use gammaflow.Raft.Cluster.Onward.{Onward, Rightful-Onward}
use gammaflow.Raft.Cluster.Crowns.{Onward-elected, no_reign, crown_self, two_reigns}
use gammaflow.Raft.Completeness.{World, Settled, IsReign, IsNode, IsAsk, IsVote, Complete}
use gammaflow.Raft.Completeness.Logs.{Prefix, Prefix-refl}
use gammaflow.Raft.Completeness.Moves.{Move, Settled-on}
use gammaflow.Raft.Completeness.Moved.{Complete-move, IsReign-on}
use gammaflow.Raft.Completeness.Calm.{IsCalm, calm-Move}
use gammaflow.Raft.Completeness.Crowned.{won, won-Move, won-IsReign}
use gammaflow.Raft.Completeness.Grown.{grown-IsNode}
use gammaflow.Raft.Completeness.Winning.{init_match-peer, init_next-below}

pub record Onto (members : List NodeId) (s : Cluster) (w : World) (t : Cluster) : Type 0 where
  pub later : World
  pub rightful : Rightful members t later.reigns
  pub complete : Complete members t later
  pub carried :
      (es : List LogEntry) (now : Term) (x : LogIndex)
      → Settled members w es now x
      → Settled members later es now x
  pub commits : (i : NodeId) → (s.nodes i).commit_index ≤ (t.nodes i).commit_index

-- Two names of one reign.
pub same_reign :
    {members : List NodeId} {w : World} {votes : List Vote} (t u : Term) (q r : Reign)
    → w.reigns t ≡ some q
    → t ≡ u
    → w.reigns u ≡ some r
    → IsReign members w votes t q
    → IsReign members w votes u r
same_reign {members} {w} {votes} t u q r at e h known =
    subst (λ v. IsReign members w votes v r) e
      (subst (IsReign members w votes t) (two_reigns at (ap w.reigns e ∙ h)) known)

module _ {members : List NodeId} {s : Cluster} {w : World} (inv : Rightful members s w.reigns)
    (c : Complete members s w) where
  -- Where no node changes.
  pub told-Onto :
      {t : Cluster}
      → Rightful members t w.reigns
      → Complete members t w
      → ((i : NodeId) → (s.nodes i).commit_index ≤ (t.nodes i).commit_index)
      → Onto members s w t
  told-Onto rightful complete commits = record {
    later = w;
    rightful = rightful;
    complete = complete;
    carried = λ es now x h. h;
    commits = commits;
  }

  module _ (i : NodeId) (n : Node) where
    rises :
        (s.nodes i).commit_index ≤ n.commit_index
        → (j : NodeId) → (s.nodes j).commit_index ≤ (update s.nodes i n j).commit_index
    rises up j =
        update-cases (λ m. (s.nodes j).commit_index ≤ m.commit_index) s.nodes i j n (omega arith)
          (λ e. let at = ap (λ k. (s.nodes k).commit_index) e in omega (arith, at, up))

    -- Where a leader's log is its reign's, or nothing became of the reigns.
    pub move-Onto :
        {w' : World}
        → Move w i (s.nodes i) n w'
        → (s.nodes i).commit_index ≤ n.commit_index
        → Onward members s w.reigns i n w'.reigns
        → Votes false members (set i n s)
        → w'.acks ≡ s.acks
        → IsNode members w' i n
        → ((u : Term) (r : Reign)
            → w'.reigns u ≡ some r
            → r.leader ≡ i
            → n.current_term ≡ u
            → r.log ≡ n.log.entries
            → IsReign members w' s.votes u r)
        → Onto members s w (set i n s)
    move-Onto {w'} mv up onward votes acks node reign = record {
      later = w';
      rightful = Rightful-Onward inv onward s.asks s.ballots s.acks [] votes;
      complete =
          Complete-move inv c mv s.asks s.ballots s.acks [] acks node reign (λ a h. inl h)
            (λ v h. absurd h) c.acks;
      carried = λ es now x. Settled-on inv c mv es now now x (omega arith);
      commits = rises up;
    }

    -- Where the node is calm.
    pub calm-Onto :
        (asks : List Ask) (ballots : List Ballot) (news : List Vote)
        → IsCalm (s.nodes i) n
        → (s.nodes i).commit_index ≤ n.commit_index
        → Onward members s w.reigns i n w.reigns
        → let t = record (set i n s) { asks = asks; ballots = ballots; votes = news ++ s.votes } in
          Votes false members t
          → IsNode members w i n
          → ((a : Ask) → In a asks → In a s.asks ⊎ IsAsk (update s.nodes i n) a)
          → ((v : Vote) → In v news → IsVote w (update s.nodes i n) v)
          → Onto members s w t
    calm-Onto asks ballots news calm up onward votes node ask vote =
        let mv = calm-Move {w = w} {i = i} calm in
        told-Onto (Rightful-Onward inv onward asks ballots s.acks news votes)
          (Complete-move inv c mv asks ballots s.acks news c.acked node
            (λ u r h _ _ _. IsReign-on inv c mv news u r h h) ask vote c.acks)
          (rises up)

    -- A calm node, and nothing else.
    pub still-Onto :
        IsCalm (s.nodes i) n
        → (s.nodes i).commit_index ≤ n.commit_index
        → Onward members s w.reigns i n w.reigns
        → Votes false members (set i n s)
        → IsNode members w i n
        → Onto members s w (set i n s)
    still-Onto calm up onward votes node =
        calm-Onto s.asks s.ballots [] calm up onward votes node (λ a h. inl h) (λ v h. absurd h)

    pub won-Onto :
        Votes false members (set i n s)
        → n.log ≡ (s.nodes i).log
        → (s.nodes i).state ≡ candidate
        → n.state ≡ leader
        → n.current_term ≡ (s.nodes i).current_term
        → n.commit_index ≡ (s.nodes i).commit_index
        → n.peers ≡ (s.nodes i).peers
        → n.match_index ≡ init_match (s.nodes i).peers (s.nodes i).match_index
        → n.next_index
          ≡ init_next
              (add64 (last_index (s.nodes i).log) 1)
              (s.nodes i).peers
              (s.nodes i).next_index
        → Onto members s w (set i n s)
    won-Onto votes log stood leads same commit peers matches next =
        let old = s.nodes i in
        let member = inv.active i (λ f. absurd (ground (arith, stood, f))) in
        let free = no_reign inv i n votes stood same leads in
        let here = update_self s.nodes i n in
        let e : Elected members s.votes i n.current_term =
          rw here at (leader-Elected votes i member (rw here leads)) in
        let won' = won inv c i n log stood same leads free e in
        let mv = won-Move inv c i n log stood same leads free e in
        let onward = Onward-elected inv i votes log stood same leads in
        move-Onto mv (omega (arith, commit)) onward votes c.acked
          (grown-IsNode inv c mv
            (subst (λ l. Prefix old.log.entries l.entries) (sym log) (Prefix-refl old.log.entries))
            commit
            (λ _ p peer. inl (
              ap (λ f. f p) matches
              ∙ init_match-peer p old.peers old.match_index (inl (subst (In p) peers peer))))
            (λ p. rw next (
              init_next-below u64_mod (add64 (last_index old.log) 1) old.peers old.next_index
                (omega arith) (c.nodes i).next p)))
          (λ u r h _ now _.
            same_reign n.current_term u won' r (crown_self n.current_term won' w.reigns) now h (
              won-IsReign inv c i n log stood same leads free e
                (omega (arith, same, c.campaigns i stood)) onward.log))
