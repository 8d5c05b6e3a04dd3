-- ===== src/Raft/Election/Campaign.antt =====
-- The count of the votes of a candidate.
use gammaflow.Base.{
  In, ℕ, suc, ◌+◌, ◌≡◌, ◌≢◌, inl, inr, refl, sym, ap, ◌∙◌, Bool, true, false, Bool-cases, Option,
  none, some, List, [], ◌∷◌, arith, tests, leb, if◌then◌else◌, length, update, update_self,
  update_ne,
}
use gammaflow.Raft.Types.{NodeId, Term, candidate, RequestVoteArgs, RequestVoteReply}
use gammaflow.Raft.Node.{Node, is_leader_state, reset_election_timer, save_term, save_vote}
use gammaflow.Raft.Node.Frame.{Quiet, SameBallot, become_follower-Quiet}
use gammaflow.Raft.Commit.Advance.{IsMajority}
use gammaflow.Raft.Election.{
  is_candidate_state, majority, stand, start_election, become_leader, count_vote,
  handle_vote_response,
}

-- How many of the nodes a set holds.
abbrev pub supporters : (NodeId → Bool) → List NodeId → ℕ
supporters m [] = 0
supporters m (k ∷ ks) = let rest = supporters m ks in if m k then suc rest else rest

abbrev pub Absent : NodeId → List NodeId → Type 0
Absent p [] = Unit
Absent p (k ∷ ks) = (k ≢ p) × Absent p ks

abbrev pub Distinct : List NodeId → Type 0
Distinct [] = Unit
Distinct (k ∷ ks) = Absent k ks × Distinct ks

pub In-Absent : (p k : NodeId) (ks : List NodeId) → In p ks → Absent k ks → p ≢ k
In-Absent p k [] h a = absurd h
In-Absent p k (x ∷ ks) h a = ground (arith, h, a, In-Absent p k ks)

supporters-none : (ks : List NodeId) → supporters (λ _. false) ks ≡ 0
supporters-none [] = refl
supporters-none (k ∷ ks) = supporters-none ks

module _ (m : NodeId → Bool) (p : NodeId) where
  supporters-Absent :
      (v : Bool) (ks : List NodeId) → Absent p ks → supporters (update m p v) ks ≡ supporters m ks
  supporters-Absent v [] a = refl
  supporters-Absent v (k ∷ ks) a = rw (update_ne m p k v a.0, supporters-Absent v ks a.1) refl

  -- A voter that was not counted yet makes one more.
  supporters-update :
      (ks : List NodeId)
      → Distinct ks
      → In p ks
      → m p ≡ false
      → supporters (update m p true) ks ≡ suc (supporters m ks)
  supporters-update [] d h e = absurd h
  supporters-update (k ∷ ks) d (inl same) e =
      let (here, rest) : (update m p true k ≡ true)
          × (supporters (update m p true) ks ≡ supporters m ks) =
        (rw (← same) (update_self m p true), supporters-Absent true ks (rw same d.0)) in
      rw (here, rest, ← same, e) refl
  supporters-update (k ∷ ks) d (inr later) e =
      rw
        (
          update_ne m p k true (λ q. In-Absent p k ks later d.0 (sym q)),
          supporters-update ks d.1 later e,
        )
        (ground arith)

-- The members of the cluster are distinct; while the node is a candidate, `votes` is the number of
-- members in `votes_received`; if it is the leader, they are a majority.
pub record Campaign (n : Node) : Type 0 where
  pub distinct : Distinct (n.id ∷ n.peers)
  pub counted :
      is_candidate_state n.state ≡ true → n.votes ≡ supporters n.votes_received (n.id ∷ n.peers)
  pub elected :
      is_leader_state n.state ≡ true → IsMajority (supporters n.votes_received (n.id ∷ n.peers)) n

pub supporters-Quiet :
    {n n' : Node}
    → Quiet n n'
    → SameBallot n n'
    → supporters n'.votes_received (n'.id ∷ n'.peers) ≡ supporters n.votes_received (n.id ∷ n.peers)
supporters-Quiet q s = λ i. supporters (s.votes_received i) (q.id i ∷ q.peers i)

-- What starts or wins no campaign keeps the count.
pub Quiet-Campaign : {n n' : Node} → Quiet n n' → Campaign n → Campaign n'
Quiet-Campaign q c = elim q.ballot [
  | inl follows ↦ record {
    distinct = rw (q.id, q.peers) c.distinct;
    counted = rw follows (λ e. absurd (ground (arith, e)));
    elected = rw follows (λ e. absurd (ground (arith, e)));
  }
  | inr s ↦
      let same = supporters-Quiet q s in
      record {
        distinct = rw (q.id, q.peers) c.distinct;
        counted = λ e. s.votes ∙ c.counted (ap is_candidate_state (sym s.state) ∙ e) ∙ sym same;
        elected = λ e.
            omega
              (arith, same, ap length q.peers, c.elected (ap is_leader_state (sym s.state) ∙ e));
      }
]

-- A candidate has its own vote.
pub start_election-Campaign :
    (n : Node) {n' : Node} {args : RequestVoteArgs}
    → start_election n ≡ some (n', args)
    → Campaign n
    → Campaign n'
unfolding start_election stand save_term save_vote reset_election_timer
start_election-Campaign n {n'} h c =
    let fields : (n'.id ≡ n.id)
        × (n'.peers ≡ n.peers)
        × (n'.state ≡ candidate)
        × (n'.votes ≡ 1)
        × (n'.votes_received ≡ update (λ _. false) n.id true) =
      ground (arith, h) in
    let (i, p, state, one, received) = fields in
    let own : supporters (update (λ _. false) n.id true) (n.id ∷ n.peers) ≡ 1 =
      rw
        (
          update_self (λ _. false) n.id true,
          supporters-Absent (λ _. false) n.id true n.peers c.distinct.0,
        )
        (ap suc (supporters-none n.peers)) in
    let same : supporters n'.votes_received (n'.id ∷ n'.peers)
        ≡ supporters (update (λ _. false) n.id true) (n.id ∷ n.peers) =
      λ j. supporters (received j) (i j ∷ p j) in
    record {
      distinct = rw (i, p) c.distinct;
      counted = λ q. one ∙ sym (same ∙ own);
      elected = rw state (λ q. absurd (ground (arith, q)));
    }

count_vote-Campaign :
    (p : NodeId) (n : Node)
    → In p n.peers
    → is_candidate_state n.state ≡ true
    → Campaign n
    → Campaign (count_vote p n)
unfolding count_vote become_leader
count_vote-Campaign p n h k c = elim (Bool-cases (n.votes_received p)) [
  | inl counted ↦ rw counted c
  | inr new ↦
      let members = n.id ∷ n.peers in
      let more : supporters (update n.votes_received p true) members ≡ n.votes + 1 =
        omega (
          arith,
          supporters-update n.votes_received p members c.distinct (inr h) new,
          c.counted k,
        ) in
      rw new (elim (Bool-cases (leb (majority n.peers) (n.votes + 1))) [
        | inl enough ↦ rw enough (record {
          distinct = c.distinct;
          counted = λ q. absurd (ground (arith, q));
          elected = λ q. omega (tests, more);
        })
        | inr few ↦ rw few (record {
          distinct = c.distinct;
          counted = λ q. sym more;
          elected = λ q. absurd (ground (arith, q, k));
        })
      ])
]

pub handle_vote_response-Campaign :
    (t : Term) (p : NodeId) (r : Option RequestVoteReply) (n : Node)
    → In p n.peers
    → Campaign n
    → Campaign (handle_vote_response t p r n)
unfolding handle_vote_response
handle_vote_response-Campaign t p none n h c = c
handle_vote_response-Campaign t p (some r) n h c = ground (
  arith,
  c,
  Quiet-Campaign (become_follower-Quiet r.term n) c,
  λ (k : is_candidate_state n.state ≡ true). count_vote-Campaign p n h k c,
)
