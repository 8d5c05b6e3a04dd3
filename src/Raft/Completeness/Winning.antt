-- ===== src/Raft/Completeness/Winning.antt =====
-- What a vote response does to the bookkeeping of a leader.
use gammaflow.Base.{
  ℕ, ◌<◌, ◌≡◌, ◌≢◌, ◌⊎◌, inl, inr, refl, some, List, [], ◌∷◌, In, arith, update, str_eq, eq_iff,
  Bool-cases, add64,
}
use gammaflow.Raft.Types.{NodeId, Term, LogIndex, RequestVoteReply, candidate, leader}
use gammaflow.Raft.Log.{last_index}
use gammaflow.Raft.Node.{Node}
use gammaflow.Raft.Node.Frame.{
  become_follower-SameData, current_term-become_follower, state-become_follower,
}
use gammaflow.Raft.Election.{init_next, init_match, handle_vote_response, count_vote, become_leader}
use gammaflow.Raft.Completeness.Calm.{IsCalm}

pub update_at :
    (P : LogIndex → Type 0) (f : NodeId → LogIndex) (i j : NodeId) (x : LogIndex)
    → (j ≢ i → P (f j))
    → (j ≡ i → P x)
    → P (update f i x j)
update_at P f i j x old new = elim (Bool-cases (str_eq j i)) [
  | inl e ↦ rw e (new ((eq_iff j i).0 e))
  | inr e ↦ rw e (old (λ same. absurd (ground (arith, (eq_iff j i).1 same, e))))
]

module _ (p : NodeId) where
  -- The loop resets every peer.
  pub init_match-peer :
      (ps : List NodeId) (m : NodeId → LogIndex) → In p ps ⊎ (m p ≡ 0) → init_match ps m p ≡ 0
  unfolding init_match
  init_match-peer [] m (inr h) = h
  init_match-peer [] m (inl h) = absurd h
  init_match-peer (q ∷ qs) m (inl (inr later)) = init_match-peer qs (update m q 0) (inl later)
  init_match-peer (q ∷ qs) m (inl (inl here)) =
      init_match-peer qs (update m q 0)
        (inr (update_at (λ x. x ≡ 0) m q p 0 (λ other. absurd (other here)) (λ _. refl)))
  init_match-peer (q ∷ qs) m (inr h) =
      init_match-peer qs (update m q 0) (inr (update_at (λ x. x ≡ 0) m q p 0 (λ _. h) (λ _. refl)))

pub init_next-below :
    (b : ℕ) (last : LogIndex) (ps : List NodeId) (m : NodeId → LogIndex)
    → last < b
    → ((p : NodeId) → m p < b)
    → (p : NodeId) → init_next last ps m p < b
unfolding init_next
init_next-below b last [] m h all = all
init_next-below b last (q ∷ qs) m h all =
    init_next-below b last qs (update m q last) h
      (λ p. update_at (λ x. x < b) m q p last (λ _. all p) (λ _. h))

-- Nothing of it changes, or the candidate wins and starts it anew.
pub record Answers (n n' : Node) : Type 0 where
  pub commit : n'.commit_index ≡ n.commit_index
  pub peers : n'.peers ≡ n.peers
  pub how :
      ((n'.match_index ≡ n.match_index)
        × (n'.next_index ≡ n.next_index)
        × IsCalm n n'
        × (n'.state ≡ leader → (n.state ≡ leader) × (n'.current_term ≡ n.current_term)))
      ⊎ ((n'.match_index ≡ init_match n.peers n.match_index)
          × (n'.next_index ≡ init_next (add64 (last_index n.log) 1) n.peers n.next_index)
          × (n'.log ≡ n.log)
          × (n.state ≡ candidate)
          × (n'.state ≡ leader)
          × (n'.current_term ≡ n.current_term))

pub handle_vote_response-Answers :
    (t : Term) (p : NodeId) (r : RequestVoteReply) (n : Node)
    → Answers n (handle_vote_response t p (some r) n)
unfolding handle_vote_response count_vote become_leader
handle_vote_response-Answers t p r n = ground (
  arith,
  become_follower-SameData r.term n,
  current_term-become_follower r.term n,
  state-become_follower r.term n,
)
