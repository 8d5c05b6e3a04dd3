-- ===== src/Raft/Cluster/Elections.antt =====
-- Elections of a cluster: the steps that cast and count votes, and who may lead.
use mathlib.Core.Path.{subst}
use gammaflow.Raft.Run.Quiet.{handle_request_vote-Quiet}
use gammaflow.Base.{
  ◌+◌, ◌<◌, ◌≡◌, ◌≢◌, ◌⊎◌, inl, inr, refl, sym, ap, ◌∙◌, Bool, Bool-cases, true, false, some, List,
  [], ◌∷◌, arith, In, In-map, In-left, eq_iff, update, update_self, u64_mod,
}
use gammaflow.Raft.Types.{NodeId, Term, follower, RequestVoteArgs, RequestVoteReply}
use gammaflow.Raft.Node.{Node, save_term, save_vote, reset_election_timer}
use gammaflow.Raft.Node.Frame.{state-become_follower, become_follower-SameData}
use gammaflow.Raft.Vote.{handle_request_vote}
use gammaflow.Raft.Vote.Grant.{granted_recorded}
use gammaflow.Raft.Election.{stand, start_election, count_vote, become_leader, handle_vote_response}
use gammaflow.Raft.Election.Campaign.{start_election-Campaign, handle_vote_response-Campaign}
use gammaflow.Raft.Run.Votes.{
  start_election-VoteKept, handle_request_vote-VoteKept, handle_vote_response-VoteKept,
}
use gammaflow.Raft.Recovery.Handlers.{
  start_election-IsDurable, handle_request_vote-IsDurable, handle_vote_response-IsDurable,
}
use gammaflow.Raft.Cluster.{Cluster, Ask, Ballot, Vote, set, asks_of, stands, cast, answers}
use gammaflow.Raft.Cluster.Votes.{
  IsCast, Asked, Votes, Votes-asks, Votes-ballot, Quiet-Advance, vote_for, Advance, advance,
  update-cases,
}

-- What `startElection` makes of a node, and the request that it sends.
stands_for :
    (n : Node) {n' : Node} {args : RequestVoteArgs}
    → start_election n ≡ some (n', args)
    → (n'.id ≡ n.id)
      × (n'.peers ≡ n.peers)
      × (args.term ≡ n'.current_term)
      × (args.candidate_id ≡ n.id)
      × (n'.voted_for ≡ n.id)
      × (n'.votes_received ≡ update (λ _. false) n.id true)
unfolding start_election stand save_term save_vote reset_election_timer
stands_for n h = ground (arith, h)

-- What a response to a vote request leaves of a campaign.
handle_vote_response-counts :
    (t : Term) (p : NodeId) (r : RequestVoteReply) (n : Node) (q : NodeId)
    → let n' = handle_vote_response t p (some r) n in
      n'.state ≢ follower
      → n'.votes_received q ≡ true
      → (n.state ≢ follower)
        × (n'.id ≡ n.id)
        × (n'.current_term ≡ n.current_term)
        × ((n.votes_received q ≡ true) ⊎ ((q ≡ p) × (r.vote_granted ≡ true) × (n.current_term ≡ t)))
unfolding handle_vote_response count_vote become_leader
handle_vote_response-counts t p r n q c v =
    ground (arith, c, v, state-become_follower r.term n, eq_iff q p)

handle_vote_response-members :
    (t : Term) (p : NodeId) (r : RequestVoteReply) (n : Node)
    → let n' = handle_vote_response t p (some r) n in (n'.id ≡ n.id) × (n'.peers ≡ n.peers)
unfolding handle_vote_response count_vote become_leader
handle_vote_response-members t p r n = ground (arith, become_follower-SameData r.term n)

only_new : {A : Type 0} (P : A → Type 0) (a b : A) → P a → In b (a ∷ []) → P b
only_new P a b h (inl e) = subst P (sym e) h
only_new P a b h (inr none) = absurd none

-- A response that says granted is that of a voter who voted for the candidate.
cast-granted :
    (a : Ask) (r : RequestVoteReply)
    → r.vote_granted ≡ true
    → In (vote_for a.voter a.candidate a.args.term) (cast a r)
cast-granted a r g = rw g (inl refl)

cast-IsCast :
    (a : Ask) (n : Node) {n' : Node} {r : RequestVoteReply}
    → handle_request_vote a.args n ≡ some (n', r)
    → a.args.candidate_id ≡ a.candidate
    → a.candidate ≢ ""
    → (v : Vote) → In v (cast a r)
    → IsCast a.voter n' v
cast-IsCast a n {n'} {r} h candidate named v new = elim (Bool-cases r.vote_granted) [
  | inl g ↦
      let (voted, term) = granted_recorded a.args n h g in
      only_new (IsCast a.voter n') (vote_for a.voter a.candidate a.args.term) v
        (refl, sym term, sym (voted ∙ candidate), named) (rw g at new)
  | inr refused ↦ absurd (rw refused at new)
]

own_voter : (p i : NodeId) → update (λ _. false) i true p ≡ true → p ≡ i
own_voter p i h = ground (arith, h, eq_iff p i)

module _ {faults : Bool} {members : List NodeId} {s : Cluster} (inv : Votes faults members s) where
  -- A candidate stands, and votes for itself.
  pub Votes-stands :
      (i : NodeId) {n : Node} {args : RequestVoteArgs}
      → In i members
      → (s.nodes i).current_term + 1 < u64_mod
      → start_election (s.nodes i) ≡ some (n, args)
      → Votes faults members (stands i n s args)
  Votes-stands i {n} {args} member fits h =
      let (id, peers, term, candidate, voted, received) = stands_for (s.nodes i) h in
      let own : n.id ≡ i = id ∙ inv.named i in
      let v : Vote = vote_for i i args.term in
      let a : Advance faults members s i n (v ∷ []) = record {
        id = id;
        peers = peers;
        kept = start_election-VoteKept (s.nodes i) fits h;
        campaign = λ m. start_election-Campaign (s.nodes i) h (inv.campaign i m);
        durable = λ f. start_election-IsDurable (s.nodes i) h (inv.durable f i);
        backed = λ p _ counted.
            let self : p ≡ i =
              own_voter p (s.nodes i).id (ap (λ m. m p) (sym received) ∙ counted) ∙ inv.named i in
            inl (λ k. vote_for (self k) (own k) (sym term k));
        cast = λ w.
            only_new (IsCast i n) v w
              (refl, term, sym (voted ∙ inv.named i), inv.members_named i member);
      } in
      Votes-asks (asks_of i args n.peers)
        (λ b sent.
          let (p, peer, e) =
            In-map (λ p. record { candidate = i; voter = p; args = args }) n.peers b sent in
          subst (Asked (set i n s)) (sym e) (
            candidate ∙ inv.named i,
            inv.members_named i member,
            rw (update_self s.nodes i n) peer,
          ))
        (advance inv a)

  -- A voter answers, and may have granted its vote.
  pub Votes-answers :
      (a : Ask) {n : Node} {r : RequestVoteReply}
      → In a s.asks
      → handle_request_vote a.args (s.nodes a.voter) ≡ some (n, r)
      → Votes faults members (answers a n r s)
  Votes-answers a {n} {r} sent h =
      let (candidate, named, peer) = inv.asked a sent in
      let v : Vote = vote_for a.voter a.candidate a.args.term in
      let kept = handle_request_vote-VoteKept a.args (s.nodes a.voter) h in
      let quiet = handle_request_vote-Quiet a.args (s.nodes a.voter) h in
      let next =
        Quiet-Advance inv a.voter kept quiet
          (λ f. handle_request_vote-IsDurable a.args (s.nodes a.voter) h (inv.durable f a.voter)) in
      Votes-ballot
        (record { voter = a.voter; candidate = a.candidate; term = a.args.term; reply = r })
        (update-cases (λ m. In a.voter m.peers) s.nodes a.voter a.candidate n peer
          (λ e. rw quiet.peers (subst (λ k. In a.voter (s.nodes k).peers) e peer)))
        (λ g. In-left v (cast a r) s.votes (cast-granted a r g))
        (advance inv (next (cast a r) (cast-IsCast a (s.nodes a.voter) h candidate named)))

  -- A candidate counts a response.
  pub Votes-counts :
      (b : Ballot)
      → In b s.ballots
      → Votes faults members (
          set b.candidate
            (handle_vote_response b.term b.voter (some b.reply) (s.nodes b.candidate))
            s)
  Votes-counts b sent =
      let m = s.nodes b.candidate in
      let (id, peers) = handle_vote_response-members b.term b.voter b.reply m in
      advance {news = []} inv (record {
        id = id;
        peers = peers;
        kept = handle_vote_response-VoteKept b.term b.voter (some b.reply) m;
        campaign = λ h.
            handle_vote_response-Campaign b.term b.voter (some b.reply) m (inv.from_peers b sent)
              (inv.campaign b.candidate h);
        durable = λ f.
            handle_vote_response-IsDurable b.term b.voter (some b.reply) m
              (inv.durable f b.candidate);
        backed = λ q campaigns counted.
            let (was, _, term, how) =
              handle_vote_response-counts b.term b.voter b.reply m q campaigns counted in
            rw (id, term)
              (elim how [
                | inl before ↦ inv.backed b.candidate q was before
                | inr (p, granted, same) ↦
                    subst (λ v. In v s.votes)
                      (λ k. vote_for (sym p k) (sym (inv.named b.candidate) k) (sym same k))
                      (inv.granted b sent granted)
              ]);
        cast = λ v new. absurd new;
      })
