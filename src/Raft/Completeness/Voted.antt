-- ===== src/Raft/Completeness/Voted.antt =====
-- The steps that ask for votes and grant them.
use mathlib.Core.Path.{subst}
use gammaflow.Base.{
  ℕ, ◌+◌, ◌-◌, ◌≤◌, ◌<◌, ◌≡◌, inl, inr, sym, ap, ◌∙◌, true, none, some, List, [], ◌∷◌, In, In-map,
  arith, tests, ltb, Bool-cases, length, update, update_self, u64_mod,
}
use gammaflow.Raft.Types.{NodeId, Term, candidate, RequestVoteArgs, RequestVoteReply}
use gammaflow.Raft.Log.{last_index, last_term}
use gammaflow.Raft.Log.View.{term_of, last_index-eq, last_term-eq}
use gammaflow.Raft.Node.{Node, save_term, save_vote, reset_election_timer}
use gammaflow.Raft.Vote.{handle_request_vote}
use gammaflow.Raft.Vote.Grant.{granted_iff, granted_recorded}
use gammaflow.Raft.Election.{start_election, stand}
use gammaflow.Raft.Run.Reign.{start_election-turn}
use gammaflow.Raft.Cluster.{Cluster, Ask, Vote, cast, asks_of}
use gammaflow.Raft.Cluster.Votes.{vote_for, update-cases}
use gammaflow.Raft.Cluster.Reigns.{Reign, Rightful}
use gammaflow.Raft.Completeness.Logs.{Has}
use gammaflow.Raft.Completeness.{World, Acked, Alive, IsAsk, IsVote, Backs, Complete}
use gammaflow.Raft.Completeness.Moved.{campaigning}
use gammaflow.Raft.Completeness.Calm.{IsCalm, calm-Move}
use gammaflow.Raft.Completeness.Voting.{newer_has}

-- What a candidate tells of its log.
tells :
    (n : Node) {n' : Node} {args : RequestVoteArgs}
    → start_election n ≡ some (n', args)
    → (args.last_log_index ≡ last_index n.log)
      × (last_term n.log ≡ some args.last_log_term)
      × (args.term ≡ n'.current_term)
      × (n'.log ≡ n.log)
unfolding start_election stand save_term save_vote reset_election_timer last_term
tells n h = ground (arith, h)

module _ {members : List NodeId} {s : Cluster} {w : World} (inv : Rightful members s w.reigns)
    (c : Complete members s w) where
  -- What a node acknowledged it has, as long as it may be committed.
  pub acked_has :
      (i : NodeId) (t : Term) (k : ℕ)
      → Acked w i t k
      → Alive w t k
      → Has (s.nodes i).log.entries t k
  acked_has i t k (inl a) alive = ((c.nodes i).accepted t k a).1 alive
  acked_has i t k (inr l) alive = (c.nodes i).led t t k l (omega arith) alive

  -- Nobody voted for a reign ahead of its own term.
  pub voted_behind :
      (q : NodeId) (u : Term) (r : Reign)
      → w.reigns u ≡ some r
      → w.masks u q ≡ true
      → u ≤ (s.nodes q).current_term
  voted_behind q u r of_term voted =
      (inv.votes.recorded (vote_for q r.leader u) ((c.reigns u r of_term).masked q voted)).behind

  module _ (a : Ask) (sent : In a s.asks) {n : Node} {r : RequestVoteReply}
      (handled : handle_request_vote a.args (s.nodes a.voter) ≡ some (n, r))
      (granted : r.vote_granted ≡ true) where
    abbrev voter : Node
    voter = s.nodes a.voter

    abbrev given : Vote
    given = vote_for a.voter a.candidate a.args.term

    granted-Backs :
        (s.nodes a.candidate).state ≡ candidate
        → (s.nodes a.candidate).current_term ≡ a.args.term
        → w.reigns a.args.term ≡ none
        → n.current_term ≡ a.args.term
        → voter.current_term ≤ n.current_term
        → Backs w given (s.nodes a.candidate).log.entries
    granted-Backs stands now free term grows =
        let mine = inv.logs a.voter in
        let theirs = inv.logs a.candidate in
        let (index, last) = (c.asks a sent).last stands now in
        let d =
          (granted_iff a.args voter handled
              (term_of voter.log.entries (length voter.log.entries - 1))
              (last_term-eq voter.log mine.fits)).0
            granted in
        let size = last_index-eq voter.log mine.fits in
        record {
          has = λ t k older acked alive.
              newer_has inv c voter.log (s.nodes a.candidate).log mine theirs
                (elim d.up_to_date [
                  | inl newer ↦ inl (omega (arith, newer, last))
                  | inr (same, le) ↦ inr (omega (arith, same, last), omega (arith, le, size, index))
                ])
                t k alive (acked_has a.voter t k acked alive);
          below = λ u r' k pos of_term voted at.
              let behind = voted_behind a.voter u r' of_term voted in
              elim (Bool-cases (ltb u a.args.term)) [
                | inl below ↦ omega tests
                | inr same ↦
                    let one : u ≡ a.args.term = omega (tests, behind, grows, term) in
                    absurd (ground (arith, of_term, free, ap w.reigns one))
              ];
        }

  pub cast-IsVote :
      (a : Ask) {n : Node} {r : RequestVoteReply}
      → In a s.asks
      → handle_request_vote a.args (s.nodes a.voter) ≡ some (n, r)
      → IsCalm (s.nodes a.voter) n
      → (v : Vote) → In v (cast a r)
      → IsVote w (update s.nodes a.voter n) v
  cast-IsVote a {n} {r} sent handled calm v new = elim (Bool-cases r.vote_granted) [
    | inr refused ↦ absurd (rw refused at new)
    | inl granted ↦
        let (_, term) = granted_recorded a.args (s.nodes a.voter) handled granted in
        let behind = (c.asks a sent).behind in
        let vote : IsVote w (update s.nodes a.voter n) (vote_for a.voter a.candidate a.args.term) =
          record {
            behind =
                update-cases (λ k. a.args.term ≤ k.current_term) s.nodes a.voter a.candidate n
                  behind (λ _. omega (arith, term));
            backs = λ stands now free.
                campaigning inv c (calm-Move {w = w} {i = a.voter} calm) a.candidate a.args.term
                  (λ k. Backs w (vote_for a.voter a.candidate a.args.term) k.log.entries) behind
                  (λ stood was. granted-Backs a sent handled granted stood was free term calm.grows)
                  (λ _ log.
                    subst (λ l. Backs w (vote_for a.voter a.candidate a.args.term) l.entries) log)
                  stands now;
          } in
        elim (rw granted at new) [
          | inl e ↦ subst (IsVote w (update s.nodes a.voter n)) (sym e) vote
          | inr nothing ↦ absurd nothing
        ]
  ]

  module _ (i : NodeId) {n : Node} {args : RequestVoteArgs}
      (fits : (s.nodes i).current_term + 1 < u64_mod)
      (started : start_election (s.nodes i) ≡ some (n, args)) where
    pub stands-IsCalm : IsCalm (s.nodes i) n
    stands-IsCalm =
        let (stands, later, log) = start_election-turn (s.nodes i) fits started in
        record { log = log; grows = omega (arith, later); stood = λ _. inl later }

    pub stands-IsAsk : (a : Ask) → In a (asks_of i args n.peers) → IsAsk (update s.nodes i n) a
    stands-IsAsk a new =
        let (index, last, term, log) = tells (s.nodes i) started in
        let mine = inv.logs i in
        let es = (s.nodes i).log.entries in
        let same : args.last_log_term ≡ term_of es (length es - 1) =
          ground (arith, last, last_term-eq (s.nodes i).log mine.fits) in
        let (p, _, e) =
          In-map (λ p. record { candidate = i; voter = p; args = args }) n.peers a new in
        let here = update_self s.nodes i n in
        subst (IsAsk (update s.nodes i n)) (sym e) (record {
          behind = rw here (omega (arith, term));
          last = rw here (λ _ _. rw log (index ∙ last_index-eq (s.nodes i).log mine.fits, same));
        })

    pub stands-IsVote :
        (v : Vote) → In v (vote_for i i args.term ∷ []) → IsVote w (update s.nodes i n) v
    stands-IsVote v new =
        let (_, _, term, log) = tells (s.nodes i) started in
        let (_, later, _) = start_election-turn (s.nodes i) fits started in
        let own : IsVote w (update s.nodes i n) (vote_for i i args.term) = record {
          behind = rw (update_self s.nodes i n) (omega (arith, term));
          backs = λ _ _ _. record {
            has = λ t k older acked alive.
                rw (update_self s.nodes i n, log) (acked_has i t k acked alive);
            below = λ u r k pos of_term voted at.
                omega (arith, voted_behind i u r of_term voted, later, term);
          };
        } in
        elim new [
          | inl e ↦ subst (IsVote w (update s.nodes i n)) (sym e) own
          | inr nothing ↦ absurd nothing
        ]
