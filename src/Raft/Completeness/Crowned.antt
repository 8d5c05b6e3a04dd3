-- ===== src/Raft/Completeness/Crowned.antt =====
-- The steps that change a reign: a candidate wins, or a leader takes a command.
use mathlib.Core.Path.{subst}
use gammaflow.Base.{
  ℕ, suc, ◌≤◌, ◌<◌, ◌≡◌, ◌≢◌, inl, inr, refl, sym, ap, ◌∙◌, Bool, true, none, some, List, [], ◌∷◌,
  arith, tests, ltb, ◌==◌, if◌then◌else◌, ==→eq, Bool-cases, get_elem?, get_elem?-lt,
  get_elem?-take,
}
use gammaflow.Raft.Types.{NodeId, Term, candidate, leader}
use gammaflow.Raft.Log.{RaftLog, sentinel}
use gammaflow.Raft.Log.View.{term_of}
use gammaflow.Raft.Node.{Node}
use gammaflow.Raft.Election.Quorum.{shared_member}
use gammaflow.Raft.Cluster.{Cluster}
use gammaflow.Raft.Cluster.Votes.{vote_for}
use gammaflow.Raft.Cluster.Leaders.{Elected}
use gammaflow.Raft.Cluster.Reigns.{Reign, Rightful, Genuine}
use gammaflow.Raft.Cluster.Crowns.{crown, crown_self, crown_other, crown_inv}
use gammaflow.Raft.Completeness.Logs.{Prefix-refl, Numbered, Genuine-Has}
use gammaflow.Raft.Completeness.{World, IsReign, Backs, Complete, world}
use gammaflow.Raft.Completeness.Moves.{Move, Acked-old, Alive-old}
use gammaflow.Raft.Completeness.Voting.{Genuine-Sorted}

abbrev pub masks_with : Term → (NodeId → Bool) → (Term → NodeId → Bool) → Term → NodeId → Bool
masks_with t m masks u = if u == t then m else masks u

-- The world with the reign of one term set anew.
abbrev pub crowned_world : Term → Reign → (NodeId → Bool) → World → World
crowned_world t r m w = world (crown t r w.reigns) (masks_with t m w.masks) w.acks

masks_other :
    (t : Term) (m : NodeId → Bool) (masks : Term → NodeId → Bool) (u : Term)
    → u ≢ t
    → masks_with t m masks u ≡ masks u
masks_other t m masks u h = elim (Bool-cases (u == t)) [
  | inl e ↦ absurd (h (==→eq u t e))
  | inr e ↦ rw e refl
]

masks_self :
    (t : Term) (m : NodeId → Bool) (masks : Term → NodeId → Bool) → masks_with t m masks t ≡ m
masks_self t m masks = elim (Bool-cases (t == t)) [
  | inl e ↦ rw e refl
  | inr e ↦ absurd (ground (arith, e))
]

module _ {members : List NodeId} {s : Cluster} {w : World} (inv : Rightful members s w.reigns)
    (c : Complete members s w) where
  pub Genuine-Numbered : (l : RaftLog) → Genuine w.reigns l → Numbered l.entries
  Genuine-Numbered l g k e at = elim (Bool-cases (ltb 0 k)) [
    | inl later ↦
        let h = g.inherited k (omega tests) (get_elem?-lt l.entries k at) in
        (c.reigns (term_of l.entries k) h.reign h.of_term).numbered k e (
          sym (get_elem?-take (suc k) h.reign.log k (omega arith))
          ∙ ap (λ es. get_elem? es k) (sym h.same)
          ∙ get_elem?-take (suc k) l.entries k (omega arith)
          ∙ at)
    | inr start ↦
        let zeroth : k ≡ 0 = omega tests in
        let same : get_elem? (sentinel ∷ []) 0 ≡ some e =
          ap (λ es. get_elem? es 0) (sym g.first)
          ∙ get_elem?-take 1 l.entries 0 (omega arith)
          ∙ ap (get_elem? l.entries) (sym zeroth)
          ∙ at in
        ground (arith, same, zeroth)
  ]

  -- A candidate that won.
  module _ (i : NodeId) (n : Node) (log : n.log ≡ (s.nodes i).log)
      (stood : (s.nodes i).state ≡ candidate) (same : n.current_term ≡ (s.nodes i).current_term)
      (leads : n.state ≡ leader) (free : w.reigns n.current_term ≡ none)
      (e : Elected members s.votes i n.current_term) where
    abbrev pub won : Reign
    won = record { leader = i; log = n.log.entries }

    abbrev pub won_world : World
    won_world = crowned_world n.current_term won e.voters w

    other : (u : Term) (r : Reign) → w.reigns u ≡ some r → u ≢ n.current_term
    other u r h q = absurd (ground (arith, ap w.reigns q, h, free))

    pub won-Move : Move w i (s.nodes i) n won_world
    won-Move = record {
      grows = omega (arith, same);
      stood = λ stands. absurd (ground (arith, stands, leads));
      swells = λ u r h. record {
        reign = r;
        of_term = crown_other n.current_term u won w.reigns (other u r h) ∙ h;
        leader = refl;
        grown = Prefix-refl r.log;
        own = λ k past room. absurd (omega (arith, past, room));
      };
      crowned = λ u r h. elim (crown_inv n.current_term u won w.reigns h) [
        | inl (at, q) ↦ inr (ap (λ x. x.leader) q, sym at, ap (λ x. x.log) q)
        | inr old ↦ inl old
      ];
      masks = λ u r h. masks_other n.current_term e.voters w.masks u (other u r h);
      kept = λ a h. h;
      answered = λ a h success. inl h;
    }

    -- Whoever voted for the candidate vouches for its log.
    backing : (q : NodeId) → e.voters q ≡ true → Backs w (vote_for q i n.current_term) n.log.entries
    backing q voted =
        subst (λ l. Backs w (vote_for q i n.current_term) l.entries) (sym log)
          ((c.votes (vote_for q i n.current_term) (e.voted q voted)).backs stood (sym same) free)

    below_own : (k : ℕ) → term_of n.log.entries k ≤ n.current_term
    below_own k = elim (Bool-cases (ltb 0 (term_of n.log.entries k))) [
      | inr unreal ↦ omega tests
      | inl real ↦
          let u = term_of n.log.entries k in
          let g : Genuine w.reigns n.log = subst (Genuine w.reigns) (sym log) (inv.logs i) in
          let o = Genuine-Has n.log u k g (omega tests, refl) in
          let (q, _, mine, theirs) =
            shared_member e.voters (w.masks u) members
              (omega (arith, e.majority, (c.reigns u o.reign o.of_term).most)) in
          let below = (backing q mine).below u o.reign k (omega tests) o.of_term theirs refl in
          omega (arith, below)
    ]

    pub won-IsReign :
        0 < n.current_term
        → Genuine won_world.reigns n.log
        → IsReign members won_world s.votes n.current_term won
    won-IsReign positive genuine =
        let t = n.current_term in
        let g : Genuine w.reigns n.log = subst (Genuine w.reigns) (sym log) (inv.logs i) in
        let masked = masks_self t e.voters w.masks in
        record {
          positive = positive;
          sorted = Genuine-Sorted inv c n.log g;
          up_to = below_own;
          numbered = Genuine-Numbered n.log g;
          masked = λ q voted. e.voted q (ap (λ m. m q) (sym masked) ∙ voted);
          most = rw masked e.majority;
          has = λ u k older alive.
              let (q, voted, acked) = alive t won older (crown_self t won w.reigns) in
              elim (Acked-old inv c won-Move q u k acked) [
                | inl before ↦
                    (backing q (ap (λ m. m q) (sym masked) ∙ voted)).has u k older before
                      (Alive-old inv c won-Move u k alive)
                | inr (_, now, _) ↦ absurd (omega (arith, older, now))
              ];
          genuine = genuine;
        }
