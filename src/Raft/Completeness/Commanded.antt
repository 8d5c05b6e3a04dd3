-- ===== src/Raft/Completeness/Commanded.antt =====
-- A leader takes a command.
use mathlib.Core.Path.{subst}
use gammaflow.Base.{
  ℕ, ◌+◌, ◌≤◌, ◌<◌, ◌≡◌, ◌⊎◌, inl, inr, refl, sym, ap, ◌∙◌, some, List, [], ◌∷◌, ◌++◌, In, arith,
  tests, ltb, ◌==◌, ==→eq, Bool-cases, length, length-append, get_elem?, get_elem?-lt,
  get_elem?-append_left, take, take-append_self, add64, int_max,
}
use gammaflow.Raft.Types.{Bytes, NodeId, Term, LogEntry, leader}
use gammaflow.Raft.Log
use gammaflow.Raft.Log.{RaftLog, last_index}
use gammaflow.Raft.Log.View.{term_of, term_of-out, last_index-eq}
use gammaflow.Raft.Node.{Node, is_leader_state}
use gammaflow.Raft.Submit.{submit}
use gammaflow.Raft.Cluster.{Cluster}
use gammaflow.Raft.Cluster.Reigns.{Reign, Genuine, Rightful}
use gammaflow.Raft.Cluster.Crowns.{
  crown, crown_self, crown_inv, two_reigns, term_of-left, term_of-last,
}
use gammaflow.Raft.Completeness.Logs.{Prefix, Prefix-refl, Has-Prefix, Numbered, Sorted}
use gammaflow.Raft.Completeness.{World, IsReign, IsNode, Matched, Complete, world}
use gammaflow.Raft.Completeness.Moves.{Move, Swells, Alive-old, Matched-on}
use gammaflow.Raft.Completeness.Grown.{grown-IsNode}

-- The entry that a leader makes of a command.
abbrev pub entry_of : Bytes → Node → LogEntry
entry_of c n = record { term = n.current_term; index = add64 (last_index n.log) 1; command = c }

-- What `submit` leaves of a leader.
pub record Takes (c : Bytes) (n n' : Node) : Type 0 where
  pub log : n'.log.entries ≡ n.log.entries ++ entry_of c n ∷ []
  pub term : n'.current_term ≡ n.current_term
  pub state : n'.state ≡ n.state
  pub peers : n'.peers ≡ n.peers
  pub commit : n'.commit_index ≡ n.commit_index
  pub matches : n'.match_index ≡ n.match_index
  pub next : n'.next_index ≡ n.next_index

pub submit-Takes : (c : Bytes) (n : Node) → n.state ≡ leader → Takes c n (submit c n).0
unfolding submit Log.append
submit-Takes c n leads = rw (ap is_leader_state leads) (ground arith)

module _ (e : LogEntry) where
  get-last : (xs : List LogEntry) → get_elem? (xs ++ e ∷ []) (length xs) ≡ some e
  get-last [] = refl
  get-last (x ∷ xs) = get-last xs

  module _ (xs : List LogEntry) where
    long : length (xs ++ e ∷ []) ≡ length xs + 1
    long = omega (arith, length-append xs (e ∷ []))

    last_or_before :
        (k : ℕ)
        → k < length (xs ++ e ∷ [])
        → ((k < length xs) × (term_of (xs ++ e ∷ []) k ≡ term_of xs k))
          ⊎ ((k ≡ length xs) × (term_of (xs ++ e ∷ []) k ≡ e.term))
    last_or_before k room = elim (Bool-cases (ltb k (length xs))) [
      | inl before ↦ inl (omega tests, term_of-left e k xs (omega tests))
      | inr last ↦
          let at : k ≡ length xs = omega (tests, room, long) in
          inr (at, ap (term_of (xs ++ e ∷ [])) at ∙ term_of-last e xs)
    ]

    append-up_to : ((k : ℕ) → term_of xs k ≤ e.term) → (k : ℕ) → term_of (xs ++ e ∷ []) k ≤ e.term
    append-up_to up k = elim (Bool-cases (ltb k (length (xs ++ e ∷ [])))) [
      | inr past ↦ omega (arith, term_of-out (xs ++ e ∷ []) k (omega tests))
      | inl room ↦ elim (last_or_before k (omega tests)) [
        | inl (_, same) ↦ omega (arith, same, up k)
        | inr (_, same) ↦ omega (arith, same)
      ]
    ]

    append-Sorted : ((k : ℕ) → term_of xs k ≤ e.term) → Sorted xs → Sorted (xs ++ e ∷ [])
    append-Sorted up sorted a b le room = elim (last_or_before b room) [
      | inr (_, same) ↦ omega (arith, same, append-up_to up a)
      | inl (before, same) ↦
          omega (arith, same, term_of-left e a xs (omega (arith, before, le)), sorted a b le before)
    ]

    append-Numbered : e.index ≡ length xs → Numbered xs → Numbered (xs ++ e ∷ [])
    append-Numbered index numbered k x at = elim (Bool-cases (ltb k (length xs))) [
      | inl before ↦ numbered k x (sym (get_elem?-append_left xs (e ∷ []) k (omega tests)) ∙ at)
      | inr last ↦
          let here : k ≡ length xs = omega (tests, get_elem?-lt (xs ++ e ∷ []) k at, long) in
          let same : some e ≡ some x =
            sym (get-last xs) ∙ ap (get_elem? (xs ++ e ∷ [])) (sym here) ∙ at in
          ground (arith, same, index, here)
    ]

module _ {members : List NodeId} {s : Cluster} {w : World} (inv : Rightful members s w.reigns)
    (c : Complete members s w) (i : NodeId) (b : Bytes)
    (short : length (s.nodes i).log.entries + 1 < int_max)
    (leads : (s.nodes i).state ≡ leader) where
  abbrev old : Node
  old = s.nodes i

  abbrev new : Node
  new = (submit b old).0

  takes : Takes b old new
  takes = submit-Takes b old leads

  abbrev pub longer : Reign
  longer = record { leader = i; log = new.log.entries }

  abbrev pub longer_world : World
  longer_world = world (crown new.current_term longer w.reigns) w.masks w.acks

  mine : w.reigns new.current_term ≡ some (record { leader = i; log = old.log.entries })
  mine = ap w.reigns takes.term ∙ inv.leads i leads

  log_grown : Prefix old.log.entries new.log.entries
  log_grown =
      ap (take (length old.log.entries)) takes.log
      ∙ take-append_self old.log.entries (entry_of b old ∷ [])

  log_own :
      (k : ℕ)
      → length old.log.entries ≤ k
      → k < length new.log.entries
      → term_of new.log.entries k ≡ new.current_term
  log_own k past room =
      elim (last_or_before (entry_of b old) old.log.entries k
        (omega (arith, room, ap length takes.log))) [
          | inl (early, _) ↦ absurd (omega (arith, early, past))
          | inr (_, same) ↦ ap (λ es. term_of es k) takes.log ∙ same ∙ sym takes.term
        ]

  longer-Swells : (u : Term) (r : Reign) → w.reigns u ≡ some r → Swells longer_world u r
  longer-Swells u r h = elim (Bool-cases (u == new.current_term)) [
    | inl e ↦
        let at : u ≡ new.current_term = ==→eq u new.current_term e in
        let same = two_reigns (ap w.reigns (sym at) ∙ h) mine in
        rw (at, same)
          (record {
            reign = longer;
            of_term = crown_self new.current_term longer w.reigns;
            leader = refl;
            grown = log_grown;
            own = log_own;
          })
    | inr e ↦ record {
      reign = r;
      of_term = rw e h;
      leader = refl;
      grown = Prefix-refl r.log;
      own = λ k past room. absurd (omega (arith, past, room));
    }
  ]

  pub command-Move : Move w i old new longer_world
  command-Move = record {
    grows = omega (arith, takes.term);
    stood = λ stands. absurd (ground (arith, stands, takes.state, leads));
    swells = longer-Swells;
    crowned = λ u r h. elim (crown_inv new.current_term u longer w.reigns h) [
      | inl (at, q) ↦ inr (ap (λ x. x.leader) q, sym at, ap (λ x. x.log) q)
      | inr kept ↦ inl kept
    ];
    masks = λ u r h. refl;
    kept = λ a h. h;
    answered = λ a h success. inl h;
  }

  pub longer-IsReign :
      Genuine longer_world.reigns new.log
      → IsReign members longer_world s.votes new.current_term longer
  longer-IsReign genuine =
      let h = c.reigns new.current_term _ mine in
      let e = entry_of b old in
      let up : (k : ℕ) → term_of old.log.entries k ≤ e.term =
        λ k. omega (arith, h.up_to k, takes.term) in
      let index : e.index ≡ length old.log.entries =
        omega
          (arith, last_index-eq old.log (inv.logs i).fits, (inv.logs i).fits.has_sentinel, short) in
      record {
        positive = h.positive;
        sorted = rw takes.log (append-Sorted e old.log.entries up h.sorted);
        up_to = λ k. rw (takes.log, takes.term) (append-up_to e old.log.entries up k);
        numbered = rw takes.log (append-Numbered e old.log.entries index h.numbered);
        masked = h.masked;
        most = h.most;
        has = λ t k older alive.
            Has-Prefix old.log.entries new.log.entries t k log_grown
              (h.has t k older (Alive-old inv c command-Move t k alive));
        genuine = genuine;
      }

  kept_match :
      (p : NodeId)
      → (old.match_index p ≡ 0) ⊎ Matched w p old.current_term (old.match_index p)
      → (new.match_index p ≡ 0) ⊎ Matched longer_world p new.current_term (new.match_index p)
  kept_match p m =
      let same : new.match_index p ≡ old.match_index p = ap (λ f. f p) takes.matches in
      elim m [
        | inl start ↦ inl (same ∙ start)
        | inr h ↦ inr (
            subst (λ x. Matched longer_world p new.current_term x) (sym same)
              (subst (λ t. Matched longer_world p t (old.match_index p)) (sym takes.term)
                (Matched-on inv c command-Move p old.current_term (old.match_index p) h)))
      ]

  pub command-IsNode : IsNode members longer_world i new
  command-IsNode =
      grown-IsNode inv c command-Move log_grown takes.commit
        (λ _ p peer. kept_match p ((c.nodes i).matches leads p (subst (In p) takes.peers peer)))
        (λ p. rw takes.next ((c.nodes i).next p))
