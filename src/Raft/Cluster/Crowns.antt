-- ===== src/Raft/Cluster/Crowns.antt =====
-- The steps that change a reign: a leader is elected, or takes a command.
use mathlib.Core.Path.{subst}
use gammaflow.Base.{
  ℕ, zero, suc, ◌+◌, ◌≤◌, ◌<◌, ◌≡◌, ◌≢◌, ◌⊎◌, inl, inr, refl, sym, ap, ◌∙◌, false, Option, none,
  some, List, [], ◌∷◌, ◌++◌, arith, tests, update_self, ==→eq, ◌==◌, if◌then◌else◌, Bool-cases,
  Option-cases, ltb, length, take, int_max, take-append_self, take_all, length-append,
}
use gammaflow.Raft.Types.{Bytes, NodeId, Term, LogEntry, candidate, leader}
use gammaflow.Raft.Log.{RaftLog}
use gammaflow.Raft.Log.View.{term_of}
use gammaflow.Raft.Node.{Node}
use gammaflow.Raft.Submit.{submit}
use gammaflow.Raft.Run.Fields.{submit-SameVote}
use gammaflow.Raft.Cluster.{Cluster, set}
use gammaflow.Raft.Cluster.Votes.{Votes}
use gammaflow.Raft.Cluster.Leaders.{leader-Elected, Elected-unique}
use gammaflow.Raft.Cluster.Reigns.{
  Reign, Reigns, Genuine, Genuine-Extends, Extends, Rightful, IsPast,
}
use gammaflow.Raft.Cluster.Onward.{Onward}
use gammaflow.Raft.Cluster.Matching.{Genuine-kept}

-- The reign of one term, set anew.
abbrev pub crown : Term → Reign → Reigns → Reigns
crown t r reigns u = if u == t then some r else reigns u

pub crown_self : (t : Term) (r : Reign) (reigns : Reigns) → crown t r reigns t ≡ some r
crown_self t r reigns = ground arith

pub crown_other : (t u : Term) (r : Reign) (reigns : Reigns) → u ≢ t → crown t r reigns u ≡ reigns u
crown_other t u r reigns h = ground (arith, h)

pub crown_inv :
    (t u : Term) (r : Reign) (reigns : Reigns) {r' : Reign}
    → crown t r reigns u ≡ some r'
    → ((u ≡ t) × (r' ≡ r)) ⊎ (reigns u ≡ some r')
crown_inv t u r reigns h = ground (arith, h)

-- Where a reign stands already, it continues in the new one.
crown-Extends :
    (t : Term) (r : Reign) (reigns : Reigns)
    → ((old : Reign)
        → reigns t ≡ some old
        → (r.leader ≡ old.leader) × (take (length old.log) r.log ≡ old.log))
    → Extends reigns (crown t r reigns)
crown-Extends t r reigns same u old h = elim (Bool-cases (u == t)) [
  | inl e ↦
      let (one, grown) = same old (ap reigns (sym (==→eq u t e)) ∙ h) in
      record { reign = r; of_term = rw e refl; leader = one; grown = grown }
  | inr e ↦ record {
    reign = old;
    of_term = rw e h;
    leader = refl;
    grown = take_all (length old.log) old.log (omega arith);
  }
]

module _ (e : LogEntry) where
  pub take-left : (k : ℕ) (xs : List LogEntry) → k ≤ length xs → take k (xs ++ e ∷ []) ≡ take k xs
  take-left zero xs h = refl
  take-left (suc k) [] h = absurd (omega arith)
  take-left (suc k) (x ∷ xs) h = ap (λ l. x ∷ l) (take-left k xs (omega arith))

  pub term_of-left :
      (k : ℕ) (xs : List LogEntry) → k < length xs → term_of (xs ++ e ∷ []) k ≡ term_of xs k
  term_of-left k [] h = absurd (omega arith)
  term_of-left zero (x ∷ xs) h = refl
  term_of-left (suc k) (x ∷ xs) h = term_of-left k xs (omega arith)

  pub term_of-last : (xs : List LogEntry) → term_of (xs ++ e ∷ []) (length xs) ≡ e.term
  term_of-last [] = refl
  term_of-last (x ∷ xs) = term_of-last xs

-- A log that grew by an entry of the term whose reign it is.
Genuine-append :
    (reigns : Reigns) (l m : RaftLog) (e : LogEntry) (r : Reign)
    → m.entries ≡ l.entries ++ e ∷ []
    → length l.entries + 1 < int_max
    → Genuine reigns l
    → reigns e.term ≡ some r
    → r.log ≡ m.entries
    → Genuine reigns m
Genuine-append reigns l m e r same short g at own =
    let long : length m.entries ≡ length l.entries + 1 =
      omega (arith, ap length same, length-append l.entries (e ∷ [])) in
    record {
      fits = record { has_sentinel = omega (arith, long); fits = omega (arith, long, short) };
      first =
          ap (take 1) same ∙ take-left e 1 l.entries (omega (arith, g.fits.has_sentinel)) ∙ g.first;
      inherited = λ k h h'. elim (Bool-cases (ltb k (length l.entries))) [
        | inl old ↦
            let i = g.inherited k h (omega tests) in
            let term : term_of m.entries k ≡ term_of l.entries k =
              ap (λ es. term_of es k) same ∙ term_of-left e k l.entries (omega tests) in
            record {
              reign = i.reign;
              of_term = ap reigns term ∙ i.of_term;
              within = i.within;
              same = ap (take (suc k)) same ∙ take-left e (suc k) l.entries (omega tests) ∙ i.same;
            }
        | inr new ↦
            let last : k ≡ length l.entries = omega (tests, long, h') in
            record {
              reign = r;
              of_term =
                  ap reigns (
                    ap (term_of m.entries) last
                    ∙ ap (λ es. term_of es (length l.entries)) same
                    ∙ term_of-last e l.entries)
                  ∙ at;
              within = omega (arith, ap length own, h');
              same = ap (take (suc k)) (sym own);
            }
      ];
    }

pub two_reigns : {o : Option Reign} {q r : Reign} → o ≡ some q → o ≡ some r → q ≡ r
two_reigns h k = ground (arith, h, k)

module _ {members : List NodeId} {s : Cluster} {reigns : Reigns} (inv : Rightful members s reigns)
    (i : NodeId) where
  -- Nobody has reigned in the term of a candidate that wins it.
  pub no_reign :
      (n : Node)
      → Votes false members (set i n s)
      → (s.nodes i).state ≡ candidate
      → n.current_term ≡ (s.nodes i).current_term
      → n.state ≡ leader
      → reigns n.current_term ≡ none
  no_reign n votes stood same l = elim (Option-cases (reigns n.current_term)) [
    | inl free ↦ free
    | inr (r, taken) ↦
        let member = inv.active i (λ f. absurd (ground (arith, stood, f))) in
        let here = update_self s.nodes i n in
        let mine = rw here at (leader-Elected votes i member (rw here l)) in
        let theirs = inv.elected n.current_term r taken in
        let one : r.leader ≡ i = Elected-unique inv.votes r.leader i n.current_term theirs mine in
        let p : IsPast (s.nodes i) n.current_term =
          subst (λ k. IsPast (s.nodes k) n.current_term) one (inv.past n.current_term r taken) in
        absurd (elim p [
          | inl before ↦ omega (arith, before, same)
          | inr (_, leads) ↦ ground (arith, stood, leads)
        ])
  ]

  pub Onward-elected :
      {n : Node}
      → Votes false members (set i n s)
      → n.log ≡ (s.nodes i).log
      → (s.nodes i).state ≡ candidate
      → n.current_term ≡ (s.nodes i).current_term
      → n.state ≡ leader
      → Onward members s reigns i n
          (crown n.current_term (record { leader = i; log = n.log.entries }) reigns)
  Onward-elected {n} votes log stood same l =
      let t = n.current_term in
      let r : Reign = record { leader = i; log = n.log.entries } in
      let free = no_reign n votes stood same l in
      let more = crown-Extends t r reigns (λ old h. absurd (ground (arith, free, h))) in
      record {
        extends = more;
        log = Genuine-Extends more n.log (Genuine-kept inv i log);
        grows = omega (arith, same);
        active = λ _. inv.active i (λ f. absurd (ground (arith, stood, f)));
        leads = λ _. crown_self t r reigns;
        others = λ j _ lj.
            crown_other t (s.nodes j).current_term r reigns
              (λ e. absurd (ground (arith, ap reigns e, free, inv.leads j lj)));
        new = λ u r' h. elim (crown_inv t u r reigns h) [
          | inl (e, same') ↦ inr (ap (λ q. q.leader) same', sym e, l)
          | inr old ↦ inl (r', old, refl)
        ];
        stays = λ l'. absurd (ground (arith, l', stood));
      }

  pub Onward-command :
      (c : Bytes)
      → length (s.nodes i).log.entries + 1 < int_max
      → (s.nodes i).state ≡ leader
      → (e : LogEntry) → e.term ≡ (s.nodes i).current_term
      → (submit c (s.nodes i)).0.log.entries ≡ (s.nodes i).log.entries ++ e ∷ []
      → let n = (submit c (s.nodes i)).0 in
        Onward members s reigns i n
          (crown n.current_term (record { leader = i; log = n.log.entries }) reigns)
  Onward-command c short l e term grown =
      let old = s.nodes i in
      let n = (submit c old).0 in
      let same = submit-SameVote c old in
      let t = n.current_term in
      let r : Reign = record { leader = i; log = n.log.entries } in
      let before : Reign = record { leader = i; log = old.log.entries } in
      let mine : reigns t ≡ some before = ap reigns same.current_term ∙ inv.leads i l in
      let more = crown-Extends t r reigns (λ q h.
        subst (λ q. (i ≡ q.leader) × (take (length q.log) n.log.entries ≡ q.log))
          (two_reigns mine h)
          (
            refl,
            ap (take (length old.log.entries)) grown ∙ take-append_self old.log.entries (e ∷ []),
          )) in
      record {
        extends = more;
        log =
            Genuine-append (crown t r reigns) old.log n.log e r grown short
              (Genuine-Extends more old.log (inv.logs i))
              (ap (crown t r reigns) (term ∙ sym same.current_term) ∙ crown_self t r reigns) refl;
        grows = omega (arith, same.current_term);
        active = λ _. inv.active i (λ f. absurd (ground (arith, l, f)));
        leads = λ _. crown_self t r reigns;
        others = λ j ne lj. crown_other t (s.nodes j).current_term r reigns (λ q.
            absurd (ne (ap (λ k. k.leader) (two_reigns (inv.leads j lj) (ap reigns q ∙ mine)))));
        new = λ u r' h. elim (crown_inv t u r reigns h) [
          | inl (e, same') ↦ inl (before, ap reigns e ∙ mine, sym (ap (λ q. q.leader) same'))
          | inr kept ↦ inl (r', kept, refl)
        ];
        stays = λ _. inr (same.current_term, same.state ∙ l);
      }
