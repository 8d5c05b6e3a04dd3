-- ===== src/Raft/Completeness/Counted.antt =====
-- A leader counts an answer: what it commits is on a majority.
use mathlib.Core.Path.{subst}
use gammaflow.Base.{
  suc, ◌+◌, ◌-◌, ◌<◌, ◌≡◌, ◌⊎◌, inl, inr, refl, sym, ap, ◌∙◌, Bool, true, false, some, List, ◌∷◌,
  map, In, arith, tests, ltb, leb, if◌then◌else◌, Bool-cases, str_eq, eq_iff, length, get_elem?,
  get_elem?-lt, take, int_max,
}
use gammaflow.Raft.Types.{NodeId, Term, LogIndex, leader}
use gammaflow.Raft.Log.{last_index}
use gammaflow.Raft.Log.View.{term_at-eq, term_at_panics}
use gammaflow.Raft.Node.{Node}
use gammaflow.Raft.Node.Frame.{SameDisk}
use gammaflow.Raft.Commit.Majority.{count_reaching}
use gammaflow.Raft.Election.Campaign.{supporters}
use gammaflow.Raft.Election.Quorum.{supporters-Perm, length-Perm}
use gammaflow.Raft.Replication.{settle}
use gammaflow.Raft.Run.Fields.{settle-SameDisk}
use gammaflow.Raft.Cluster.{Ack, Cluster}
use gammaflow.Raft.Cluster.Reigns.{Reign, Rightful}
use gammaflow.Raft.Cluster.Sending.{leader-apart}
use gammaflow.Raft.Cluster.Crowns.{two_reigns}
use gammaflow.Raft.Completeness.Logs.{Has, Prefix, Prefix-take, Has-same}
use gammaflow.Raft.Completeness.{World, Acked, Committed, Settled, IsNode, Matched, Complete}
use gammaflow.Raft.Completeness.Calm.{IsCalm, calm-IsNode, calm_commit}
use gammaflow.Raft.Completeness.Crowned.{Genuine-Numbered}
use gammaflow.Raft.Completeness.Counting.{Books, settle-Books, IsCaught, Rises}
use gammaflow.Raft.Completeness.Reaching.{get-drop, among, among_iff, supporters-reaching}

module _ {members : List NodeId} {s : Cluster} {w : World} (inv : Rightful members s w.reigns)
    (c : Complete members s w) (a : Ack) (given : In a s.acks) (n : Node)
    (leads : (s.nodes a.request.leader).state ≡ leader)
    (now : (s.nodes a.request.leader).current_term ≡ a.request.args.term)
    (settled : settle a.request.follower a.request.args.entries a.reply (s.nodes a.request.leader)
      ≡ some n) where
  abbrev i : NodeId
  i = a.request.leader

  abbrev old : Node
  old = s.nodes i

  abbrev own : Reign
  own = record { leader = i; log = old.log.entries }

  mine : w.reigns old.current_term ≡ some own
  mine = inv.leads i leads

  same : SameDisk old n
  same = settle-SameDisk a.request.follower a.request.args.entries a.reply old settled

  pub counted-IsCalm : IsCalm old n
  counted-IsCalm = record {
    log = same.log;
    grows = omega (arith, same.current_term);
    stood = λ stands. absurd (ground (arith, stands, same.state, leads));
  }

  books : Books a.request.follower a.request.args.entries a.reply old n
  books =
      settle-Books a.request.follower a.request.args.entries a.reply old (c.nodes i).next
        (c.acks a given).hint settled

  -- What was sent in this term is a part of the log.
  sent_part :
      (b : Ack)
      → In b s.acks
      → b.request.args.term ≡ old.current_term
      → Prefix b.request.log.entries old.log.entries
  sent_part b h term =
      let m = c.messages b.request (c.acks b h).sent in
      let one : m.reign ≡ own = two_reigns m.of_term (ap w.reigns term ∙ mine) in
      elim m.source [
        | inl r ↦ subst (λ q. Prefix b.request.log.entries q.log) one r.part
        | inr late ↦
            let here : b.request.leader ≡ i = sym m.leader ∙ ap (λ q. q.leader) one in
            let at : (s.nodes b.request.leader).current_term ≡ old.current_term =
              ap (λ j. (s.nodes j).current_term) here in
            absurd (omega (arith, late.over, at, term))
      ]

  caught_inside :
      (q : NodeId) (x : LogIndex)
      → IsCaught a.request.follower a.request.args.entries a.reply q x
      → x < length a.request.log.entries
  caught_inside q x (_, _, caught) =
      let m = a.request in
      let sent = (c.acks a given).sent in
      let g = (inv.appends m sent).genuine in
      let k = suc m.args.prev_log_index in
      let j = length m.args.entries - 1 in
      let at : get_elem? m.log.entries (k + j) ≡ some caught.last =
        sym (get-drop k j m.log.entries)
        ∙ ap (λ es. get_elem? es j) (sym (c.messages m sent).rest)
        ∙ caught.at in
      let room = get_elem?-lt m.log.entries (k + j) at in
      let index = Genuine-Numbered inv c m.log g (k + j) caught.last at in
      omega (arith, caught.reaches, index, room, g.fits.fits)

  matched :
      (p : NodeId)
      → In p old.peers
      → (n.match_index p ≡ 0) ⊎ Matched w p old.current_term (n.match_index p)
  matched p peer = elim (books.matches p) [
    | inl kept ↦
        subst (λ x. (x ≡ 0) ⊎ Matched w p old.current_term x) (sym kept)
          ((c.nodes i).matches leads p peer)
    | inr caught ↦ inr (record {
      ack = a;
      given = subst (In a) (sym c.acked) given;
      success = caught.0;
      by = sym caught.1;
      of_term = sym now;
      covers = caught_inside p (n.match_index p) caught;
    })
  ]

  module _ (up : Rises old n) where
    abbrev t : Term
    t = old.current_term

    abbrev x : LogIndex
    x = n.commit_index

    own_has : Has old.log.entries t x
    own_has =
        let fits = (inv.logs i).fits in
        (
          (c.reigns t own mine).positive,
          elim (Bool-cases (ltb x int_max)) [
            | inl small ↦ ground (arith, up.own, term_at-eq old.log x (omega tests))
            | inr big ↦ absurd (ground (arith, up.own, term_at_panics old.log x fits (omega tests)))
          ],
        )

    abbrev holders : NodeId → Bool
    holders q =
        if str_eq q i
        then leb x (last_index old.log)
        else if among q old.peers
        then leb x (n.match_index q)
        else false

    holds : (p : NodeId) → holders p ≡ true → Acked w p t x
    holds p h = elim (Bool-cases (str_eq p i)) [
      | inl here ↦ inr (record {
        reign = own;
        of_term = mine;
        leader = sym ((eq_iff p i).0 here);
        has = own_has;
      })
      | inr other ↦ elim (Bool-cases (among p old.peers)) [
        | inr stranger ↦ absurd (ground (arith, rw (other, stranger) at h))
        | inl peer ↦
            let reach : leb x (n.match_index p) ≡ true = rw (other, peer) at h in
            elim (matched p ((among_iff p old.peers).1 peer)) [
              | inl start ↦ absurd (omega (tests, up.above, start))
              | inr m ↦
                  let b = m.ack in
                  let sent = subst (In b) c.acked m.given in
                  let part = sent_part b sent m.of_term in
                  inl (record {
                    ack = b;
                    given = m.given;
                    success = m.success;
                    by = m.by;
                    of_term = m.of_term;
                    has =
                        Has-same (suc x) old.log.entries b.request.log.entries t x (omega arith)
                          (Prefix-take (suc x) b.request.log.entries old.log.entries
                            (omega (tests, m.covers)) part)
                          own_has;
                  })
            ]
      ]
    ]

    peer_holds : (q : NodeId) → In q old.peers → holders q ≡ leb x (n.match_index q)
    peer_holds q peer = elim (Bool-cases (str_eq q i)) [
      | inl here ↦ absurd (leader-apart inv i q leads peer ((eq_iff q i).0 here))
      | inr other ↦ rw (other, (among_iff q old.peers).0 peer) refl
    ]

    committed : Committed members w t x
    committed =
        let member = inv.active i (λ f. absurd (ground (arith, leads, f))) in
        let whole = inv.votes.whole i member in
        let peers = supporters-reaching holders n.match_index x old.peers peer_holds in
        let self : holders i ≡ leb x (last_index old.log) = rw ((eq_iff i i).1 refl) refl in
        let counts : supporters holders (i ∷ old.peers)
            ≡ count_reaching x (last_index old.log ∷ map n.match_index old.peers) =
          rw (self, peers) refl in
        record {
          holders = holders;
          acked = holds;
          most = omega (arith, up.most, counts, supporters-Perm holders whole, length-Perm whole);
        }

    risen : Settled members w n.log.entries n.current_term n.commit_index
    risen = record {
      term = t;
      place = x;
      not_newer = omega (arith, same.current_term);
      covers = omega arith;
      reign = own;
      of_term = mine;
      has = own_has;
      committed = committed;
      same = ap (λ l. take (suc x) l.entries) same.log;
    }

  pub counted-IsNode : IsNode members w i n
  counted-IsNode =
      calm-IsNode inv c i counted-IsCalm
        (elim books.commit [
          | inl kept ↦ calm_commit inv c i counted-IsCalm kept
          | inr up ↦ inr (risen up)
        ])
        (λ _ p peer.
          subst (λ u. (n.match_index p ≡ 0) ⊎ Matched w p u (n.match_index p))
            (sym same.current_term) (matched p (subst (In p) same.peers peer)))
        books.next
