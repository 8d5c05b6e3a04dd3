-- ===== src/Raft/Completeness/Counting.antt =====
-- What an answer of a peer does to the bookkeeping of a leader.
use mathlib.Core.Path.{subst}
use gammaflow.Base.{
  ◌+◌, ◌*◌, ◌-◌, ◌<◌, ◌≡◌, ◌⊎◌, inl, inr, refl, sym, ap, Bool, true, false, Option, none, some,
  bind-eq-some, List, ◌∷◌, map, arith, tests, ltb, if◌then◌else◌, Bool-cases, length, get_elem?,
  update, add64, sub64, u64_mod,
}
use gammaflow.Raft.Types.{NodeId, Term, LogIndex, LogEntry, AppendEntriesReply, leader}
use gammaflow.Raft.Log.{RaftLog, last_index, contains, term_at}
use gammaflow.Raft.Node.{Node, become_follower}
use gammaflow.Raft.Commit.{commit_to, commit_if, commit_candidate, advance_commit_index}
use gammaflow.Raft.Commit.Majority.{count_reaching}
use gammaflow.Raft.Commit.Advance.{advance_commit_index_safe}
use gammaflow.Raft.Replication.{
  last_index_of_term, handle_conflict, record_match, settle, handle_heartbeat_response,
  handle_replicate_response,
}
use gammaflow.Raft.Completeness.Winning.{update_at}

-- The match index of the peer went to the last entry that was sent.
pub record Caught (es : List LogEntry) (m : LogIndex) : Type 0 where
  pub last : LogEntry
  pub at : get_elem? es (length es - 1) ≡ some last
  pub reaches : m ≡ sub64 (add64 last.index 1) 1

abbrev pub IsCaught : NodeId → List LogEntry → AppendEntriesReply → NodeId → LogIndex → Type 0
IsCaught p es r q m = (r.success ≡ true) × (q ≡ p) × Caught es m

abbrev pub Held : LogIndex → RaftLog → (NodeId → LogIndex) → List NodeId → Type 0
Held c l m ps = length ps + 1 < 2 * count_reaching c (last_index l ∷ map m ps)

-- A majority reaches the new commit index, where an entry of the leader's term is.
pub record Rises (n n' : Node) : Type 0 where
  pub above : n.commit_index < n'.commit_index
  pub has : contains n.log n'.commit_index ≡ true
  pub own : term_at n.log n'.commit_index ≡ some n.current_term
  pub most : Held n'.commit_index n.log n'.match_index n.peers

pub record Books (p : NodeId) (es : List LogEntry) (r : AppendEntriesReply) (n n' : Node)
    : Type 0 where
  pub next : (q : NodeId) → n'.next_index q < u64_mod
  pub matches :
      (q : NodeId) → (n'.match_index q ≡ n.match_index q) ⊎ IsCaught p es r q (n'.match_index q)
  pub commit : (n'.commit_index ≡ n.commit_index) ⊎ Rises n n'

module _ (n : Node) {n' : Node} where
  commit_if-kept :
      (o : Option LogIndex)
      → commit_if o n ≡ some n'
      → (n'.match_index ≡ n.match_index) × (n'.next_index ≡ n.next_index)
  unfolding commit_to
  commit_if-kept none h = ground (arith, h)
  commit_if-kept (some i) h = ground (arith, h)

  advance_commit_index-kept :
      advance_commit_index n ≡ some n'
      → (n'.match_index ≡ n.match_index) × (n'.next_index ≡ n.next_index)
  unfolding advance_commit_index
  advance_commit_index-kept h = commit_if-kept (commit_candidate n) h

  module _ (p : NodeId) (below : (q : NodeId) → n.next_index q < u64_mod) where
    gone_to :
        (x : LogIndex)
        → x < u64_mod
        → n' ≡ record n { next_index = update n.next_index p x }
        → (q : NodeId) → n'.next_index q < u64_mod
    gone_to x small same q =
        rw same (update_at (λ y. y < u64_mod) n.next_index p q x (λ _. below q) (λ _. small))

    handle_conflict-next :
        (r : AppendEntriesReply)
        → r.conflict_index < u64_mod
        → handle_conflict p r n ≡ some n'
        → ((q : NodeId) → n'.next_index q < u64_mod)
          × (n'.match_index ≡ n.match_index)
          × (n'.commit_index ≡ n.commit_index)
    unfolding handle_conflict
    handle_conflict-next r hint h = elim (Bool-cases (ltb 0 r.conflict_term)) [
      | inl term ↦
          let (last, _, h') =
            bind-eq-some (last_index_of_term n.log r.conflict_term (last_index n.log)) _
              (rw term at h) in
          let x = if ltb 0 last then add64 last 1 else r.conflict_index in
          let same : n' ≡ record n { next_index = update n.next_index p x } = ground (arith, h') in
          (gone_to x (ground (arith, hint)) same, ground (arith, same), ground (arith, same))
      | inr no_term ↦ elim (Bool-cases (ltb 0 r.conflict_index)) [
        | inl some_hint ↦
            let same : n' ≡ record n { next_index = update n.next_index p r.conflict_index } =
              ground (arith, rw (no_term, some_hint) at h) in
            (gone_to r.conflict_index hint same, ground (arith, same), ground (arith, same))
        | inr no_hint ↦ elim (Bool-cases (ltb 1 (n.next_index p))) [
          | inl some_place ↦
              let x = sub64 (n.next_index p) 1 in
              let same : n' ≡ record n { next_index = update n.next_index p x } =
                ground (arith, rw (no_term, no_hint, some_place) at h) in
              (gone_to x (omega arith) same, ground (arith, same), ground (arith, same))
          | inr no_place ↦
              let same : n' ≡ n = ground (arith, rw (no_term, no_hint, no_place) at h) in
              (λ q. rw same (below q), ground (arith, same), ground (arith, same))
        ]
      ]
    ]

    record_match-Books :
        (es : List LogEntry)
        → record_match p es n ≡ some n'
        → ((q : NodeId) → n'.next_index q < u64_mod)
          × ((q : NodeId)
              → (n'.match_index q ≡ n.match_index q) ⊎ ((q ≡ p) × Caught es (n'.match_index q)))
          × (n'.commit_index ≡ n.commit_index)
          × (n'.log ≡ n.log)
          × (n'.current_term ≡ n.current_term)
          × (n'.peers ≡ n.peers)
    unfolding record_match
    record_match-Books es h =
        let (last, at, h') = bind-eq-some (get_elem? es (length es - 1)) _ h in
        let next = add64 last.index 1 in
        let m = sub64 next 1 in
        let nexts =
          if ltb (n.next_index p) next then update n.next_index p next else n.next_index in
        let matches = if ltb (n.match_index p) m then update n.match_index p m else n.match_index in
        let same : n' ≡ record n { next_index = nexts; match_index = matches } =
          ground (arith, h') in
        (
          λ q. rw same (elim (Bool-cases (ltb (n.next_index p) next)) [
            | inl up ↦ rw up (
                update_at (λ y. y < u64_mod) n.next_index p q next (λ _. below q)
                  (λ _. omega arith))
            | inr stays ↦ rw stays (below q)
          ]),
          λ q. rw same (elim (Bool-cases (ltb (n.match_index p) m)) [
            | inl up ↦ rw up (
                update_at (λ y. (y ≡ n.match_index q) ⊎ ((q ≡ p) × Caught es y)) n.match_index p q m
                  (λ _. inl refl) (λ e. inr (e, record { last = last; at = at; reaches = refl })))
            | inr stays ↦ rw stays (inl refl)
          ]),
          ap (λ k. k.commit_index) same,
          ap (λ k. k.log) same,
          ap (λ k. k.current_term) same,
          ap (λ k. k.peers) same,
        )

else_branch {ℓ} :
    {A : Type ℓ} {b : Bool} (x : A) {y z : A} → b ≡ false → (if b then x else y) ≡ z → y ≡ z
else_branch x e h = rw e at h

then_branch {ℓ} :
    {A : Type ℓ} {b : Bool} {x : A} (y : A) {z : A} → b ≡ true → (if b then x else y) ≡ z → x ≡ z
then_branch y e h = rw e at h

pub settle-Books :
    (p : NodeId) (es : List LogEntry) (r : AppendEntriesReply) (n : Node) {n' : Node}
    → ((q : NodeId) → n.next_index q < u64_mod)
    → r.conflict_index < u64_mod
    → settle p es r n ≡ some n'
    → Books p es r n n'
unfolding settle
settle-Books p es r n {n'} below hint h = elim (Bool-cases r.success) [
  | inr refused ↦
      let (next, matches, commit) =
        handle_conflict-next n p below r hint (else_branch _ refused h) in
      record { next = next; matches = λ q. inl (ap (λ f. f q) matches); commit = inl commit }
  | inl accepted ↦
      let (n₁, recorded, h') = bind-eq-some (record_match p es n) _ (then_branch _ accepted h) in
      let (next, matches, commit, log, term, peers) = record_match-Books n p below es recorded in
      let (same_match, same_next) = advance_commit_index-kept n₁ h' in
      let (le, rises) = advance_commit_index_safe n₁ h' in
      record {
        next = λ q. rw same_next (next q);
        matches = λ q. rw same_match (elim (matches q) [
          | inl same ↦ inl same
          | inr (e, caught) ↦ inr (accepted, e, caught)
        ]);
        commit = elim (Bool-cases (ltb n₁.commit_index n'.commit_index)) [
          | inr stays ↦ inl (omega (tests, le, commit))
          | inl up ↦
              let (has, own, most) = rises (omega tests) in
              inr (record {
                above = omega (tests, commit);
                has = rw (← log) has;
                own =
                    subst (λ l. term_at l n'.commit_index ≡ some n.current_term) log
                      (subst (λ t. term_at n₁.log n'.commit_index ≡ some t) term own);
                most =
                    subst (λ l. Held n'.commit_index l n'.match_index n.peers) log
                      (subst (λ m. Held n'.commit_index n₁.log m n.peers) (sym same_match)
                        (subst (Held n'.commit_index n₁.log n₁.match_index) peers most));
              })
        ];
      }
]

-- What the goroutine makes of a reply: nothing, a follower of a newer term, or what the branch on
-- success leaves.
abbrev pub IsAnswered : Term → NodeId → List LogEntry → AppendEntriesReply → Node → Node → Type 0
IsAnswered t p es r n n' =
    (n' ≡ n)
    ⊎ ((ltb n.current_term r.term ≡ true) × (n' ≡ become_follower r.term n))
    ⊎ ((n.state ≡ leader) × (n.current_term ≡ t) × (settle p es r n ≡ some n'))

module _ (t : Term) (p : NodeId) (es : List LogEntry) (r : AppendEntriesReply) (n : Node)
    {n' : Node} where
  pub handle_heartbeat_response-IsAnswered :
      handle_heartbeat_response t p es (some r) n ≡ some n' → IsAnswered t p es r n n'
  unfolding handle_heartbeat_response
  handle_heartbeat_response-IsAnswered h = ground (arith, h)

  pub handle_replicate_response-IsAnswered :
      {more : Bool}
      → handle_replicate_response t p es (some r) n ≡ some (n', more)
      → IsAnswered t p es r n n'
  unfolding handle_replicate_response
  handle_replicate_response-IsAnswered h = ground (arith, h)
