-- ===== src/Raft/Replication/CatchUp.antt =====
-- A leader and one of its peers between themselves: the turns of `replicateLog` with the handler of
-- the peer and the handling of its refusals.
use gammaflow.Base.{
  ℕ, zero, suc, ◌+◌, ◌-◌, ◌≤◌, ◌<◌, ◌≡◌, ◌≢◌, ◌⊎◌, inl, inr, refl, sym, ap, ◌∙◌, Bool, true, false,
  Bool-cases, Option, Option-cases, none, some, List, arith, tests, ltb, length, length-drop, take,
  take_all, drop, min, sub64, if◌then◌else◌, ◌>>=◌,
}
use gammaflow.Raft.Types.{NodeId, LogIndex, leader, LogEntry, AppendEntriesArgs, AppendEntriesReply}
use gammaflow.Raft.Log.View.{IsLog, term_of, term_at-eq, entries_from-eq, term_of-out, term_of-take}
use gammaflow.Raft.Node.{Node}
use gammaflow.Raft.Append.{handle_append_entries}
use mathlib.Core.Path.{subst}
use gammaflow.Raft.Append.Match.{Agree, Built, append-Agree}
use gammaflow.Raft.Append.Outcome.{
  Fits, handle_append_entries-eq, outcome, conflict_of, current_term-follow_leader,
}
use gammaflow.Raft.Append.Safety.{success_iff, log-success, accepted_entries, place_in_log}
use gammaflow.Raft.Append.Entries.{length-merged, term_of-drop}
use gammaflow.Raft.Run.Fields.{handle_conflict-SameDisk}
use gammaflow.Raft.Append.Refusal.{refused-Hint}
use gammaflow.Raft.Replication.{
  Tick, finished, idle, send, replicate_tick, handle_replicate_response, handle_conflict, settle,
}
use gammaflow.Raft.Replication.Conflict.{BacksUp, handle_conflict-BacksUp}

-- The leader takes a refusal; an acceptance ends the exchange.
abbrev pub taken :
    NodeId → AppendEntriesArgs → Node → Node × AppendEntriesReply → Option (Node × Node × Bool)
taken p args n (f, r) =
    let refused =
      handle_replicate_response args.term p args.entries (some r) n >>= λ m. some (m.0, f, false) in
    if r.success then some (n, f, true) else refused

abbrev pub delivered_to : NodeId → Tick → Node → Node → Option (Node × Node × Bool)
delivered_to p (send args) n f = handle_append_entries args f >>= taken p args n
delivered_to p idle n f = some (n, f, false)
delivered_to p finished n f = some (n, f, false)

-- One turn: the leader, the peer, and whether the message was accepted.
unfoldable pub turn : NodeId → Node → Node → Option (Node × Node × Bool)
turn p n f = replicate_tick p n >>= λ tick. delivered_to p tick n f

unfoldable pub turns : NodeId → ℕ → Node → Node → Option (Node × Node × Bool)
turns p zero n f = some (n, f, false)
turns p (suc k) n f =
    turn p n f >>= λ s. (let later = turns p k s.0 s.1 in if s.2 then some s else later)

-- What the leader sends from its next index on.
abbrev message : NodeId → Node → AppendEntriesArgs
message p n = record {
  term = n.current_term;
  leader_id = n.id;
  prev_log_index = n.next_index p - 1;
  prev_log_term = term_of n.log.entries (n.next_index p - 1);
  entries = drop (n.next_index p) n.log.entries;
  leader_commit = n.commit_index;
}

replicate_tick-message :
    (p : NodeId) (n : Node)
    → IsLog n.log
    → n.state ≡ leader
    → 0 < n.next_index p
    → n.next_index p < length n.log.entries
    → replicate_tick p n ≡ some (send (message p n))
unfolding replicate_tick
replicate_tick-message p n w l above inside =
    let next = n.next_index p in
    let prev : sub64 next 1 ≡ next - 1 = omega (arith, w.fits) in
    rw
      (
        l,
        prev,
        term_at-eq n.log (next - 1) (omega (arith, w.fits)),
        entries_from-eq n.log next w (omega (arith, w.fits)),
      )
      (ground (arith, length-drop next n.log.entries, above, inside))

-- Entries of one term, wherever they stand in the two logs, have the same entries before them.
abbrev pub Kin : List LogEntry → List LogEntry → Type 0
Kin old new =
    (a b : ℕ)
    → a < length old
    → b < length new
    → term_of old a ≡ term_of new b
    → take (suc (min a b)) old ≡ take (suc (min a b)) new

Kin-Agree : (old new : List LogEntry) → Kin old new → Agree old new
Kin-Agree old new kin j h h' e =
    let same : min j j ≡ j = omega arith in
    subst (λ m. take (suc m) old ≡ take (suc m) new) same (kin j j h h' e)

message-Built :
    (p : NodeId) (n : Node)
    → IsLog n.log
    → 0 < n.next_index p
    → n.next_index p < length n.log.entries
    → Built (message p n) n.log
message-Built p n w above inside =
    let place : suc (n.next_index p - 1) ≡ n.next_index p = omega (arith, above) in
    record {
      previous = omega (arith, inside, w.fits);
      previous_term = refl;
      rest = inl (ap (λ k. drop k n.log.entries) (sym place));
    }

-- What a refused turn does to the two.
pub record Steps (p : NodeId) (n f n' f' : Node) : Type 0 where
  pub backs : BacksUp p n n'
  pub log : n'.log ≡ n.log
  pub state : n'.state ≡ n.state
  pub term : n'.current_term ≡ n.current_term
  pub peer_log : f'.log ≡ f.log
  pub peer_term : f'.current_term ≤ n.current_term

refused_response :
    (p : NodeId) (es : List LogEntry) (r : AppendEntriesReply) (n : Node) {n' : Node}
    → n.state ≡ leader
    → r.success ≡ false
    → r.term ≡ n.current_term
    → handle_conflict p r n ≡ some n'
    → handle_replicate_response n.current_term p es (some r) n ≡ some (n', true)
unfolding handle_replicate_response settle
refused_response p es r n l s t h = ground (arith, l, s, t, h)

refused_taken :
    (p : NodeId) (n f' n' : Node) (r : AppendEntriesReply)
    → r.success ≡ false
    → handle_replicate_response n.current_term p (message p n).entries (some r) n ≡ some (n', true)
    → taken p (message p n) n (f', r) ≡ some (n', f', false)
refused_taken p n f' n' r s h =
    let rest = handle_replicate_response n.current_term p (message p n).entries (some r) n >>= λ m.
    some (m.0, f', false) in
    ap (λ b. if b then some (n, f', true) else rest) s
    ∙ ap (λ o. o >>= λ m. some (m.0, f', false)) h

module _ (p : NodeId) (n f : Node) (l : n.state ≡ leader) (w : IsLog n.log) (v : IsLog f.log)
    (above : 0 < n.next_index p) (inside : n.next_index p < length n.log.entries)
    (kin : Kin f.log.entries n.log.entries) (le : f.current_term ≤ n.current_term) where
  -- A term that the peer has at the previous place of a message it refuses stands nowhere behind
  -- that place in the leader's log.
  not_behind :
      {f' : Node} {r : AppendEntriesReply}
      → Fits (message p n) f
      → handle_append_entries (message p n) f ≡ some (f', r)
      → r.success ≡ false
      → 0 < r.conflict_term
      → (j : LogIndex) → n.next_index p - 1 ≤ j
      → j < length n.log.entries
      → term_of n.log.entries j ≢ r.conflict_term
  not_behind {f'} {r} fits handled s positive j after j_in e =
      let args = message p n in
      let prev = n.next_index p - 1 in
      let (_, (hint, _, _)) = refused-Hint args f fits handled le s in
      elim hint [
        | inl (_, zeroth, _) ↦ omega (arith, zeroth, positive)
        | inr (term, _) ↦ elim (Bool-cases (ltb prev (length f.log.entries))) [
          | inr out ↦ omega (tests, term_of-out f.log.entries prev (omega tests), term, positive)
          | inl has ↦
              let least : min prev j ≡ prev = omega (arith, after) in
              let same : take (suc prev) f.log.entries ≡ take (suc prev) n.log.entries =
                subst (λ m. take (suc m) f.log.entries ≡ take (suc m) n.log.entries) least
                  (kin prev j (omega tests) j_in (sym term ∙ sym e)) in
              let at : term_of f.log.entries prev ≡ term_of n.log.entries prev =
                sym (term_of-take (suc prev) prev f.log.entries (omega arith))
                ∙ ap (λ es. term_of es prev) same
                ∙ term_of-take (suc prev) prev n.log.entries (omega arith) in
              let accepted = (success_iff args f fits handled).1 (le, inr (omega tests, at)) in
              ground (arith, accepted, s)
        ]
      ]

  message-Fits : Fits (message p n) f
  message-Fits = record {
    log = v;
    message = omega (arith, length-drop (n.next_index p) n.log.entries, above, inside, w.fits);
  }

  -- A turn whose message was handled.
  turn-handled :
      {f' : Node} {r : AppendEntriesReply}
      → handle_append_entries (message p n) f ≡ some (f', r)
      → turn p n f ≡ taken p (message p n) n (f', r)
  unfolding turn
  turn-handled handled =
      ap (λ o. o >>= λ tick. delivered_to p tick n f) (replicate_tick-message p n w l above inside)
      ∙ ap (λ o. o >>= taken p (message p n) n) handled

  -- The whole log of the leader stands in the log of a peer that accepted.
  covers :
      {f' : Node} {r : AppendEntriesReply}
      → term_of f.log.entries 0 ≡ term_of n.log.entries 0
      → Fits (message p n) f
      → handle_append_entries (message p n) f ≡ some (f', r)
      → r.success ≡ true
      → take (length n.log.entries) f'.log.entries ≡ n.log.entries
  covers {f'} {r} first fits handled s =
      let args = message p n in
      let next = n.next_index p in
      let last = length n.log.entries - 1 in
      let whole : suc last ≡ length n.log.entries = omega (arith, inside) in
      let agree = Kin-Agree f.log.entries n.log.entries kin in
      elim (append-Agree args f handled v n.log (message-Built p n w above inside) w first agree) [
        | inr all ↦
            ap (λ k. take (length n.log.entries) k.entries) all
            ∙ take_all (length n.log.entries) n.log.entries (omega arith)
        | inl own ↦
            let (_, terms) = accepted_entries args f fits handled s in
            let size = length-drop next n.log.entries in
            let j = length n.log.entries - next - 1 in
            let place : suc args.prev_log_index + j ≡ last = omega (arith, above, inside) in
            let place' : next + j ≡ last = omega (arith, inside) in
            let same : term_of f.log.entries last ≡ term_of n.log.entries last =
              ap (λ k. term_of k.entries last) (sym own)
              ∙ ap (term_of f'.log.entries) (sym place)
              ∙ terms j (omega (arith, size, inside))
              ∙ term_of-drop next j n.log.entries
              ∙ ap (term_of n.log.entries) place' in
            let (long, _) =
              length-merged args.entries (suc args.prev_log_index) f.log.entries
                (place_in_log args f fits handled s) in
            let reach : last < length f.log.entries = omega (
              arith,
              ap (λ k. length k.entries) (sym own),
              ap length (log-success args f fits handled s),
              long,
              size,
              above,
              inside,
            ) in
            ap (λ k. take (length n.log.entries) k.entries) own
            ∙ subst (λ m. take m f.log.entries ≡ take m n.log.entries) whole
                (agree last reach (omega (arith, inside)) same)
            ∙ take_all (length n.log.entries) n.log.entries (omega arith)
      ]

  -- A refused message makes the next one begin earlier.
  refused-Steps :
      {f' : Node} {r : AppendEntriesReply}
      → Fits (message p n) f
      → handle_append_entries (message p n) f ≡ some (f', r)
      → r.success ≡ false
      → r.term ≡ n.current_term
      → f'.current_term ≡ n.current_term
      → (n' : Node) × (turn p n f ≡ some (n', f', false)) × Steps p n f n' f'
  refused-Steps {f'} {r} fits handled s term now =
      let args = message p n in
      let (kept, (_, some_hint, small)) = refused-Hint args f fits handled le s in
      let (n', moved, backs) =
        handle_conflict-BacksUp p r n w some_hint (omega (arith, small, above))
          (not_behind fits handled s) in
      let same = handle_conflict-SameDisk p n r moved in
      let answered = refused_response p args.entries r n l s term moved in
      (
        n',
        turn-handled handled ∙ refused_taken p n f' n' r s answered,
        record {
          backs = backs;
          log = same.log;
          state = same.state;
          term = same.current_term;
          peer_log = kept.log;
          peer_term = omega (arith, now);
        },
      )

  -- A turn either brings the whole log over, or makes the next message begin earlier.
  turn-either :
      term_of f.log.entries 0 ≡ term_of n.log.entries 0
      → ((f' : Node) × (turn p n f ≡ some (n, f', true))
          × (take (length n.log.entries) f'.log.entries ≡ n.log.entries))
        ⊎ ((n' : Node) × (f' : Node) × (turn p n f ≡ some (n', f', false)) × Steps p n f n' f')
  turn-either first =
      let args = message p n in
      let handled = handle_append_entries-eq args f le message-Fits in
      elim (Option-cases (conflict_of args f.log)) [
        | inl agree ↦
            let accepted = rw agree at handled in
            inl
              (outcome args f none, turn-handled accepted, covers first message-Fits accepted refl)
        | inr ((t, i), conflict) ↦
            let refused = rw conflict at handled in
            let (n', turned, steps) =
              refused-Steps message-Fits refused refl refl (current_term-follow_leader args f le) in
            inr (n', outcome args f (some (t, i)), turned, steps)
      ]

-- The same for any two logs that fit an `int` and are kin.
pub turns-covers :
    (k : ℕ) (p : NodeId) (n f : Node)
    → n.state ≡ leader
    → IsLog n.log
    → IsLog f.log
    → 0 < n.next_index p
    → n.next_index p < length n.log.entries
    → Kin f.log.entries n.log.entries
    → f.current_term ≤ n.current_term
    → term_of f.log.entries 0 ≡ term_of n.log.entries 0
    → n.next_index p ≤ k
    → (n' : Node) × (f' : Node) × (turns p k n f ≡ some (n', f', true))
      × (n'.log ≡ n.log)
      × (take (length n.log.entries) f'.log.entries ≡ n.log.entries)
unfolding turns
turns-covers zero p n f l w v above inside kin le first few = absurd (omega (arith, above, few))
turns-covers (suc k) p n f l w v above inside kin le first few =
    elim (turn-either p n f l w v above inside kin le first) [
      | inl (f', turned, whole) ↦ (n, f', ap next_turn turned, refl, whole)
      | inr (n', f', turned, s) ↦
          let b = s.backs in
          let (n'', f'', turned', log, whole) =
            turns-covers k p n' f' (s.state ∙ l) (rw s.log w) (rw s.peer_log v) b.above_zero
              (rw s.log (omega (arith, b.lower, inside))) (rw (s.log, s.peer_log) kin)
              (omega (arith, s.term, s.peer_term)) (rw (s.log, s.peer_log) first)
              (omega (arith, b.lower, few)) in
          (n'', f'', ap next_turn turned ∙ turned', log ∙ s.log, rw s.log at whole)
    ]
  where
    next_turn : Option (Node × Node × Bool) → Option (Node × Node × Bool)
    next_turn o = o >>= λ s. (let later = turns p k s.0 s.1 in if s.2 then some s else later)
