-- ===== src/Kvstore/Applied.antt =====
-- The store and the committed log: `applyLoop` of internal/raft/replication.go and the consumer of
-- cmd/server/main.go.
use mathlib.Core.List.{map-append}
use native.Mathlib.Nat.{sub-zero}
use gammaflow.Base.{
  ℕ, zero, suc, ◌-◌, ◌≤◌, ◌<◌, ◌≡◌, refl, ap, sym, ◌∙◌, some, List, [], ◌∷◌, ◌++◌, arith, map,
  length, take, drop, lt→leb, take-take, take_nil, drop_all, add64,
}
use gammaflow.Raft.Types.{LogIndex, LogEntry}
use gammaflow.Raft.Log.{entries}
use gammaflow.Raft.Log.View.{IsLog, entries-eq}
use gammaflow.Raft.Node.{Node}
use gammaflow.Raft.Apply.{Batch, collect, delivered}
use gammaflow.Kvstore.Codec.{CommandCodec}
use gammaflow.Kvstore.{KvStore, new_kv_store, consume, consume_all}

-- The entries from index 1 to a given one.
abbrev pub up_to : LogIndex → List LogEntry → List LogEntry
up_to i es = take i (drop 1 es)

take-split {ℓ} :
    {A : Type ℓ} (a b : ℕ) (xs : List A) → a ≤ b → take a xs ++ take (b - a) (drop a xs) ≡ take b xs
take-split zero b xs h = rw sub-zero
take-split (suc a) zero xs h = absurd (omega arith)
take-split (suc a) (suc b) [] h = take_nil (suc b - suc a)
take-split (suc a) (suc b) (x ∷ xs) h =
    ap (λ t. x ∷ t)
      (ap (λ k. take a xs ++ take k (drop a xs)) (omega arith) ∙ take-split a b xs (omega arith))

drop-up_to : (a : ℕ) (es : List LogEntry) → drop (suc a) es ≡ drop a (drop 1 es)
drop-up_to a [] = sym (drop_all a [] (omega arith))
drop-up_to a (e ∷ es) = refl

pub up_to-take : (i : LogIndex) (es : List LogEntry) → up_to i (take (suc i) es) ≡ up_to i es
up_to-take i [] = refl
up_to-take i (e ∷ es) = take-take i i es (omega arith)

-- A turn of the loop that finds the commit index ahead does not panic, and collects what follows
-- the entries that were applied, up to the commit index. (The log is within the range of an `int`
-- and has the committed entries.)
collect-eq :
    (n : Node)
    → IsLog n.log
    → n.last_applied < n.commit_index
    → n.commit_index < length n.log.entries
    → (b : Batch) × (collect n ≡ some (some b))
      × (b.new_last_applied ≡ n.commit_index)
      × (up_to n.last_applied n.log.entries ++ b.entries ≡ up_to n.commit_index n.log.entries)
unfolding collect
collect-eq n w ahead inside =
    let (a, b) : ℕ × ℕ = (n.last_applied, n.commit_index) in
    let es = n.log.entries in
    let read : entries n.log (add64 a 1) b ≡ some (take (b - a) (drop (suc a) es)) =
      ap (λ i. entries n.log i b) (omega arith)
      ∙ entries-eq n.log (suc a) b w (omega arith) (omega arith)
      ∙ ap (λ k. some (take k (drop (suc a) es))) (omega arith) in
    (
      record { entries = take (b - a) (drop (suc a) es); new_last_applied = b },
      rw (lt→leb b a ahead, read) refl,
      refl,
      rw (drop-up_to a es) (take-split a b (drop 1 es) (omega arith)),
    )

-- The store after the consumer has applied the log up to an index.
abbrev pub store_at : CommandCodec → LogIndex → List LogEntry → KvStore
store_at c i es = consume_all c (map (λ e. e.command) (up_to i es)) new_kv_store

consume_all-append :
    (c : CommandCodec) (xs ys : List (List ℕ)) (s : KvStore)
    → consume_all c (xs ++ ys) s ≡ consume_all c ys (consume_all c xs s)
unfolding consume_all
consume_all-append c [] ys s = refl
consume_all-append c (x ∷ xs) ys s = consume_all-append c xs ys (consume c x s)

-- State machine safety of one node: a turn of the apply loop that finds the commit index ahead
-- hands over a batch, and a store that was the result of the log up to `last_applied` becomes,
-- when the consumer has applied the batch, the result of the log up to the new `last_applied`, in
-- the state `m` at which the batch is done. (The log is within the range of an `int` and has the
-- committed entries, and keeps them in between.)
pub apply_loop_refines :
    (c : CommandCodec) (n m : Node) (s : KvStore)
    → IsLog n.log
    → n.last_applied < n.commit_index
    → n.commit_index < length n.log.entries
    → take (suc n.commit_index) m.log.entries ≡ take (suc n.commit_index) n.log.entries
    → s ≡ store_at c n.last_applied n.log.entries
    → (b : Batch) × (collect n ≡ some (some b))
      × (consume_all c (map (λ e. e.command) b.entries) s
          ≡ store_at c (delivered b m).last_applied (delivered b m).log.entries)
unfolding delivered
apply_loop_refines c n m s w ahead inside kept at =
    let (b, collected, last, joined) = collect-eq n w ahead inside in
    let command : LogEntry → List ℕ = λ e. e.command in
    (
      b,
      collected,
      rw (at, last)
          (sym (
              consume_all-append c (map command (up_to n.last_applied n.log.entries))
                (map command b.entries) new_kv_store)
            ∙ ap (λ l. consume_all c l new_kv_store)
                (sym (map-append command (up_to n.last_applied n.log.entries) b.entries)
                  ∙ ap (map command) (
                      joined
                      ∙ sym (up_to-take n.commit_index n.log.entries)
                      ∙ ap (up_to n.commit_index) (sym kept)
                      ∙ up_to-take n.commit_index m.log.entries))),
    )
