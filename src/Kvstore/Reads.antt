-- ===== src/Kvstore/Reads.antt =====
-- Reads of the store after a history of writes.
use gammaflow.Base.{
  ℕ, String, Bool, true, false, Option, none, some, List, [], ◌∷◌, ◌≡◌, ◌≢◌, refl, ap, ◌∙◌, arith,
  map, str_eq, if◌then◌else◌,
}
use gammaflow.Kvstore.Codec.{Command, CommandCodec}
use gammaflow.Kvstore.{
  KvStore, get, put, delete, apply, serialize_put, serialize_delete, consume, consume_all,
}

-- What a client asks of the store.
pub data Write : Type 0 where
  put_of : (key value : String) → Write
  delete_of : (key : String) → Write

-- The command that the handlers of internal/api submit for it.
abbrev pub serialize : CommandCodec → Write → List ℕ
serialize c (put_of key value) = serialize_put c key value
serialize c (delete_of key) = serialize_delete c key

-- What a read of a key gives after a history of writes, `before` being what it gave at first.
abbrev pub last_write : String → List Write → Option String → Option String
last_write k [] before = before
last_write k (put_of key value ∷ ws) before =
    last_write k ws (if str_eq k key then some value else before)
last_write k (delete_of key ∷ ws) before = last_write k ws (if str_eq k key then none else before)

-- The two results of `Get`.
abbrev pub answer : Option String → String × Bool
answer none = ("", false)
answer (some v) = (v, true)

consume-nonempty :
    (c : CommandCodec) (bs : List ℕ) (s : KvStore) → bs ≢ [] → consume c bs s ≡ (apply c bs s).0
unfolding consume
consume-nonempty c [] s h = absurd (h refl)
consume-nonempty c (b ∷ bs) s h = refl

-- A marshalled command is consumed as it was written.
consume-write :
    (c : CommandCodec) (cmd : Command) (s : KvStore)
    → consume c (c.write cmd) s ≡ (
        if str_eq cmd.op "put"
        then put cmd.key cmd.value s
        else if str_eq cmd.op "delete"
        then delete cmd.key s
        else s)
unfolding apply
consume-write c cmd s =
    consume-nonempty c (c.write cmd) s (c.nonempty cmd) ∙ rw (apply, c.law cmd) (ground arith)

consume-serialize :
    (c : CommandCodec) (w : Write) (ws : List Write) (s : KvStore) (k : String)
    → last_write k ws ((consume c (serialize c w) s).data' k) ≡ last_write k (w ∷ ws) (s.data' k)
unfolding serialize_put serialize_delete put delete
consume-serialize c (put_of key value) ws s k =
    ap (λ t. last_write k ws (t.data' k))
      (consume-write c (record { op = "put"; key = key; value = value }) s)
consume-serialize c (delete_of key) ws s k =
    ap (λ t. last_write k ws (t.data' k))
      (consume-write c (record { op = "delete"; key = key; value = "" }) s)

stored_value :
    (c : CommandCodec) (ws : List Write) (s : KvStore) (k : String)
    → (consume_all c (map (serialize c) ws) s).data' k ≡ last_write k ws (s.data' k)
unfolding consume_all
stored_value c [] s k = refl
stored_value c (w ∷ ws) s k =
    stored_value c ws (consume c (serialize c w) s) k ∙ consume-serialize c w ws s k

-- The store is a map: after the consumer has applied the commands of any history of puts and
-- deletes, a read gives the value of the last put of its key, or that the key is missing if the
-- last write was a delete; a key without a write reads as before.
pub get-last_write :
    (c : CommandCodec) (ws : List Write) (s : KvStore) (k : String)
    → get k (consume_all c (map (serialize c) ws) s) ≡ answer (last_write k ws (s.data' k))
unfolding get
get-last_write c ws s k =
    rw (get, stored_value c ws s k)
      (elim (last_write k ws (s.data' k)) [ none ↦ refl | some v ↦ refl ])
