-- ===== src/Kvstore.antt =====
-- internal/kvstore/store.go, and the consumer of the apply channel in cmd/server/main.go.
pub mod Codec
pub mod Reads
pub mod Applied
pub mod Replicas
use gammaflow.Base.{
  ℕ, String, Bool, true, false, Option, none, some, List, [], ◌∷◌, str_eq, if◌then◌else◌, update,
}
use gammaflow.Kvstore.Codec.{Command, CommandCodec}

abbrev pub cmd_put : String
cmd_put = "put"

abbrev pub cmd_delete : String
cmd_delete = "delete"

-- `KVStore`. The map's keys are never enumerated, so it is a function; `none` is a missing key.
pub record KvStore : Type 0 where
  pub data' : String → Option String

abbrev pub new_kv_store : KvStore
new_kv_store = record { data' = λ k. none }

-- A missing key gives the zero value, and `false`.
unfoldable pub get : String → KvStore → String × Bool
get key s = elim (s.data' key) [ none ↦ ("", false) | some val ↦ (val, true) ]

unfoldable pub put : String → String → KvStore → KvStore
put key value s = record { data' = update s.data' key (some value) }

unfoldable pub delete : String → KvStore → KvStore
delete key s = record { data' = update s.data' key none }

pub data ApplyError : Type 0 where
  unmarshal_command : ApplyError
  unknown_op : String → ApplyError

-- `Apply`: the store after the call, and the error it returns.
unfoldable pub apply : CommandCodec → List ℕ → KvStore → KvStore × Option ApplyError
apply c cmd_bytes s = elim (c.read cmd_bytes) [
  | none ↦ (s, some unmarshal_command)
  | some cmd ↦
      if str_eq cmd.op cmd_put
      then (put cmd.key cmd.value s, none)
      else if str_eq cmd.op cmd_delete
      then (delete cmd.key s, none)
      else (s, some (unknown_op cmd.op))
]

unfoldable pub serialize_put : CommandCodec → String → String → List ℕ
serialize_put c key value = c.write (record { op = cmd_put; key = key; value = value })

unfoldable pub serialize_delete : CommandCodec → String → List ℕ
serialize_delete c key = c.write (record { op = cmd_delete; key = key; value = "" })

-- The body of the consumer's loop in `main`: an empty command is passed over, an error only logged.
unfoldable pub consume : CommandCodec → List ℕ → KvStore → KvStore
consume c [] s = s
consume c (b ∷ bs) s = (apply c (b ∷ bs) s).0

-- The consumer over the commands that it receives, in their order.
unfoldable pub consume_all : CommandCodec → List (List ℕ) → KvStore → KvStore
consume_all c [] s = s
consume_all c (b ∷ bs) s = consume_all c bs (consume c b s)
