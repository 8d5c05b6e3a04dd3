-- ===== src/Tests/Kvstore.antt =====
-- The store: the theorems of Kvstore at concrete inputs.
use gammaflow.Base.{ℕ, ◌≡◌, refl, some, true, false, [], ◌∷◌, List, map, arith}
use gammaflow.Raft.Types.{LogEntry}
use gammaflow.Raft.Node.{Node}
use gammaflow.Raft.Apply.{Batch, collect, delivered}
use gammaflow.Kvstore.{
  KvStore, get, put, delete, apply, serialize_put, serialize_delete, consume, consume_all,
  new_kv_store,
}
use gammaflow.Kvstore.Reads.{
  Write, put_of, delete_of, serialize, answer, last_write, get-last_write,
}
use gammaflow.Kvstore.Applied.{store_at, apply_loop_refines}
use gammaflow.Tests.Data.{follower_2, raft_calls}
use gammaflow.Tests.Codecs.{command_codec}

unfoldable kv_calls : List ℕ
unfolding get put delete apply serialize_put serialize_delete consume consume_all
kv_calls = []

abbrev history : List Write
history = put_of "x" "1" ∷ put_of "y" "2" ∷ delete_of "x" ∷ []

abbrev stored : KvStore
stored = consume_all command_codec (map (serialize command_codec) history) new_kv_store

get-last_write_example : get "y" stored ≡ answer (last_write "y" history (new_kv_store.data' "y"))
get-last_write_example = get-last_write command_codec history new_kv_store "y"

read_back : (get "y" stored ≡ ("2", true)) × (get "x" stored ≡ ("", false))
unfolding kv_calls
read_back = (refl, refl)

-- Three entries are committed, and one of them is applied.
abbrev behind : Node
behind = record follower_2 { commit_index = 3; last_applied = 1 }

apply_loop_refines_example :
    (b : Batch) × (collect behind ≡ some (some b))
    × (consume_all command_codec
          (map (λ (e : LogEntry). e.command) b.entries)
          (store_at command_codec 1 behind.log.entries)
        ≡ store_at command_codec (delivered b behind).last_applied (delivered b behind).log.entries)
unfolding raft_calls
apply_loop_refines_example =
    apply_loop_refines command_codec behind behind (store_at command_codec 1 behind.log.entries)
      (omega arith) (omega arith) (omega arith) refl refl
