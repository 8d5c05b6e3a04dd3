-- ===== src/Tests/Config.antt =====
-- Flags: the theorems of Config at concrete inputs.
use gammaflow.Base.{
  ◌≡◌, ◌↔◌, In, refl, none, String, List, [], ◌∷◌, arith, eq_iff, str_eq, false, ◌≢◌,
}
use gammaflow.Config.Text.{is_space, trim_space, split, split_pair}
use gammaflow.Config.{
  ConfigError, ok, wrong, in_flag, invalid_pair, default_flags, add_pair, add_pairs, parse_addr_map,
  named_peers, parse_peers, parse_addrs, parse, parse_from_env,
}
use gammaflow.Config.RoundTrip.{Spelled, parse_peers-joined}
use gammaflow.Config.Addresses.{Pair, table, parse_addr_map-joined, IsBad, parse_addr_map_fails_iff}

unfoldable config_calls : List String
unfolding is_space trim_space split split_pair add_pair add_pairs parse_addr_map named_peers
    parse_peers parse_addrs parse parse_from_env
config_calls = []

abbrev peers : List Spelled
peers =
    record { raw = "node-2"; name = "node-2" } ∷ record { raw = " node-3 "; name = "node-3" } ∷ []

differ : (a b : String) → str_eq a b ≡ false → a ≢ b
differ a b h e = absurd (ground (arith, h, eq_iff a b, e))

parse_peers-joined_example : parse_peers "node-2, node-3 " ≡ "node-2" ∷ "node-3" ∷ []
unfolding config_calls
parse_peers-joined_example = parse_peers-joined peers (
  record {
    lacks = (refl, (refl, (refl, (refl, (refl, (refl, tt))))));
    trims = refl;
    named = differ "node-2" "" refl;
  },
  (
    record {
      lacks = (refl, (refl, (refl, (refl, (refl, (refl, (refl, (refl, tt))))))));
      trims = refl;
      named = differ "node-3" "" refl;
    },
    tt,
  ),
)

abbrev pair : Pair
pair = record { raw = " n2 = :91"; left = "n2 "; right = " :91" }

parse_addr_map-joined_example : parse_addr_map " n2 = :91" ≡ ok (table (pair ∷ []) (λ _. none))
unfolding config_calls
parse_addr_map-joined_example = parse_addr_map-joined pair [] (
  record {
    lacks = (refl, (refl, (refl, (refl, (refl, (refl, (refl, (refl, (refl, tt)))))))));
    trims = refl;
    first = (refl, (refl, (refl, tt)));
  },
  tt,
)

-- The flag is named where `Parse` fails, and not where `ParseFromEnv` does.
refused :
    (parse (record default_flags { node_id = "node-1"; peer_grpc = "node-2" })
      ≡ wrong (in_flag "parse peer-grpc-addrs" (invalid_pair "node-2")))
    × (parse_from_env (record default_flags { node_id = "node-1"; peer_grpc = "node-2" })
        ≡ wrong (invalid_pair "node-2"))
unfolding config_calls
refused = (refl, refl)

-- `node-2` has no address.
parse_addr_map_fails_iff_example :
    ((e : ConfigError) × (parse_addr_map "node-1=:91,node-2" ≡ wrong e))
    ↔ ((p : String) × In p (split "," "node-1=:91,node-2") × IsBad p)
parse_addr_map_fails_iff_example = parse_addr_map_fails_iff "node-1=:91,node-2"
