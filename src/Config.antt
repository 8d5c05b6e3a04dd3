-- ===== src/Config.antt =====
-- internal/config/config.go. The parsing of flags is the `flag` package's: `Flags` is its result.
pub mod Text
pub mod RoundTrip
pub mod Addresses
use Prim.Native.Char.{Char}
use gammaflow.Base.{String, Option, none, some, List, [], ◌∷◌, if◌then◌else◌, str_eq, update}
use gammaflow.Raft.Types.{NodeId}
use gammaflow.Config.Text.{trim_space, split, split_pair}

-- The errors, in the place of their texts.
pub data ConfigError : Type 0 where
  node_id_required : ConfigError
  invalid_pair : String → ConfigError
  in_flag : (name : String) → ConfigError → ConfigError

pub data Parsed {ℓ} (A : Type ℓ) : Type ℓ where
  ok : A → Parsed A
  wrong : ConfigError → Parsed A

pub record Config : Type 0 where
  pub node_id : NodeId
  pub peers : List NodeId
  pub http_addr : String
  pub grpc_addr : String
  pub data_dir : String
  pub peer_grpc_addrs : NodeId → Option String
  pub peer_http_addrs : NodeId → Option String

-- The values of the flags.
pub record Flags : Type 0 where
  pub node_id : String
  pub peers : String
  pub http_addr : String
  pub grpc_addr : String
  pub data_dir : String
  pub peer_grpc : String
  pub peer_http : String

abbrev pub default_flags : Flags
default_flags = record {
  node_id = "";
  peers = "";
  http_addr = ":8080";
  grpc_addr = ":9090";
  data_dir = "./data";
  peer_grpc = "";
  peer_http = "";
}

abbrev pub Addrs : Type 0
Addrs = NodeId → Option String

-- The body of the loop of `parseAddrMap`.
unfoldable pub add_pair : String → Addrs → Parsed Addrs
add_pair pair m =
    let trimmed = trim_space pair in
    if str_eq trimmed "" then ok m else elim (split_pair "=" trimmed) [
      | none ↦ wrong (invalid_pair trimmed)
      | some (l, r) ↦ ok (update m (trim_space l) (some (trim_space r)))
    ]

abbrev pub and_then : Parsed Addrs → (Addrs → Parsed Addrs) → Parsed Addrs
and_then (ok m) f = f m
and_then (wrong e) f = wrong e

unfoldable pub add_pairs : List String → Addrs → Parsed Addrs
add_pairs [] m = ok m
add_pairs (p ∷ ps) m = and_then (add_pair p m) (add_pairs ps)

-- `parseAddrMap`
unfoldable pub parse_addr_map : String → Parsed Addrs
parse_addr_map s = add_pairs (split "," s) (λ _. none)

-- The loop over the peer list.
unfoldable pub named_peers : List String → List NodeId
named_peers [] = []
named_peers (p ∷ ps) =
    let rest = named_peers ps in
    let trimmed = trim_space p in if str_eq trimmed "" then rest else trimmed ∷ rest

unfoldable pub parse_peers : String → List NodeId
parse_peers s = if str_eq s "" then [] else named_peers (split "," s)

-- One of the two address flags, where it was given.
unfoldable pub parse_addrs : String → Parsed Addrs
parse_addrs s = if str_eq s "" then ok (λ _. none) else parse_addr_map s

abbrev pub wrapped : String → Parsed Addrs → Parsed Addrs
wrapped name (ok m) = ok m
wrapped name (wrong e) = wrong (in_flag name e)

-- The configuration of the parsed parts.
abbrev pub assemble : Flags → Parsed Addrs → Parsed Addrs → Parsed Config
assemble f (wrong e) http = wrong e
assemble f (ok grpc) (wrong e) = wrong e
assemble f (ok grpc) (ok http) = ok (record {
  node_id = f.node_id;
  peers = parse_peers f.peers;
  http_addr = f.http_addr;
  grpc_addr = f.grpc_addr;
  data_dir = f.data_dir;
  peer_grpc_addrs = grpc;
  peer_http_addrs = http;
})

-- `Parse`
unfoldable pub parse : Flags → Parsed Config
parse f =
    if str_eq f.node_id ""
    then wrong node_id_required
    else assemble f (wrapped "parse peer-grpc-addrs" (parse_addrs f.peer_grpc))
        (wrapped "parse peer-http-addrs" (parse_addrs f.peer_http))

-- `ParseFromEnv`
unfoldable pub parse_from_env : Flags → Parsed Config
parse_from_env f = assemble f (parse_addrs f.peer_grpc) (parse_addrs f.peer_http)
