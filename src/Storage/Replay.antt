-- ===== src/Storage/Replay.antt =====
-- internal/storage/wal.go: `replayFile` and `Replay`.
pub mod Scan
pub mod Fuel
pub mod File
pub mod Truncated
use gammaflow.Base.{
  ℕ, zero, suc, ◌+◌, ◌%◌, String, Option, none, some, List, [], ◌∷◌, ◌++◌, ltb, ◌==◌, if◌then◌else◌,
  str_eq, length, take, drop, slice,
}
use gammaflow.Storage.Record.{Record, term_record, vote_record, entry_record}
use gammaflow.Storage.Codec.{Codec}
use gammaflow.Storage.Frame.{u32_mod, get_u32, checksum}

pub record EntryRecord : Type 0 where
  pub index : ℕ
  pub term : ℕ
  pub command : List ℕ

-- The named results of `replayFile` and of `Replay`.
pub record Replayed : Type 0 where
  pub term : ℕ
  pub voted_for : String
  pub entries : List EntryRecord

abbrev pub nothing : Replayed
nothing = record { term = 0; voted_for = ""; entries = [] }

-- The bodies of the `switch`, for a payload that was read.
unfoldable pub absorb : Record → Replayed → Replayed
absorb (term_record t) s = record s { term = t }
absorb (vote_record v t) s = record s { voted_for = v; term = if ltb s.term t then t else s.term }
absorb (entry_record i t c) s = record s {
  entries = s.entries ++ record { index = i; term = t; command = c } ∷ [];
}

abbrev pub absorb_all : List Record → Replayed → Replayed
absorb_all [] s = s
absorb_all (r ∷ rs) s = absorb_all rs (absorb r s)

-- `json.Unmarshal` of the payload for its record type; `none` is a bad payload or an unknown type,
-- and is passed over.
unfoldable pub decode : Codec → ℕ → List ℕ → Option Record
decode c record_type data' =
    if record_type == 1
    then elim (c.read_term data') [ none ↦ none | some t ↦ some (term_record t) ]
    else if record_type == 2
    then elim (c.read_vote data') [ none ↦ none | some (v, t) ↦ some (vote_record v t) ]
    else if record_type == 3
    then elim (c.read_entry data') [ none ↦ none | some (i, t, b) ↦ some (entry_record i t b) ]
    else none

abbrev pub absorb_if : Option Record → Replayed → Replayed
absorb_if none s = s
absorb_if (some r) s = absorb r s

-- What the loop finds at its place in the file: no full header; an incomplete record or a wrong
-- checksum; a length that makes the slice bounds wrong, which panics; or a valid record.
pub data Found : Type 0 where
  end corrupt panic : Found
  valid : (record_type : ℕ) (payload : List ℕ) (rest : List ℕ) → Found

-- The checks on a body of `payloadLen + 4` bytes.
unfoldable pub check_body : List ℕ → ℕ → List ℕ → List ℕ → Found
check_body head payload_len body rest = elim (slice body 0 payload_len) [
  | none ↦ panic
  | some payload ↦
      if get_u32 (drop payload_len body) == checksum (head ++ payload)
      then valid (get_u32 head) payload rest
      else corrupt
]

unfoldable pub read_record : List ℕ → Found
read_record bytes =
    let head = take 8 bytes in
    let payload_len = get_u32 (drop 4 head) in
    let size = (payload_len + 4) % u32_mod in
    let after = drop 8 bytes in
    if ltb (length bytes) 8
    then end
    else if ltb (length after) size
    then corrupt
    else check_body head payload_len (take size after) (drop size after)

-- The result of `replayFile`, with the offset at which the file is truncated.
pub data Scanned : Type 0 where
  out_of_fuel panicked : Scanned
  done : Replayed → Option ℕ → Scanned

unfoldable pub scan : Codec → ℕ → List ℕ → ℕ → Replayed → Scanned
scan c zero bytes offset s = out_of_fuel
scan c (suc fuel) bytes offset s = elim (read_record bytes) [
  | end ↦ done s none
  | corrupt ↦ done s (some offset)
  | panic ↦ panicked
  | valid record_type payload rest ↦
      scan c fuel rest (offset + (8 + length payload + 4) % u32_mod)
        (absorb_if (decode c record_type payload) s)
]

-- Every round takes at least a header from the file, so that its length is fuel enough.
unfoldable pub replay_file : Codec → List ℕ → Scanned
replay_file c bytes = scan c (suc (length bytes)) bytes 0 nothing

-- `Replay` over the results of the files, oldest first: the last term and vote win.
abbrev pub merge_file : Replayed → Replayed → Replayed
merge_file s t = record {
  term = if ltb 0 t.term then t.term else s.term;
  voted_for = if str_eq t.voted_for "" then s.voted_for else t.voted_for;
  entries = s.entries ++ t.entries;
}
