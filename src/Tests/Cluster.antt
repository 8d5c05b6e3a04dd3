-- ===== src/Tests/Cluster.antt =====
-- A cluster of three nodes: the theorems of Raft/Cluster at a concrete run.
use mathlib.Core.Path.{subst}
use mathlib.Core.List.Permᴰ
use mathlib.Core.List.{Perm, Permᴰ}
use gammaflow.Base.{
  ◌≡◌, ◌≢◌, refl, sym, inl, inr, some, true, false, Bool, String, List, [], ◌∷◌, arith, eq_iff, In,
  if◌then◌else◌, str_eq, take,
}
use gammaflow.Raft.Types.{Bytes, NodeId, RequestVoteReply, AppendEntriesArgs, AppendEntriesReply}
use gammaflow.Raft.Node.{Node, new_node}
use gammaflow.Raft.Vote.{handle_request_vote}
use gammaflow.Raft.Append.{handle_append_entries}
use gammaflow.Raft.Election.{start_election, handle_vote_response}
use gammaflow.Raft.Election.Campaign.{Distinct}
use gammaflow.Raft.Submit.{submit}
use gammaflow.Raft.Recovery.{restore, replay, restart}
use gammaflow.Raft.Cluster.{
  Cluster, Ask, Ballot, Append, set, stands, answers, sends, replies, timeout, vote, count, command,
  replicate, append, crash, Reach, here, next,
}
use gammaflow.Raft.Cluster.Leaders.{Starts, election_safety}
use gammaflow.Raft.Cluster.LogMatching.{Empty, log_matching, leader_append_only}
use gammaflow.Raft.Replication.CatchUp.{turns}
use gammaflow.Raft.Cluster.CatchUp.{catches_up}
use gammaflow.Tests.Codecs.{command_codec}
use gammaflow.Tests.Data.{fresh_wal, ask, node_after, raft_calls}

-- The command that puts "1" under "x".
abbrev pub set_x : Bytes
set_x = command_codec.write (record { op = "put"; key = "x"; value = "1" })

abbrev pub one : NodeId
one = "node-1"

abbrev pub two : NodeId
two = "node-2"

abbrev pub three : NodeId
three = "node-3"

abbrev pub members : List NodeId
members = one ∷ two ∷ three ∷ []

abbrev peers_of : NodeId → List NodeId
peers_of i =
    if str_eq i one
    then two ∷ three ∷ []
    else if str_eq i two
    then one ∷ three ∷ []
    else one ∷ two ∷ []

abbrev pub quiet : Cluster
quiet = record {
  nodes = λ i. new_node i (peers_of i) (some fresh_wal) [];
  asks = [];
  ballots = [];
  rounds = [];
  appends = [];
  acks = [];
  votes = [];
}

each : (P : NodeId → Type 0) → P one → P two → P three → (i : NodeId) → In i members → P i
each P a b c i (inl e) = subst P (sym e) a
each P a b c i (inr (inl e)) = subst P (sym e) b
each P a b c i (inr (inr (inl e))) = subst P (sym e) c
each P a b c i (inr (inr (inr h))) = absurd h

differ : (a b : String) → str_eq a b ≡ false → a ≢ b
differ a b h e = absurd (ground (arith, h, eq_iff a b, e))

pub quiet-Starts : (faults : Bool) → Starts faults members quiet
unfolding raft_calls
quiet-Starts faults = record {
  named = λ i. refl;
  members_named =
      each (λ i. i ≢ "") (differ one "" refl) (differ two "" refl) (differ three "" refl);
  whole =
      each (λ i. Perm (i ∷ (quiet.nodes i).peers) members) ∣ Permᴰ.refl members ∣₁
        ∣ Permᴰ.swap refl refl ∣₁
        ∣ Permᴰ.trans (Permᴰ.swap refl refl) (Permᴰ.cons refl (Permᴰ.swap refl refl)) ∣₁;
  distinct =
      each (λ i. Distinct (i ∷ (quiet.nodes i).peers))
        (
          (differ two one refl, (differ three one refl, tt)),
          ((differ three two refl, tt), (tt, tt)),
        )
        (
          (differ one two refl, (differ three two refl, tt)),
          ((differ three one refl, tt), (tt, tt)),
        )
        (
          (differ one three refl, (differ two three refl, tt)),
          ((differ two one refl, tt), (tt, tt)),
        );
  follows = λ i. refl;
  durable = λ f i. (refl, refl, λ _. refl);
  asks = refl;
  ballots = refl;
  votes = refl;
}

-- node-1 stands for term 1, node-2 votes for it, and the two are enough.
abbrev stood : Cluster
stood = stands one (node_after (start_election (quiet.nodes one))) quiet (ask one 1)

abbrev asked : Ask
asked = record { candidate = one; voter = two; args = ask one 1 }

abbrev granted : RequestVoteReply
granted = record { term = 1; vote_granted = true }

abbrev voted : Cluster
voted = answers asked (node_after (handle_request_vote (ask one 1) (stood.nodes two))) granted stood

abbrev ballot : Ballot
ballot = record { voter = two; candidate = one; term = 1; reply = granted }

abbrev pub led : Cluster
led = set one (handle_vote_response 1 two (some granted) (voted.nodes one)) voted

pub to_led : (faults : Bool) → Reach faults members quiet led
unfolding raft_calls
to_led faults =
    next (next (next here (timeout one (inl refl) (omega arith) refl)) (vote asked (inl refl) refl))
      (count ballot (inl refl))

-- node-2 crashes with its vote on disk, and node-1 leads on.
election_safety_example : one ≡ one
unfolding raft_calls restore replay restart
election_safety_example =
    election_safety true members (quiet-Starts true) (next (to_led true) (crash two refl)) one one
      (inl refl) (inl refl) refl refl refl

-- The leader takes a command, and sends it to node-2.
abbrev pub written : Cluster
written = set one (submit set_x (led.nodes one)).0 led

abbrev pub message : AppendEntriesArgs
message = record {
  term = 1;
  leader_id = one;
  prev_log_index = 0;
  prev_log_term = 0;
  entries = record { term = 1; index = 1; command = set_x } ∷ [];
  leader_commit = 0;
}

abbrev pub sent : Append
sent = record { leader = one; follower = two; args = message; log = (written.nodes one).log }

abbrev pub accepted : AppendEntriesReply
accepted = record { term = 1; success = true; conflict_term = 0; conflict_index = 0 }

abbrev pub copied : Cluster
copied =
    replies sent (node_after (handle_append_entries message (written.nodes two))) accepted
      (sends one two message written)

pub to_copied : (s : Cluster) → Reach false members s led → Reach false members s copied
unfolding raft_calls
to_copied s r =
    next (next (next r (command one set_x (omega arith))) (replicate one two (inl refl) refl))
      (append sent (inl refl) refl)

pub quiet-Empty : Empty quiet
unfolding raft_calls
quiet-Empty = record { logs = λ i. refl; rounds = refl; appends = refl }

log_matching_example : take 2 (copied.nodes one).log.entries ≡ take 2 (copied.nodes two).log.entries
unfolding raft_calls
log_matching_example =
    log_matching members (quiet-Starts false) quiet-Empty (to_copied quiet (to_led false)) one two 1
      (omega arith) (omega arith) refl

leader_append_only_example : take 1 (copied.nodes one).log.entries ≡ (led.nodes one).log.entries
unfolding raft_calls
leader_append_only_example =
    leader_append_only members (quiet-Starts false) quiet-Empty (to_led false) (to_copied led here)
      one refl refl refl

-- One turn is enough to bring the command to node-2.
catches_up_example :
    (n : Node) × (f : Node) × (turns two 1 (written.nodes one) (written.nodes two)
      ≡ some (n, f, true))
    × (n.log ≡ (written.nodes one).log)
    × (take 2 f.log.entries ≡ (written.nodes one).log.entries)
unfolding raft_calls
catches_up_example =
    catches_up members (quiet-Starts false) quiet-Empty
      (next (to_led false) (command one set_x (omega arith))) one two 1 refl (omega arith)
      (omega arith) (omega arith) (omega arith)
