-- ===== src/Transport/Calls.antt =====
-- Remote calls against local ones.
use gammaflow.Base.{◌≡◌, refl, ap, ◌∙◌, sym, none, some, List, [], ◌∷◌, map, arith, bind-eq-some}
use gammaflow.Raft.Types.{
  NodeId, LogEntry, RequestVoteArgs, RequestVoteReply, AppendEntriesArgs, AppendEntriesReply,
}
use gammaflow.Raft.Node.{Node}
use gammaflow.Raft.Vote.{handle_request_vote}
use gammaflow.Raft.Append.{handle_append_entries}
use gammaflow.Transport.Proto.{
  VoteResponse, AppendResponse, vote_request, append_request, vote_args, append_args, vote_response,
  append_response, vote_reply, append_reply, entry_proto, entry_of,
}
use gammaflow.Transport.Client.{
  ok, Grpc, GrpcTransport, get_conn, vote_result, append_result, call_request_vote,
  call_append_entries, send_request_vote, send_append_entries,
}
use gammaflow.Transport.Server.{request_vote, append_entries}

entries-entries : (es : List LogEntry) → map entry_of (map entry_proto es) ≡ es
entries-entries [] = refl
entries-entries (e ∷ es) = ap (λ l. e ∷ l) (entries-entries es)

vote_args-vote_request : (args : RequestVoteArgs) → vote_args (vote_request args) ≡ args
unfolding vote_args vote_request
vote_args-vote_request args = refl

append_args-append_request : (args : AppendEntriesArgs) → append_args (append_request args) ≡ args
unfolding append_args append_request
append_args-append_request args = rw (entries-entries args.entries) refl

-- What the node replied, and the response carries back.
served_vote :
    (args : RequestVoteArgs) (n : Node) {n' : Node} {resp : VoteResponse}
    → request_vote (vote_request args) n ≡ some (n', resp)
    → (reply : RequestVoteReply) × (handle_request_vote args n ≡ some (n', reply))
      × (vote_reply resp ≡ reply)
unfolding request_vote vote_response vote_reply
served_vote args n served =
    let ((m, reply), handled, rest) =
      bind-eq-some (handle_request_vote (vote_args (vote_request args)) n) _ served in
    (
      reply,
      ap (λ a. handle_request_vote a n) (sym (vote_args-vote_request args))
          ∙ handled
          ∙ ground (arith, rest),
      ground (arith, rest),
    )

served_append :
    (args : AppendEntriesArgs) (n : Node) {n' : Node} {resp : AppendResponse}
    → append_entries (append_request args) n ≡ some (n', resp)
    → (reply : AppendEntriesReply) × (handle_append_entries args n ≡ some (n', reply))
      × (append_reply resp ≡ reply)
unfolding append_entries append_response append_reply
served_append args n served =
    let ((m, reply), handled, rest) =
      bind-eq-some (handle_append_entries (append_args (append_request args)) n) _ served in
    (
      reply,
      ap (λ a. handle_append_entries a n) (sym (append_args-append_request args))
          ∙ handled
          ∙ ground (arith, rest),
      ground (arith, rest),
    )

module _ (g : Grpc) (target : NodeId) {conn : g.Conn} where
  answered_vote :
      (args : RequestVoteArgs) {resp : VoteResponse}
      → g.request_vote conn (vote_request args) ≡ ok resp
      → call_request_vote g target args (ok conn) ≡ (vote_reply resp, none)
  unfolding call_request_vote
  answered_vote args h = ap (vote_result g target) h

  answered_append :
      (args : AppendEntriesArgs) {resp : AppendResponse}
      → g.append_entries conn (append_request args) ≡ ok resp
      → call_append_entries g target args (ok conn) ≡ (append_reply resp, none)
  unfolding call_append_entries
  answered_append args h = ap (append_result g target) h

  module _ (seen t : GrpcTransport g) {t' : GrpcTransport g}
      (connected : get_conn g target seen t ≡ (t', ok conn)) where
    -- The same of a remote RequestVote.
    pub remote_vote :
        (args : RequestVoteArgs) (n : Node) {n' : Node} {resp : VoteResponse}
        → request_vote (vote_request args) n ≡ some (n', resp)
        → g.request_vote conn (vote_request args) ≡ ok resp
        → (reply : RequestVoteReply) × (handle_request_vote args n ≡ some (n', reply))
          × (send_request_vote g target args seen t ≡ (t', (reply, none)))
    unfolding send_request_vote
    remote_vote args n served answered =
        let (reply, handled, back) = served_vote args n served in
        (
          reply,
          handled,
          ap (λ p. (p.0, call_request_vote g target args p.1)) connected
              ∙ ap (λ p. (t', p)) (answered_vote args answered ∙ ap (λ r. (r, none)) back),
        )

    -- A remote AppendEntries, which gRPC brings to a node that serves it and whose response it
    -- brings back, gives the sender the reply of the handler and no error. (The connection was
    -- got.)
    pub remote_append :
        (args : AppendEntriesArgs) (n : Node) {n' : Node} {resp : AppendResponse}
        → append_entries (append_request args) n ≡ some (n', resp)
        → g.append_entries conn (append_request args) ≡ ok resp
        → (reply : AppendEntriesReply) × (handle_append_entries args n ≡ some (n', reply))
          × (send_append_entries g target args seen t ≡ (t', (reply, none)))
    unfolding send_append_entries
    remote_append args n served answered =
        let (reply, handled, back) = served_append args n served in
        (
          reply,
          handled,
          ap (λ p. (p.0, call_append_entries g target args p.1)) connected
              ∙ ap (λ p. (t', p)) (answered_append args answered ∙ ap (λ r. (r, none)) back),
        )
