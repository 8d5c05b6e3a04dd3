-- ===== src/Transport/Connections.antt =====
-- The cache of connections.
use gammaflow.Base.{
  ◌≡◌, ◌≢◌, ◌⊎◌, refl, sym, ap, ◌∙◌, Option, none, some, ◌∷◌, arith, String, eq_iff,
}
use gammaflow.Raft.Types.{NodeId}
use gammaflow.Transport.Client.{
  ok, failed, Grpc, GrpcTransport, Conns, find_conn, dial, connect, or_connect, get_conn,
}

module _ (g : Grpc) where
  -- The three attempts all fail.
  pub record Unreachable (addr : String) : Type 0 where
    pub first : (e : String) × (g.new_client 0 addr ≡ failed e)
    pub second : (e : String) × (g.new_client 1 addr ≡ failed e)
    pub third : (e : String) × (g.new_client 2 addr ≡ failed e)

  dial-fails :
      (addr : String) {e : String} → dial g 3 0 (failed "") addr ≡ failed e → Unreachable addr
  unfolding dial
  dial-fails addr h = ground (arith, h)

  -- There is no address to connect to, or nobody answers there.
  abbrev pub NoWay : NodeId → GrpcTransport g → Type 0
  NoWay target t =
      (t.addrs target ≡ none) ⊎ ((addr : String) × (t.addrs target ≡ some addr) × Unreachable addr)

module _ (g : Grpc) (target : NodeId) where
  find_new : (conn : g.Conn) (cs : Conns g) → find_conn g target ((target, conn) ∷ cs) ≡ some conn
  unfolding find_conn
  find_new conn cs = ground (arith, eq_iff target target)

  find_old :
      (j : NodeId) (conn : g.Conn) (cs : Conns g)
      → j ≢ target
      → find_conn g j ((target, conn) ∷ cs) ≡ find_conn g j cs
  unfolding find_conn
  find_old j conn cs ne = ground (arith, eq_iff j target, ne)

  connect-cached :
      (t : GrpcTransport g) {t' : GrpcTransport g} {conn : g.Conn}
      → connect g target t ≡ (t', ok conn)
      → find_conn g target t'.conns ≡ some conn
  unfolding connect
  connect-cached t h = grind (arith, find_new)

  connect-others :
      (t : GrpcTransport g) (j : NodeId)
      → j ≢ target
      → find_conn g j (connect g target t).0.conns ≡ find_conn g j t.conns
  unfolding connect
  connect-others t j ne = grind (arith, find_old)

  connect-fails :
      (t : GrpcTransport g) {t' : GrpcTransport g} {e : String}
      → connect g target t ≡ (t', failed e)
      → (t' ≡ t) × (find_conn g target t.conns ≡ none) × NoWay g target t
  unfolding connect
  connect-fails t h = grind (arith, dial-fails)

  or_connect-fails :
      (o : Option g.Conn) (t : GrpcTransport g) {t' : GrpcTransport g} {e : String}
      → or_connect g o target t ≡ (t', failed e)
      → (t' ≡ t) × (find_conn g target t.conns ≡ none) × NoWay g target t
  or_connect-fails none t h = connect-fails t h
  or_connect-fails (some c) t h = absurd (ground (arith, h))

  or_connect-cached :
      (o : Option g.Conn) (t : GrpcTransport g) {t' : GrpcTransport g} {conn : g.Conn}
      → ((c : g.Conn) → o ≡ some c → find_conn g target t.conns ≡ some c)
      → or_connect g o target t ≡ (t', ok conn)
      → find_conn g target t'.conns ≡ some conn
  or_connect-cached none t kept h = connect-cached t h
  or_connect-cached (some c) t kept h = ground (arith, h, kept c refl)

  or_connect-others :
      (o : Option g.Conn) (t : GrpcTransport g) (j : NodeId)
      → j ≢ target
      → find_conn g j (or_connect g o target t).0.conns ≡ find_conn g j t.conns
  or_connect-others none t j ne = connect-others t j ne
  or_connect-others (some c) t j ne = refl

  connect-known :
      (t : GrpcTransport g) {conn : g.Conn}
      → find_conn g target t.conns ≡ some conn
      → connect g target t ≡ (t, ok conn)
  unfolding connect
  connect-known t h = ground (arith, h)

  or_connect-known :
      (o : Option g.Conn) (t : GrpcTransport g) {conn : g.Conn}
      → find_conn g target t.conns ≡ some conn
      → (o ≡ none) ⊎ (o ≡ some conn)
      → or_connect g o target t ≡ (t, ok conn)
  or_connect-known none t h how = connect-known t h
  or_connect-known (some c) t h how = ground (arith, how)

  -- The connection that `getConn` returned is cached, those of the other peers are as they were,
  -- and every later `getConn` of the peer gives this one and changes nothing, whether its first
  -- look found it or not. (What the first look found is still there under the write lock: no
  -- `Close` came in between.)
  pub get_conn-one :
      (seen t : GrpcTransport g) {t' : GrpcTransport g} {conn : g.Conn}
      → ((c : g.Conn)
          → find_conn g target seen.conns ≡ some c
          → find_conn g target t.conns ≡ some c)
      → get_conn g target seen t ≡ (t', ok conn)
      → (find_conn g target t'.conns ≡ some conn)
        × ((j : NodeId) → j ≢ target → find_conn g j t'.conns ≡ find_conn g j t.conns)
        × ((seen' : GrpcTransport g)
            → (find_conn g target seen'.conns ≡ none) ⊎ (find_conn g target seen'.conns ≡ some conn)
            → get_conn g target seen' t' ≡ (t', ok conn))
  unfolding get_conn
  get_conn-one seen t {t'} {conn} kept h =
      let cached = or_connect-cached (find_conn g target seen.conns) t kept h in
      (
        cached,
        λ j ne.
            ap (λ p. find_conn g j p.0.conns) (sym h)
            ∙ or_connect-others (find_conn g target seen.conns) t j ne,
        λ seen' how. or_connect-known (find_conn g target seen'.conns) t' cached how,
      )

  -- Where `getConn` fails there was no connection to the peer, and no address or one that refused
  -- three attempts; the transport is as it was.
  pub get_conn-fails :
      (seen t : GrpcTransport g) {t' : GrpcTransport g} {e : String}
      → get_conn g target seen t ≡ (t', failed e)
      → (t' ≡ t) × (find_conn g target t.conns ≡ none) × NoWay g target t
  unfolding get_conn
  get_conn-fails seen t h = or_connect-fails (find_conn g target seen.conns) t h
