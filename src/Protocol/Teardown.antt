-- ===== src/Protocol/Teardown.antt =====
-- FIN and FIN ACK of src/libgilberta/gilberta.c: how both ends of a connection close it.
use libgilberta.Base.{ℕ, ◌≡◌, refl, subst, sym, some, true, false, get_elem?}
use libgilberta.Status.{by_peer, success}
use libgilberta.Queue.Slots.Laws.{IsValid}
use libgilberta.Packet.{Pkg, glbpkg_init, flag_fin_ack, header_size}
use libgilberta.State.{Conn, Addr}
use libgilberta.Os.{Os}
use libgilberta.Effect.{St, ok, and_then, pure, get_ctx, get_conn, put_ctx, deref, ask, ◌>>=◌, ◌>>◌}
use libgilberta.Io.{glbio_send, with_checksum, wire_bytes, all_sent}
use libgilberta.Context.{is_closed, glbctx_findconn}
use libgilberta.Os.Books.{Books}
use libgilberta.Context.Closing.{Closes, close_conn-Closes}
use libgilberta.Tick.Teardown.{close_by_peer, on_fin, on_fin_ack}
use libgilberta.Invariant.{Ensures}
use libgilberta.Invariant.Rules.{Ensures-and_then, Ensures-weaken}

-- The FIN ACK that answers the FIN in `pkg`.
abbrev pub fin_ack_of : Pkg → Conn → Pkg
fin_ack_of pkg con = with_checksum (glbpkg_init pkg con.conn_id flag_fin_ack 0)

module _ {os : Os} (books : Books os) where
  open os use {World}

  close_by_peer-Closes :
      (s : St World) (i : ℕ) (c : Conn)
      → get_elem? s.ctx.connections i ≡ some c
      → is_closed c.state ≡ false
      → IsValid s.ctx.eventqueue
      → Ensures (close_by_peer os i s) (λ _ t. Closes books i c by_peer s t)
  unfolding close_by_peer ◌>>=◌ get_conn deref
  close_by_peer-Closes s i c at live v = rw (at, live) (close_conn-Closes books s i c by_peer at v)

module _ (os : Os) where
  open os use {World}

  -- Whether `sendto` takes the whole of a FIN ACK.
  abbrev pub TakesAll : World → Pkg → Addr → Type 0
  TakesAll w sealed addr = all_sent (os.sendto w (wire_bytes sealed) addr).0 header_size ≡ true

  -- The state after the answer was handed to `sendto`.
  abbrev pub answered : St World → Pkg → Conn → St World
  answered s pkg con = record s {
    world = (os.sendto s.world (wire_bytes (fin_ack_of pkg con)) con.peer_addr).1;
  }

  send_whole :
      (s : St World) (pkg : Pkg) (con : Conn)
      → TakesAll s.world (fin_ack_of pkg con) con.peer_addr
      → glbio_send os (glbpkg_init pkg con.conn_id flag_fin_ack 0) con.peer_addr s
        ≡ ok (success, fin_ack_of pkg con) (answered s pkg con)
  unfolding glbio_send glbpkg_init ◌>>=◌ ◌>>◌ ask get_ctx put_ctx pure
  send_whole s pkg con whole = rw whole refl

module _ {os : Os} (books : Books os) where
  open os use {World}

  found_conn :
      (s : St World) (i : ℕ) (c : Conn)
      → get_elem? s.ctx.connections i ≡ some c
      → get_conn i s ≡ ok c s
  unfolding get_conn deref
  found_conn s i c at = rw at refl

  on_fin-Closes :
      (s : St World) (j : ℕ) (b : Conn) (fin : Pkg)
      → get_elem? s.ctx.connections j ≡ some b
      → glbctx_findconn s.ctx.connections fin.header.client_gen fin.header.client_id ≡ some j
      → is_closed b.state ≡ false
      → IsValid s.ctx.eventqueue
      → TakesAll os s.world (fin_ack_of fin b) b.peer_addr
      → Ensures
          (on_fin os fin s)
          (λ sent t. (sent ≡ fin_ack_of fin b) × Closes books j b by_peer (answered os s fin b) t)
  unfolding on_fin ◌>>=◌ ◌>>◌ get_ctx pure
  on_fin-Closes s j b fin at found live v whole =
      let sent = answered os s fin b in
      let run : on_fin os fin s
          ≡ and_then (close_by_peer os j sent) (λ _. pure (fin_ack_of fin b)) =
        rw (found, and_then, found_conn s j b at) (rw (send_whole os s fin b whole) refl) in
      subst
        (λ r.
          Ensures r
            (λ p t. (p ≡ fin_ack_of fin b) × Closes books j b by_peer (answered os s fin b) t))
        (sym run)
        (Ensures-and_then {P = λ _ t. Closes books j b by_peer (answered os s fin b) t}
          (λ p t. (p ≡ fin_ack_of fin b) × Closes books j b by_peer (answered os s fin b) t)
          (close_by_peer os j sent) (λ _. pure (fin_ack_of fin b))
          (close_by_peer-Closes books sent j b at live v) (λ _ t h. (refl, h)))

  on_fin_ack-Closes :
      (t : St World) (i : ℕ) (a : Conn) (fin_ack : Pkg)
      → get_elem? t.ctx.connections i ≡ some a
      → glbctx_findconn t.ctx.connections fin_ack.header.client_gen fin_ack.header.client_id
        ≡ some i
      → is_closed a.state ≡ false
      → IsValid t.ctx.eventqueue
      → Ensures (on_fin_ack os fin_ack t) (λ _ u. Closes books i a by_peer t u)
  unfolding on_fin_ack ◌>>=◌ ◌>>◌ get_ctx pure
  on_fin_ack-Closes t i a fin_ack at found live v =
      let run : on_fin_ack os fin_ack t ≡ and_then (close_by_peer os i t) (λ _. pure fin_ack) =
        rw (found, and_then) refl in
      subst (λ r. Ensures r (λ _ u. Closes books i a by_peer t u)) (sym run)
        (Ensures-and_then {P = λ _ u. Closes books i a by_peer t u}
          (λ _ u. Closes books i a by_peer t u) (close_by_peer os i t) (λ _. pure fin_ack)
          (close_by_peer-Closes books t i a at live v) (λ _ u h. h))

-- A FIN reaches the peer, which finds its connection `j` for it, not closed yet; the socket takes the
-- whole answer, and the sender of the FIN finds its connection `i` under the identifier that the peer's
-- has, not closed yet. Then neither end faults. After its answer the peer's connection is closed and has
-- no channels, every block that they owned is given back, and a disconnection by the peer is offered to
-- its event queue; the answer makes the same of the sender's connection, whose event also names the
-- peer. No other connection or event changes.
pub on_fin-on_fin_ack :
    (on_peer on_sender : Os) (peer_books : Books on_peer) (sender_books : Books on_sender)
    (s : St (Os.World on_peer)) (t : St (Os.World on_sender)) (i j : ℕ) (a b : Conn) (fin : Pkg)
    → get_elem? s.ctx.connections j ≡ some b
    → glbctx_findconn s.ctx.connections fin.header.client_gen fin.header.client_id ≡ some j
    → is_closed b.state ≡ false
    → IsValid s.ctx.eventqueue
    → TakesAll on_peer s.world (fin_ack_of fin b) b.peer_addr
    → get_elem? t.ctx.connections i ≡ some a
    → glbctx_findconn t.ctx.connections b.conn_id.generation b.conn_id.id ≡ some i
    → is_closed a.state ≡ false
    → IsValid t.ctx.eventqueue
    → Ensures (on_fin on_peer fin s) (λ fin_ack s'.
      Closes peer_books j b by_peer (answered on_peer s fin b) s'
      × Ensures (on_fin_ack on_sender fin_ack t) (λ _ t'. Closes sender_books i a by_peer t t'))
unfolding glbpkg_init
on_fin-on_fin_ack on_peer on_sender peer_books sender_books s t i j a b fin s_at s_found s_live
      s_events whole t_at t_found t_live t_events =
    Ensures-weaken
      {P = λ sent u.
        (sent ≡ fin_ack_of fin b) × Closes peer_books j b by_peer (answered on_peer s fin b) u}
      {Q = λ fin_ack u.
        Closes peer_books j b by_peer (answered on_peer s fin b) u
        × Ensures (on_fin_ack on_sender fin_ack t) (λ _ v. Closes sender_books i a by_peer t v)}
      (on_fin on_peer fin s) (on_fin-Closes peer_books s j b fin s_at s_found s_live s_events whole)
      (λ fin_ack u h. (
        h.1,
        subst (λ p. Ensures (on_fin_ack on_sender p t) (λ _ v. Closes sender_books i a by_peer t v))
            (sym h.0)
            (on_fin_ack-Closes sender_books t i a (fin_ack_of fin b) t_at t_found t_live t_events),
      ))
