-- ===== src/Tick/Handshake.antt =====
-- The handshake branches of `glb_tick` (src/libgilberta/gilberta.c): SYN, ACK and SYN ACK.
-- A handler returns the packet buffer, in which it may have built its answer.
use libgilberta.Base.{ℕ, none, some, Bool, true, false, not, ◌||◌, ◌==◌, if◌then◌else◌}
use libgilberta.Packet.{Pkg, glbpkg_init, flag_rst, flag_ack}
use libgilberta.State.{Addr, Conn, ConnState, established, syn_sent, syn_rcvd, Event}
use libgilberta.Os.{Os, LogLevel, connection_desync}
use libgilberta.Effect.{M, pure, get_ctx, put_ctx, get_conn, put_conn, tell, ◌>>=◌, ◌>>◌}
use libgilberta.Timer.{glbtime_start}
use libgilberta.Io.{glbio_send}
use libgilberta.Context.{
  is_established, glbctx_generateclientid, glbctx_generateseq, glbctx_findconn,
  glbctx_findconnbyaddr, glbctx_findemptyconn, glbctx_createconchannels, glbctx_writeack,
}
use libgilberta.Tick.Common.{modify_conn, push_event, get_channel, is_success, keepalive_time}

abbrev pub is_syn_sent : ConnState → Bool
is_syn_sent syn_sent = true
is_syn_sent _ = false

abbrev pub is_syn_rcvd : ConnState → Bool
is_syn_rcvd syn_rcvd = true
is_syn_rcvd _ = false

module _ (os : Os) where
  open os use {World, log}

  -- The connection waits for the ACK; its SYN ACK goes out with the timers.
  unfoldable pub answer_syn : ℕ → Pkg → Addr → M World Pkg
  answer_syn i pkg from_addr = do
    con ← get_conn i
    if is_established con.state then pure pkg else (do
      time ← glbtime_start os 0
      put_conn i (record con {
        state = syn_rcvd;
        retry = 0;
        rtt = 0;
        loss_count = 0;
        peer_addr = from_addr;
        time = time;
      })
      pure pkg)

  -- A SYN from an address without a connection.
  unfoldable pub accept_syn : Pkg → Addr → M World Pkg
  unfolding answer_syn
  accept_syn pkg from_addr = do
    ctx ← get_ctx
    let (connections, found) = glbctx_findemptyconn ctx.connections
    elim found [
      | none ↦ (do
        (status, sent) ←
            glbio_send os (glbpkg_init pkg (record { id = 0xffff; generation = 0 }) flag_rst 0)
              from_addr
        pure sent)
      | some i ↦ (do
        let (ctx', id) = glbctx_generateclientid (record ctx { connections = connections })
        put_ctx ctx'
        modify_conn i (λ con. glbctx_generateseq ctx (record con { conn_id = id }) pkg.header.seq)
        answer_syn i pkg from_addr)
    ]

  unfoldable pub on_syn : Pkg → Addr → M World Pkg
  unfolding accept_syn answer_syn
  on_syn pkg from_addr = do
    ctx ← get_ctx
    elim (glbctx_findconnbyaddr ctx.connections from_addr) [
      | some i ↦ answer_syn i pkg from_addr
      | none ↦ accept_syn pkg from_addr
    ]

  -- "Connection desync!", which is only logged.
  unfoldable pub note_desync : Bool → M World (Unit {0})
  note_desync false = pure tt
  note_desync true = tell (λ w. log w LogLevel.error connection_desync)

  -- The branch of an ACK for connection `i` in SYN_RCVD.
  unfoldable pub establish : ℕ → Pkg → M World Pkg
  unfolding push_event get_channel
  establish i pkg = do
    modify_conn i (λ con. record con { state = established })
    created ← glbctx_createconchannels os i
    glbctx_writeack os i pkg.header.seq
    push_event (Event.connect i)
    first ← get_channel i 0
    modify_conn i (λ con. record con { keepalive_retry = 0 })
    keepalive ← glbtime_start os keepalive_time
    modify_conn i (λ con. record con { keepalive = keepalive })
    pure pkg

  unfoldable pub on_ack : Pkg → M World Pkg
  unfolding establish note_desync
  on_ack pkg = do
    ctx ← get_ctx
    elim (glbctx_findconn ctx.connections pkg.header.client_gen pkg.header.client_id) [
      | none ↦ pure pkg
      | some i ↦ (do
        con ← get_conn i
        if is_syn_rcvd con.state
            then (do
              note_desync (not (pkg.header.ack == con.seq) || not (pkg.header.seq == con.ack))
              establish i pkg)
            else pure pkg)
    ]

  -- The client's side of a SYN ACK that opens the connection.
  unfoldable pub open_client : Pkg → M World (Unit {0})
  unfolding push_event get_channel
  open_client pkg = do
    created ← glbctx_createconchannels os 0
    push_event (Event.connect 0)
    modify_conn 0 (λ con. record con { keepalive_retry = 0 })
    keepalive ← glbtime_start os keepalive_time
    modify_conn 0 (λ con. record con { keepalive = keepalive; ack = pkg.header.seq })
    glbctx_writeack os 0 pkg.header.seq
    first ← get_channel 0 0
    pure tt

  -- The ACK that answers every SYN ACK.
  unfoldable pub send_client_ack : Pkg → M World Pkg
  unfolding get_channel
  send_client_ack pkg = do
    con ← get_conn 0
    first ← get_channel 0 0
    let blank = glbpkg_init pkg con.conn_id flag_ack 0
    let answer = record blank {
      header = record (blank.header) { ack = first.ack; seq = first.seq };
    }
    (status, sent) ← glbio_send os answer con.peer_addr
    if is_success status
        then (do modify_conn 0 (λ c. record c { state = established }); pure sent)
        else pure sent

  abbrev pub adopt_id : Pkg → Conn → Conn
  adopt_id pkg con =
      if is_syn_sent con.state
      then record con {
        conn_id = record { id = pkg.header.client_id; generation = pkg.header.client_gen };
      }
      else con

  unfoldable pub on_syn_ack : Pkg → M World Pkg
  unfolding open_client send_client_ack note_desync
  on_syn_ack pkg = do
    modify_conn 0 (adopt_id pkg)
    con ← get_conn 0
    if is_established con.state then pure tt else open_client pkg
    con' ← get_conn 0
    note_desync (not (con'.seq == pkg.header.ack) || not (con'.ack == pkg.header.seq))
    send_client_ack pkg
