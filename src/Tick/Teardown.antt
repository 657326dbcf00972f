-- ===== src/Tick/Teardown.antt =====
-- The branches of `glb_tick` (src/libgilberta/gilberta.c) that end a connection: FIN, FIN ACK and
-- RST.
use libgilberta.Base.{ℕ, none, some, if◌then◌else◌}
use libgilberta.Status.{by_peer, reset}
use libgilberta.Packet.{Pkg, glbpkg_init, flag_fin_ack}
use libgilberta.State.{closed, Event}
use libgilberta.Os.{Os}
use libgilberta.Effect.{M, pure, get_ctx, get_conn, ◌>>=◌, ◌>>◌}
use libgilberta.Io.{glbio_send}
use libgilberta.Context.{is_closed, is_established, glbctx_findconn, glbctx_freeconchannels}
use libgilberta.Tick.Common.{modify_conn, push_event, close_conn, is_success}

module _ (os : Os) where
  open os use {World}

  -- `if (con->state != GLB_CONNECTION_CLOSED)` with its body.
  unfoldable pub close_by_peer : ℕ → M World (Unit {0})
  unfolding close_conn
  close_by_peer i = do
    con ← get_conn i
    if is_closed con.state then pure tt else close_conn os i by_peer

  unfoldable pub on_fin : Pkg → M World Pkg
  unfolding close_by_peer
  on_fin pkg = do
    ctx ← get_ctx
    elim (glbctx_findconn ctx.connections pkg.header.client_gen pkg.header.client_id) [
      | none ↦ pure pkg
      | some i ↦ (do
        con ← get_conn i
        (status, sent) ← glbio_send os (glbpkg_init pkg con.conn_id flag_fin_ack 0) con.peer_addr
        if is_success status then close_by_peer i else pure tt
        pure sent)
    ]

  unfoldable pub on_fin_ack : Pkg → M World Pkg
  unfolding close_by_peer
  on_fin_ack pkg = do
    ctx ← get_ctx
    elim (glbctx_findconn ctx.connections pkg.header.client_gen pkg.header.client_id) [
      | none ↦ pure pkg
      | some i ↦ (do close_by_peer i; pure pkg)
    ]

  -- `if (con->state == GLB_CONNECTION_ESTABLISHED)` with its body.
  unfoldable pub free_if_established : ℕ → M World (Unit {0})
  free_if_established i = do
    con ← get_conn i
    if is_established con.state then (do status ← glbctx_freeconchannels os i; pure tt) else pure tt

  unfoldable pub on_rst : Pkg → M World Pkg
  unfolding free_if_established push_event
  on_rst pkg = do
    ctx ← get_ctx
    elim (glbctx_findconn ctx.connections pkg.header.client_gen pkg.header.client_id) [
      | none ↦ pure pkg
      | some i ↦ (do
        free_if_established i
        modify_conn i (λ con. record con { state = closed })
        push_event (Event.disconnect i reset)
        pure pkg)
    ]
