-- ===== src/Tests/Handshakes.antt =====
-- A server and a client that open a connection.
use libgilberta.Base.{◌+◌, get_elem?, true, ◌≡◌, refl, [], ◌∷◌, some, arith}
use libgilberta.Queue.Slots
use libgilberta.Queue.Slots.Cases.{init-IsValid}
use libgilberta.Packet.{Pkg, glbpkg_init, pkg_bytes}
use libgilberta.State.{Conn, closed, syn_sent, syn_rcvd}
use libgilberta.Effect.{
  St, Run, ok, fault, out_of_fuel, pure, get_ctx, put_ctx, deref, get_conn, put_conn, ask, tell,
  ◌>>=◌, ◌>>◌,
}
use libgilberta.Timer.{glbtime_start, timer_get_current_ms, current_ms, glbtime_isexpired}
use libgilberta.Io.{glbio_send}
use libgilberta.Context.{
  glbctx_findconn, find_index, glbctx_createconchannels, create_channels, queue_init,
  glbctx_writeack,
}
use libgilberta.Context.Create.{zero_conn}
use libgilberta.Tick.Common.{modify_conn, push_event, get_channel}
use libgilberta.Tick.Handshake.{on_syn_ack, on_ack, open_client, send_client_ack, note_desync}
use libgilberta.Tick.Receive.{zero_pkg}
use libgilberta.Tick.Timers.{
  syn_rcvd_expired, syn_sent_expired, send_and_wait, connection_step, when_expired,
}
use libgilberta.View.{Seen}
use libgilberta.Session.Silence.{Silent, over, another, silence_closes}
use libgilberta.Invariant.{Inv, Ensures}
use libgilberta.Protocol.Handshake.{Agreement, handshake_agrees}
use libgilberta.Tests.Contexts.{sim, Sim, client}
use libgilberta.Tests.Ticks.{benign_sim}

abbrev pub client_end : Conn
client_end = record zero_conn { state = syn_sent; seq = 7 }

abbrev pub server_end : Conn
server_end = record zero_conn {
  state = syn_rcvd;
  seq = 90;
  ack = 7;
  conn_id = record { id = 5; generation = 0 };
}

abbrev pub at_client : St Sim
at_client = record {
  ctx = record client { connections = client_end ∷ [] };
  world = record { ms = 100; inbox = [] };
}

abbrev pub at_server : St Sim
at_server = record {
  ctx = record client { connections = server_end ∷ [] };
  world = record { ms = 300; inbox = [] };
}

abbrev pub ended : {A : Type 0} → Run Sim A → A → St Sim → A × St Sim
ended (ok a s) b t = (a, s)
ended fault b t = (b, t)
ended out_of_fuel b t = (b, t)

abbrev pub first : Pkg × St Sim
first = ended (syn_rcvd_expired sim 0 zero_pkg at_server) zero_pkg at_server

abbrev pub second : Pkg × St Sim
second = ended (on_syn_ack sim first.0 at_client) zero_pkg at_client

pub first_ok : syn_rcvd_expired sim 0 zero_pkg at_server ≡ ok first.0 first.1
unfolding syn_rcvd_expired send_and_wait glbio_send glbtime_start timer_get_current_ms current_ms
    pure get_ctx put_ctx deref get_conn put_conn ask ◌>>=◌ ◌>>◌ glbpkg_init pkg_bytes
first_ok = refl

pub second_ok : on_syn_ack sim first.0 at_client ≡ ok second.0 second.1
unfolding syn_rcvd_expired send_and_wait glbio_send glbtime_start timer_get_current_ms current_ms
    pure get_ctx put_ctx deref get_conn put_conn ask ◌>>=◌ ◌>>◌ glbpkg_init pkg_bytes on_syn_ack
    modify_conn open_client glbctx_createconchannels create_channels queue_init Slots.init
    push_event Slots.push glbctx_writeack get_channel send_client_ack note_desync tell
second_ok = refl

pub first-Inv : Inv 1 1 first.1.ctx
unfolding syn_rcvd_expired send_and_wait glbio_send glbtime_start timer_get_current_ms current_ms
    pure get_ctx put_ctx deref get_conn put_conn ask ◌>>=◌ ◌>>◌ glbpkg_init pkg_bytes
first-Inv = record {
  channel_total = refl;
  connection_total = refl;
  connections_length = refl;
  configs = refl;
  events = init-IsValid 0 4 (omega arith) (omega arith);
  connections_ok = (record { live = λ used nothing. ground (arith, used); shape = tt }, tt);
}

pub first_found :
    glbctx_findconn first.1.ctx.connections second.0.header.client_gen second.0.header.client_id
    ≡ some 0
unfolding syn_rcvd_expired send_and_wait glbio_send glbtime_start timer_get_current_ms current_ms
    pure get_ctx put_ctx deref get_conn put_conn ask ◌>>=◌ ◌>>◌ glbpkg_init pkg_bytes on_syn_ack
    modify_conn open_client glbctx_createconchannels create_channels queue_init Slots.init
    push_event Slots.push glbctx_writeack get_channel send_client_ack note_desync tell
    glbctx_findconn find_index
first_found = refl

handshake_agrees_example : Ensures (on_ack sim second.0 first.1) (λ _ s''. Agreement second.1 s'' 0)
handshake_agrees_example =
    handshake_agrees sim sim benign_sim 1 1 0 server_end client_end zero_pkg first.0 second.0
      at_server first.1 at_client second.1 refl refl refl refl refl first_ok second_ok (omega arith)
      (omega arith) first-Inv first_found

-- A client whose SYN was repeated four times, and whose server stays silent.
abbrev tired : Conn
tired = record client_end { retry = 4; time = 1 }

abbrev silent : St Sim
silent = record {
  ctx = record client { connections = tired ∷ [] };
  world = record { ms = 100; inbox = [] };
}

abbrev fifth : Pkg × St Sim
fifth = ended (connection_step sim 0 zero_pkg silent) zero_pkg silent

abbrev later : St Sim
later = record (fifth.1) { world = record { ms = 2000; inbox = [] } }

abbrev tired_again : Conn
tired_again = record tired { retry = 5; time = 5602 }

abbrev sixth : Pkg × St Sim
sixth = ended (connection_step sim 0 zero_pkg later) zero_pkg later

abbrev clock_read : St Sim → St Sim
clock_read s = record s { world = record (s.world) { ms = s.world.ms + 1 } }

fifth_late : glbtime_isexpired sim 1 silent ≡ ok true (clock_read silent)
unfolding glbtime_isexpired timer_get_current_ms current_ms pure ask ◌>>=◌
fifth_late = refl

fifth_done : connection_step sim 0 zero_pkg silent ≡ ok fifth.0 fifth.1
unfolding syn_sent_expired connection_step when_expired push_event Slots.push glbtime_isexpired
    syn_rcvd_expired send_and_wait glbio_send glbtime_start timer_get_current_ms current_ms pure
    get_ctx put_ctx deref get_conn put_conn ask ◌>>=◌ ◌>>◌ glbpkg_init pkg_bytes
fifth_done = refl

still_there : get_elem? later.ctx.connections 0 ≡ some tired_again
unfolding syn_sent_expired connection_step when_expired push_event Slots.push glbtime_isexpired
    syn_rcvd_expired send_and_wait glbio_send glbtime_start timer_get_current_ms current_ms pure
    get_ctx put_ctx deref get_conn put_conn ask ◌>>=◌ ◌>>◌ glbpkg_init pkg_bytes
still_there = refl

sixth_late : glbtime_isexpired sim tired_again.time later ≡ ok true (clock_read later)
unfolding glbtime_isexpired timer_get_current_ms current_ms pure ask ◌>>=◌
sixth_late = refl

sixth_done : connection_step sim 0 zero_pkg later ≡ ok sixth.0 sixth.1
unfolding syn_sent_expired connection_step when_expired push_event Slots.push glbtime_isexpired
    syn_rcvd_expired send_and_wait glbio_send glbtime_start timer_get_current_ms current_ms pure
    get_ctx put_ctx deref get_conn put_conn ask ◌>>=◌ ◌>>◌ glbpkg_init pkg_bytes
sixth_done = refl

both : Silent sim 0 2 silent sixth.1
both =
    another 1 silent (clock_read silent) fifth.1 sixth.1 tired zero_pkg fifth.0 later.world refl
      fifth_late fifth_done
      (another 0 later (clock_read later) sixth.1 sixth.1 tired_again zero_pkg sixth.0 sixth.1.world
        still_there sixth_late sixth_done (over sixth.1))

silence_closes_example : Seen 0 (λ d. d.state ≡ closed) sixth.1
silence_closes_example =
    silence_closes sim 0 2 silent sixth.1 tired both refl refl (omega arith) (omega arith)
