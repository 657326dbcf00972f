-- ===== src/Tests/Networks.antt =====
-- A message that goes from one context to another.
use libgilberta.Base.{ℕ, ◌≡◌, refl, ap, get_elem?, [], true, ◌∷◌, some, arith, length-replicate}
use libgilberta.Packet.{Pkg, pkg_bytes, glbpkg_init}
use libgilberta.State.{Conn}
use libgilberta.Status.{ErrorCode, success}
use libgilberta.Effect.{
  St, Run, ok, fault, out_of_fuel, ◌>>=◌, ◌>>◌, pure, get_ctx, put_ctx, get_conn, deref, put_conn,
  ask,
}
use libgilberta.Queue.Slots
use libgilberta.Timer.{glbtime_start, glbtime_isexpired, timer_get_current_ms, current_ms}
use libgilberta.Base.Memory.{load}
use libgilberta.Tick.Common.{get_channel}
use libgilberta.Tick.Timers.{transmit_channel, after_send}
use libgilberta.Tick.Data.{on_data}
use libgilberta.Context.{glbctx_findconn, glbctx_addrequal}
use libgilberta.Io.{with_checksum, glbio_send}
use libgilberta.Api.{RecvInfo, glb_popdata, glb_send, send_args, send_checked, enqueue, data_packet}
use libgilberta.View.Transmit.{handed}
use libgilberta.Protocol.Network.{
  Net, Watched, Moves, send, still, further, quiet, transmit, arrive, take_message, add_datagram,
  add_ack,
}
use libgilberta.Protocol.Network.Delivers.{Delivered, network_delivers}
use libgilberta.Tests.Contexts.{sim, Sim}
use libgilberta.Tests.Links.{channel, fresh-IsFresh}
use libgilberta.Tests.Invariants.{open_conn, open_client}
use libgilberta.Tests.Echoes.{three_bytes, blank}
use libgilberta.Tests.Ticks.{state_of}

-- The value of a run that ended.
abbrev value_of : {A : Type 0} → Run Sim A → A → A
value_of (ok a s) b = a
value_of fault b = b
value_of out_of_fuel b = b

-- An end whose only channel was not used yet.
abbrev unused_conn : Conn
unused_conn = record open_conn { channels = some (record { block = 64; items = channel ∷ [] }) }

abbrev unused : St Sim
unused = record {
  ctx = record open_client { connections = unused_conn ∷ [] };
  world = record { ms = 100; inbox = [] };
}

unused-Watched : Watched unused 0 0 channel
unused-Watched = record {
  con = unused_conn;
  at = refl;
  has = record { chans = record { block = 64; items = channel ∷ [] }; has = refl; at = refl };
}

abbrev given : Run Sim ErrorCode
given = glb_send sim blank (some three_bytes) unused

abbrev loaded : St Sim
loaded = state_of given unused

given_ok : given ≡ ok success loaded
unfolding glb_send send_args send_checked enqueue data_packet Slots.push Slots.init glbtime_start
    timer_get_current_ms current_ms ◌>>=◌ ◌>>◌ pure get_ctx get_conn deref put_conn ask get_channel
    load
given_ok = refl

abbrev with_message : Net sim sim
with_message = record (quiet sim sim unused unused) {
  sender = loaded;
  sent = (1 ∷ 2 ∷ 3 ∷ []) ∷ [];
}

send-Moves : Moves 0 0 0 (quiet sim sim unused unused) with_message
send-Moves = further _ _ _ (still (quiet sim sim unused unused)) (
    send (quiet sim sim unused unused) blank three_bytes (1 ∷ 2 ∷ 3 ∷ []) success loaded
      (length-replicate {A = ℕ} 1024 0) refl refl refl given_ok)

abbrev packet : Pkg
packet = record (data_packet blank unused_conn channel 0 (1 ∷ 2 ∷ 3 ∷ [])) { timestamp = 5101 }

loaded-Watched : Watched loaded 0 0 (enqueue channel packet).1
unfolding glb_send send_args send_checked enqueue data_packet Slots.push Slots.init glbtime_start
    timer_get_current_ms current_ms ◌>>=◌ ◌>>◌ pure get_ctx get_conn deref put_conn ask get_channel
    load
loaded-Watched = record {
  con = record unused_conn {
    channels = some (record { block = 64; items = (enqueue channel packet).1 ∷ [] });
  };
  at = refl;
  has = record {
    chans = record { block = 64; items = (enqueue channel packet).1 ∷ [] };
    has = refl;
    at = refl;
  };
}

abbrev transmitted : St Sim
transmitted = state_of (transmit_channel sim 0 0 loaded) loaded

transmitted_ok : transmit_channel sim 0 0 loaded ≡ ok tt transmitted
unfolding transmit_channel after_send glbio_send glb_send send_args send_checked enqueue data_packet
    Slots.push Slots.peek Slots.poke Slots.slot Slots.init glbtime_start glbtime_isexpired
    timer_get_current_ms current_ms ◌>>=◌ ◌>>◌ pure get_ctx get_conn deref put_conn ask get_channel
    load pkg_bytes
transmitted_ok = refl

handed_is : handed sim (enqueue channel packet).1 loaded ≡ some (with_checksum packet)
unfolding transmit_channel after_send glbio_send glb_send send_args send_checked enqueue data_packet
    Slots.push Slots.peek Slots.poke Slots.slot Slots.init glbtime_start glbtime_isexpired
    timer_get_current_ms current_ms ◌>>=◌ ◌>>◌ pure get_ctx get_conn deref put_conn ask get_channel
    load pkg_bytes
handed_is = refl

-- The packet at the other end, and the message taken there.
abbrev received : St Sim
received = state_of (on_data sim (with_checksum packet) unused_conn.peer_addr unused) unused

abbrev answer : Pkg
answer = value_of (on_data sim (with_checksum packet) unused_conn.peer_addr unused) packet

received_ok : on_data sim (with_checksum packet) unused_conn.peer_addr unused ≡ ok answer received
unfolding on_data ◌>>=◌ get_ctx glbctx_findconn data_packet glbpkg_init get_conn deref
    glbctx_addrequal ◌>>◌ put_conn glbio_send ask pkg_bytes pure put_ctx
received_ok = refl

abbrev on_wire : Net sim sim
on_wire = record with_message {
  sender = transmitted;
  datagrams = add_datagram (handed sim (enqueue channel packet).1 loaded) [];
}

transmit-Moves : Moves 0 0 0 (quiet sim sim unused unused) on_wire
transmit-Moves =
    further _ _ _ send-Moves
      (transmit with_message (enqueue channel packet).1 transmitted loaded-Watched transmitted_ok)

abbrev arrived : Net sim sim
arrived = record on_wire { receiver = received; acks = add_ack answer [] }

arrive-Moves : Moves 0 0 0 (quiet sim sim unused unused) arrived
unfolding data_packet glbpkg_init glbctx_findconn Slots.init
arrive-Moves = further _ _ _ transmit-Moves (
    arrive on_wire 0 (with_checksum packet) (with_checksum packet) answer unused_conn.peer_addr
      channel received (ap (λ o. get_elem? (add_datagram o []) 0) handed_is) refl refl refl refl
      unused-Watched (omega arith) received_ok)

abbrev into_buffer : RecvInfo
into_buffer = record { has_buffer = true; con = some 0; buflen = 1024; channel_id = 0 }

abbrev emptied : St Sim
emptied = state_of (glb_popdata (some into_buffer) received) received

emptied_ok : glb_popdata (some into_buffer) received ≡ ok (success, some (1 ∷ 2 ∷ 3 ∷ [])) emptied
unfolding glb_popdata on_data ◌>>=◌ get_ctx glbctx_findconn data_packet glbpkg_init get_conn deref
    glbctx_addrequal ◌>>◌ put_conn glbio_send ask pkg_bytes pure put_ctx get_channel Slots.peek
    Slots.slot Slots.push Slots.init Slots.pop
emptied_ok = refl

-- The application at the other end has the message.
abbrev finished : Net sim sim
finished = record arrived { receiver = emptied; taken = (1 ∷ 2 ∷ 3 ∷ []) ∷ [] }

finished-Moves : Moves 0 0 0 (quiet sim sim unused unused) finished
finished-Moves =
    further _ _ _ arrive-Moves (
      take_message arrived into_buffer (success, some (1 ∷ 2 ∷ 3 ∷ [])) emptied refl refl
        emptied_ok)

network_delivers_example : Delivered 0 0 0 finished
network_delivers_example =
    network_delivers 0 0 0 unused unused channel channel finished unused-Watched unused-Watched
      fresh-IsFresh refl finished-Moves (omega arith)
