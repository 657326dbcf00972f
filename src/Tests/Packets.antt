-- ===== src/Tests/Packets.antt =====
-- A packet over the wire, whole and damaged.
use libgilberta.Base.{ℕ, ◌≡◌, refl, List, [], ◌∷◌, replicate, true, false, arith, ◌-◌}
use libgilberta.Crc.{crc16_modbus_fast}
use libgilberta.Packet.{Pkg}
use libgilberta.State.{Addr}
use libgilberta.Effect.{St}
use libgilberta.Io.{with_checksum, wire_bytes, body_ok, glbio_read}
use libgilberta.Io.RoundTrip.{IsPacket, Gives, glbio_read-wire_bytes}
use libgilberta.Io.Corruption.{damage_refused}
use libgilberta.Tick.Keepalive.{on_ping, on_pong}
use libgilberta.Tick.Keepalive.Rtt.{Measured, clock_of, ping-pong}
use libgilberta.Tick.Timers.{keepalive_expired}
use libgilberta.Timer.{current_ms}
use libgilberta.Context.{glbctx_findconn, find_index}
use libgilberta.Invariant.{Ensures}
use libgilberta.View.{Seen}
use libgilberta.Tests.Invariants.{open_conn, open_client}
use libgilberta.Tick.Receive.{zero_pkg, zero_addr}
use libgilberta.Tests.Codec.{header}
use libgilberta.Tests.Contexts.{sim, client, Sim}

abbrev packet : Pkg
packet = record zero_pkg {
  header = record header { payload_len = 2 };
  payload = 104 ∷ 105 ∷ replicate 1022 0;
}

packet-IsPacket : IsPacket packet
packet-IsPacket = record {
  header_fits = record {
    magic_fits = omega arith;
    payload_len_fits = omega arith;
    version_fits = omega arith;
    channel_id_fits = omega arith;
    chan_flags_fits = omega arith;
    ctrl_flags_fits = omega arith;
    client_gen_fits = omega arith;
    client_id_fits = omega arith;
    checksum_fits = omega arith;
    wnd_fits = omega arith;
    seq_fits = omega arith;
    ack_fits = omega arith;
  };
  magic_is = refl;
  version_is = refl;
  length_in = omega arith;
  memory = refl;
  bytes = ground arith;
}

abbrev peer : Addr
peer = record { sin_family = 2; sin_port = 7777; s_addr = 0x100007f }

abbrev waiting : St Sim
waiting = record {
  ctx = client;
  world = record { ms = 100; inbox = (wire_bytes (with_checksum packet), peer) ∷ [] };
}

glbio_read-wire_bytes_example :
    Gives (glbio_read sim zero_pkg zero_addr waiting) (with_checksum packet) peer
glbio_read-wire_bytes_example =
    glbio_read-wire_bytes sim packet zero_pkg zero_addr peer waiting packet-IsPacket refl refl

packet_passes : body_ok (with_checksum packet) 26 ≡ true
unfolding body_ok crc16_modbus_fast
packet_passes = refl

-- Both bytes of the payload are damaged.
abbrev damaged : List ℕ
damaged = 105 ∷ 104 ∷ replicate 1022 0

damage_refused_example : body_ok (record (with_checksum packet) { payload = damaged }) 26 ≡ false
damage_refused_example =
    damage_refused (with_checksum packet) damaged [] [] 104 105 105 104 26 26 packet_passes refl
      refl (ground arith) (ground arith) (ground arith) (λ h. omega (arith, h.0))

abbrev at_ping : St Sim
at_ping = record { ctx = open_client; world = record { ms = 100; inbox = [] } }

-- The same end 50 ms later.
abbrev at_pong : St Sim
at_pong = record { ctx = open_client; world = record { ms = 150; inbox = [] } }

ping-pong_example : Ensures (keepalive_expired sim 0 zero_pkg at_ping) (λ ping _.
    Ensures (on_ping sim ping zero_addr at_ping) (λ pong _.
      Ensures (on_pong sim pong at_pong) (λ _ u'.
        Seen 0 (Measured open_conn (clock_of sim at_pong.world - clock_of sim at_ping.world)) u')))
unfolding current_ms glbctx_findconn find_index
ping-pong_example =
    ping-pong sim sim 0 0 open_conn open_conn zero_pkg zero_addr at_ping at_pong at_ping refl refl
      refl refl (omega arith) (omega arith)
