-- ===== src/Tests/Echoes.antt =====
-- A message that waits at the echo server, and what comes of it.
use libgilberta.Base.{
  ℕ, ◌<◌, ◌≡◌, refl, List, [], ◌∷◌, some, true, arith, replicate, length-replicate,
}
use libgilberta.Status.{by_peer}
use libgilberta.Queue.Slots
use libgilberta.Queue.Slots.{Queue}
use libgilberta.Queue.Slots.Laws.{IsValid, contents, push-IsValid}
use libgilberta.Queue.Slots.Cases.{init-IsValid}
use libgilberta.Packet.{Pkg, glbpkg_init, flag_fin, pkg_bytes}
use libgilberta.State.{Conn, Channel, fin_sent}
use libgilberta.Effect.{St}
use libgilberta.Io.{wire_bytes}
use libgilberta.Context.{find_index, glbctx_findconn, glbctx_addrequal}
use libgilberta.Context.Closing.{Closes}
use libgilberta.Context.Owned.{owned}
use libgilberta.Tests.Accounts.{Tally, tally, counted, with_room}
use libgilberta.Tick.Receive.{zero_pkg}
use libgilberta.Tick.Data.{on_data}
use libgilberta.Protocol.Loss.{Lost, on_data-Lost}
use libgilberta.Tick.Teardown.{on_fin, on_fin_ack}
use libgilberta.Api.{RecvInfo, SendInfo, glb_popdata, glb_send}
use libgilberta.Api.Messages.{Reaches, Takes, glb_popdata-Takes}
use libgilberta.Api.Sending.{Sends, glb_send-Sends}
use libgilberta.Programs.Echo.{send_back}
use libgilberta.Programs.Echo.Reply.{Replied, send_back-Replied}
use libgilberta.Protocol.Teardown.{answered, on_fin-on_fin_ack}
use libgilberta.Invariant.{Ensures}
use libgilberta.Tests.Contexts.{sim, Sim}
use libgilberta.Tests.Links.{channel, full_channel, full-IsValid, second}
use libgilberta.Tests.Invariants.{open_conn, open_client}

-- A packet that carries two bytes.
abbrev greeting : Pkg
greeting = record zero_pkg {
  header = record (zero_pkg.header) { payload_len = 2 };
  payload = 104 ∷ 105 ∷ [];
}

abbrev loaded : Channel
loaded = record channel { r_queue = (Slots.push channel.r_queue greeting).1 }

abbrev loaded_conn : Conn
loaded_conn = record open_conn { channels = some (record { block = 64; items = loaded ∷ [] }) }

abbrev waiting : St Sim
waiting = record {
  ctx = record open_client { connections = loaded_conn ∷ [] };
  world = record { ms = 100; inbox = [] };
}

reached : Reaches waiting 0 0 loaded_conn loaded
reached = record {
  chans = record { block = 64; items = loaded ∷ [] };
  at = refl;
  has = refl;
  here = refl;
}

r_queue-IsValid : IsValid loaded.r_queue
r_queue-IsValid =
    push-IsValid channel.r_queue (init-IsValid 8192 2 (omega arith) (omega arith)) greeting

loaded_contents : contents loaded.r_queue ≡ greeting ∷ []
unfolding Slots.push Slots.slot Slots.init
loaded_contents = refl

abbrev into_buffer : RecvInfo
into_buffer = record { has_buffer = true; con = some 0; buflen = 1024; channel_id = 0 }

glb_popdata-Takes_example :
    Ensures
      (glb_popdata (some into_buffer) waiting)
      (λ answer t. Takes waiting t 0 0 1024 loaded_conn loaded answer.0 answer.1)
glb_popdata-Takes_example =
    glb_popdata-Takes into_buffer reached r_queue-IsValid (omega arith) (omega arith)

abbrev zeros : List ℕ
zeros = replicate 1024 0

abbrev pub three_bytes : SendInfo
three_bytes = record { bytes = some (1 ∷ 2 ∷ 3 ∷ []); con = some 0; len = 3; channel_id = 0 }

abbrev pub blank : Pkg
blank = record zero_pkg { payload = zeros }

glb_send-Sends_example :
    Ensures
      (glb_send sim blank (some three_bytes) waiting)
      (λ status t. Sends waiting t 0 0 (1 ∷ 2 ∷ 3 ∷ []) loaded_conn loaded status)
glb_send-Sends_example =
    glb_send-Sends sim blank (length-replicate {A = ℕ} 1024 0) waiting 0 0 loaded_conn loaded
      three_bytes (1 ∷ 2 ∷ 3 ∷ []) reached (init-IsValid 4096 2 (omega arith) (omega arith)) refl
      (omega arith) (omega arith) (omega arith) (omega arith)

send_back-Replied_example :
    Ensures
      (send_back sim zeros blank 0 0 waiting)
      (λ _ t. Replied waiting t 0 0 loaded_conn loaded greeting [])
send_back-Replied_example =
    send_back-Replied sim zeros blank waiting 0 0 loaded_conn loaded greeting [] reached
      (init-IsValid 4096 2 (omega arith) (omega arith)) r_queue-IsValid refl (omega arith)
      (length-replicate {A = ℕ} 1024 0) (length-replicate {A = ℕ} 1024 0) loaded_contents
      (omega arith) (omega arith) (omega arith)

-- The two ends of a connection of which one has sent a FIN.
abbrev leaving : Conn
leaving = record open_conn { state = fin_sent }

abbrev leaver : St Tally
leaver = record {
  ctx = record open_client { connections = leaving ∷ [] };
  world = record (with_room 0) { blocks = λ a. owned leaving.channels a };
}

abbrev fin : Pkg
fin = glbpkg_init blank (open_conn.conn_id) flag_fin 0

abbrev staying : St Tally
staying = record {
  ctx = waiting.ctx;
  world = record (with_room 0) { blocks = λ a. owned loaded_conn.channels a };
}

on_fin-on_fin_ack_example : Ensures (on_fin tally fin staying) (λ fin_ack s'.
    Closes counted 0 loaded_conn by_peer (answered tally staying fin loaded_conn) s'
    × Ensures
        (on_fin_ack tally fin_ack leaver)
        (λ _ t'. Closes counted 0 leaving by_peer leaver t'))
unfolding glbctx_findconn find_index wire_bytes pkg_bytes glbpkg_init
on_fin-on_fin_ack_example =
    on_fin-on_fin_ack tally tally counted counted staying leaver 0 0 leaving loaded_conn fin refl
      refl refl (init-IsValid 0 4 (omega arith) (omega arith)) refl refl refl refl
      (init-IsValid 0 4 (omega arith) (omega arith))

-- A DATA packet for a channel whose receive queue is full.
abbrev crowded_conn : Conn
crowded_conn = record open_conn {
  channels = some (record { block = 64; items = full_channel ∷ [] });
}

abbrev crowded : St Sim
crowded = record waiting { ctx = record open_client { connections = crowded_conn ∷ [] } }

no_room : ¬ (full_channel.r_queue.length < full_channel.r_queue.capacity)
unfolding Slots.push Slots.init
no_room = omega arith

on_data-Lost_example :
    Ensures
      (on_data sim second crowded_conn.peer_addr crowded)
      (λ answer t. Lost sim crowded t 0 crowded_conn full_channel second answer)
unfolding glbctx_findconn find_index glbctx_addrequal Slots.push Slots.init
on_data-Lost_example =
    on_data-Lost sim crowded 0 crowded_conn full_channel second crowded_conn.peer_addr
      (record {
        chans = record { block = 64; items = full_channel ∷ [] };
        at = refl;
        has = refl;
        here = refl;
      })
      refl refl (omega arith) refl full-IsValid no_room refl refl (omega arith)
