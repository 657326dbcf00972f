-- ===== src/Tests/Ticks.antt =====
-- Calls of glb_tick on a context with an established connection, when a datagram waits.
use libgilberta.Base.{ℕ, some, ◌⊎◌, ◌≤◌, ◌<◌, ◌≡◌, refl, List, [], ◌∷◌, inl, inr, arith, length}
use libgilberta.Effect.{
  St, Run, ok, fault, out_of_fuel, ◌>>=◌, ◌>>◌, pure, get_ctx, get_conn, deref, put_conn, ask,
}
use libgilberta.Os.{would_block}
use libgilberta.Packet.{glbpkg_init, flag_ping}
use libgilberta.Io.{with_checksum, wire_bytes}
use libgilberta.Tick.Timers.{numbered}
use libgilberta.Os.Benign.{Benign}
use libgilberta.State.{Addr}
use libgilberta.Tick.Receive.{zero_addr, zero_pkg}
use libgilberta.Invariant.{Inv, Ensures}
use libgilberta.Invariant.Created.{Fits, glbctx_create-Inv}
use libgilberta.Queue.Slots
use libgilberta.Api.{glb_connect}
use libgilberta.Timer.{glbtime_start, timer_get_current_ms, current_ms}
use libgilberta.Context.{glbctx_generateseq}
use libgilberta.Context.Create.{
  blank_ctx, glbctx_create, create_socket, add_binding, add_eventqueue,
}
use libgilberta.Session.{connecting, ticking, perform, Reachable, created, called}
use libgilberta.Session.Safety.{session_safe}
use libgilberta.Tests.Contexts.{sim, Sim, client_config}
use libgilberta.Tests.Invariants.{open_client, open_conn}

pub read_once :
    (ms : ℕ) (inbox : List (List ℕ × Addr))
    → let w : Sim = record { ms = ms; inbox = inbox } in
      ((sim.recvfrom w).0 ≡ would_block) ⊎ (length (sim.recvfrom w).1.inbox < length inbox)
read_once ms [] = inl refl
read_once ms ((bytes, sender) ∷ rest) = inr (omega arith)

pub read_less :
    (ms : ℕ) (inbox : List (List ℕ × Addr))
    → length (sim.recvfrom (record { ms = ms; inbox = inbox })).1.inbox ≤ length inbox
read_less ms [] = omega arith
read_less ms ((bytes, sender) ∷ rest) = omega arith

abbrev pub benign_sim : Benign sim
benign_sim = record {
  pending = λ w. length w.inbox;
  on_recvfrom = λ w. read_once w.ms w.inbox;
  on_would_block = λ w. read_less w.ms w.inbox;
  on_sendto = λ w bytes addr. omega arith;
  on_clock_gettime = λ w. omega arith;
  on_malloc = λ w size. omega arith;
  on_free = λ w block. omega arith;
  on_log = λ w level message. omega arith;
  has_memory = λ w size. (4096, refl);
}

-- Three bytes that are no packet, and a PING.
abbrev pub busy : St Sim
busy = record {
  ctx = open_client;
  world = record {
    ms = 100;
    inbox =
        (1 ∷ 2 ∷ 3 ∷ [], zero_addr)
        ∷ (
          wire_bytes
              (with_checksum (numbered (glbpkg_init zero_pkg (open_conn.conn_id) flag_ping 0) 0 7)),
          zero_addr,
        )
        ∷ [];
  };
}

-- The context that glbctx_create gives for the client, and the same after glb_connect.
abbrev pub start : St Sim
start = record {
  ctx = record (blank_ctx client_config 4096 1) { sock = some 3; eventqueue = Slots.init 4096 4 };
  world = record { ms = 100; inbox = [] };
}

pub client_config-Fits : Fits client_config
client_config-Fits = record {
  channels = omega arith;
  connections = omega arith;
  events = omega arith;
}

pub start_created : (glbctx_create sim (some client_config) start.world).0 ≡ some start.ctx
unfolding glbctx_create create_socket add_binding add_eventqueue
start_created = refl

glbctx_create-Inv_example : (0 < 1) × Inv 1 1 start.ctx
glbctx_create-Inv_example =
    glbctx_create-Inv sim client_config start.world start.ctx client_config-Fits start_created

abbrev asked : Run Sim (Unit {0})
asked = perform sim connecting start

-- The state of a run that ended.
abbrev pub state_of : {A : Type 0} → Run Sim A → St Sim → St Sim
state_of (ok a s) t = s
state_of fault t = t
state_of out_of_fuel t = t

asked_ok : asked ≡ ok tt (state_of asked start)
unfolding perform glb_connect glbctx_generateseq glbtime_start timer_get_current_ms current_ms ◌>>=◌
    ◌>>◌ pure get_ctx get_conn deref put_conn ask
asked_ok = refl

-- A datagram arrives after glb_connect, and glb_tick reads it.
abbrev arrived : St Sim
arrived = record (state_of asked start) {
  world = record { ms = 150; inbox = (1 ∷ 2 ∷ 3 ∷ [], zero_addr) ∷ [] };
}

arrived-Reachable : Reachable benign_sim client_config arrived
arrived-Reachable =
    called start (state_of asked start) connecting arrived.world
      (created start.world start.world start.ctx start_created) tt asked_ok

session_safe_example : Ensures (perform sim (ticking 2) arrived) (λ _ t. Inv 1 1 t.ctx)
session_safe_example =
    session_safe sim benign_sim client_config arrived (ticking 2) client_config-Fits
      arrived-Reachable (omega arith)
