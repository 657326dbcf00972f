-- ===== src/Tests/Repeats.antt =====
-- A retransmission whose timer has run out.
use libgilberta.Base.{◌≡◌, ◌∷◌, [], some, refl, arith}
use libgilberta.Queue.Slots
use libgilberta.Queue.Slots.Laws.{IsValid, push-IsValid}
use libgilberta.Queue.Slots.Cases.{init-IsValid}
use libgilberta.Packet.{Pkg}
use libgilberta.State.{Conn, Channel}
use libgilberta.Timer.{current_ms}
use libgilberta.Effect.{St}
use libgilberta.Tick.Timers.{transmit_channel}
use libgilberta.Tick.Timers.Repeat.{Repeated, transmit_channel-Repeated}
use libgilberta.Invariant.{Ensures}
use libgilberta.Tests.Contexts.{sim, Sim}
use libgilberta.Tests.Links.{channel, hello}
use libgilberta.Tests.Invariants.{open_conn, open_client}

abbrev due : Pkg
due = record hello { timestamp = 5000; retransmit_count = 1 }

abbrev busy : Channel
busy = record channel { s_queue = (Slots.push channel.s_queue due).1 }

abbrev busy_conn : Conn
busy_conn = record open_conn { channels = some (record { block = 64; items = busy ∷ [] }) }

abbrev ready_to_send : St Sim
ready_to_send = record {
  ctx = record open_client { connections = busy_conn ∷ [] };
  world = record { ms = 100; inbox = [] };
}

busy-IsValid : IsValid busy.s_queue
busy-IsValid = push-IsValid channel.s_queue (init-IsValid 4096 2 (omega arith) (omega arith)) due

busy_head : Slots.peek busy.s_queue ≡ some due
unfolding Slots.push Slots.peek Slots.slot Slots.init
busy_head = refl

transmit_channel-Repeated_example :
    Ensures
      (transmit_channel sim 0 0 ready_to_send)
      (λ _ t. Repeated sim ready_to_send t 0 0 busy_conn busy due)
unfolding current_ms
transmit_channel-Repeated_example =
    transmit_channel-Repeated sim ready_to_send 0 0 busy_conn busy due
      (record {
        chans = record { block = 64; items = busy ∷ [] };
        at = refl;
        has = refl;
        here = refl;
      })
      refl busy-IsValid busy_head (λ e. ground (arith, e)) (omega arith) (omega arith)
