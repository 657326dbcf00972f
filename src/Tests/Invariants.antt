-- ===== src/Tests/Invariants.antt =====
-- The invariant of a context with an established connection.
use libgilberta.Base.{◌≢◌, refl, [], ◌∷◌, Option, some, none, arith}
use libgilberta.Queue.Slots.Cases.{init-IsValid}
use libgilberta.Queue.Slots
use libgilberta.Queue.Fifo
use libgilberta.Queue.Slots.Laws.{IsValid, contents, push-IsValid}
use libgilberta.Api.Events.{Polls, glb_pollevent-Polls}
use libgilberta.State.{Event, Conn, Ctx, Channels, established}
use libgilberta.Effect.{St}
use libgilberta.Context.Create.{zero_conn}
use libgilberta.Tick.Receive.{zero_pkg}
use libgilberta.Api.{SendInfo, glb_send}
use libgilberta.Invariant.{Inv, Ensures}
use libgilberta.Invariant.Send.{glb_send-Inv}
use libgilberta.Tests.Contexts.{sim, Sim, client}
use libgilberta.Tests.Links.{channel}

abbrev pub open_conn : Conn
open_conn = record zero_conn {
  state = established;
  channels = some (record { block = 64; items = channel ∷ [] });
}

abbrev pub open_client : Ctx
open_client = record client { connections = open_conn ∷ [] }

some≢none : {c : Channels} → ◌≢◌ {A = Option Channels} (some c) none
some≢none e = ground arith

pub open_client-Inv : Inv 1 1 open_client
open_client-Inv = record {
  channel_total = refl;
  connection_total = refl;
  connections_length = refl;
  configs = refl;
  events = init-IsValid 0 4 (omega arith) (omega arith);
  connections_ok = (
    record {
      live = λ _ nothing. some≢none nothing;
      shape = (
        refl,
        (
          record {
            s_valid = init-IsValid 4096 2 (omega arith) (omega arith);
            r_valid = init-IsValid 8192 2 (omega arith) (omega arith);
          },
          tt,
        ),
      );
    },
    tt,
  );
}

abbrev two_bytes : SendInfo
two_bytes = record { bytes = some (104 ∷ 105 ∷ []); con = some 0; len = 2; channel_id = 0 }

abbrev sending : St Sim
sending = record { ctx = open_client; world = record { ms = 100; inbox = [] } }

glb_send-Inv_example :
    Ensures (glb_send sim zero_pkg (some two_bytes) sending) (λ _ t. Inv 1 1 t.ctx)
glb_send-Inv_example =
    glb_send-Inv sim 1 1 zero_pkg two_bytes sending open_client-Inv
      (record { con_in = λ i e. ground arith; enough = λ bytes e. ground arith })

-- Two events wait.
abbrev with_events : St Sim
with_events = record sending {
  ctx = record open_client {
    eventqueue =
        (Slots.push (Slots.push (Slots.init 0 4) (Event.connect 0)).1 (Event.receive 0 0)).1;
  };
}

with_events-IsValid : IsValid with_events.ctx.eventqueue
with_events-IsValid =
    push-IsValid (Slots.push (Slots.init 0 4) (Event.connect 0)).1
      (push-IsValid (Slots.init 0 4) (init-IsValid 0 4 (omega arith) (omega arith))
        (Event.connect 0))
      (Event.receive 0 0)

glb_pollevent-Polls_example :
    let (status, event, events) = Fifo.pop (contents with_events.ctx.eventqueue) in
    Polls with_events status event events
glb_pollevent-Polls_example = glb_pollevent-Polls with_events with_events-IsValid
