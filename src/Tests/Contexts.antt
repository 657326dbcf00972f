-- ===== src/Tests/Contexts.antt =====
-- Contexts and a concrete outside: a clock that advances, a socket without datagrams.
use libgilberta.Base.{
  ℕ, ◌+◌, ◌*◌, ◌%◌, ◌≡◌, ◌↔◌, refl, List, [], ◌∷◌, some, none, true, false, arith, length,
}
use libgilberta.Queue.Slots
use libgilberta.State.{Addr, Ctx, closed}
use libgilberta.Os.{Os, failed, Received, would_block, datagram}
use libgilberta.Effect.{St, ok, out_of_fuel}
use libgilberta.Context.{glbctx_findconn, glbctx_findemptyconn}
use libgilberta.Context.Create.{Config, blank_ctx}
use libgilberta.Context.ClientId.{nth_id, nth_id_repeats}
use libgilberta.Context.Lookup.{
  IsFirst, HasId, SlotReset, glbctx_findconn-IsFirst, glbctx_findemptyconn-IsFirst,
}
use libgilberta.Timer.{current_ms, glbtime_start, glbtime_isexpired, glbtime_getremaining}
use libgilberta.Tick.Receive.{receive_loop, zero_pkg, zero_addr}
use libgilberta.Tick.Receive.Loop.{receive_loop-failed}
use libgilberta.Timer.Laws.{timer_lem}

-- The milliseconds of the clock, and the datagrams that wait.
pub record Sim : Type 0 where
  pub ms : ℕ
  pub inbox : List (List ℕ × Addr)

abbrev next_datagram : ℕ → List (List ℕ × Addr) → Received × Sim
next_datagram ms [] = (would_block, record { ms = ms; inbox = [] })
next_datagram ms ((bytes, sender) ∷ rest) =
    (datagram bytes sender, record { ms = ms; inbox = rest })

abbrev pub sim : Os
sim = record {
  World = Sim;
  recvfrom = λ w. next_datagram w.ms w.inbox;
  sendto = λ w bytes addr. (some (length bytes), w);
  clock_gettime =
      λ w. (record { tv_sec = 5; tv_nsec = w.ms * 1000000 }, record w { ms = w.ms + 1 });
  malloc = λ w size. (some 4096, w);
  free = λ w block. w;
  log = λ w level message. w;
  socket = λ w. (some 3, w);
  set_nonblocking = λ w sock. (true, w);
  bind = λ w sock addr. (true, w);
  close = λ w sock. w;
  inet_pton = λ text. some 0x100007f;
  inet_ntop = λ ip. [];
  htons = λ port. port;
  ntohs = λ port. port;
}

-- A client with one reliable channel, whose connection is closed.
abbrev pub client_config : Config
client_config = record {
  ip = none;
  port = 7777;
  flags = 0;
  channel_count = 1;
  eventqueue_length = 4;
  max_connections = 1;
  channels = record { priority = 0; flags = 1 } ∷ [];
}

abbrev pub client : Ctx
client = record (blank_ctx client_config 4096 1) { sock = some 3; eventqueue = Slots.init 0 4 }

nth_id_repeats_example : (nth_id 65537 client ≡ nth_id 2 client) ↔ (65537 % 65535 ≡ 2 % 65535)
nth_id_repeats_example = nth_id_repeats client refl refl 65537 2

glbctx_findconn-IsFirst_example :
    IsFirst (HasId 0 0) client.connections (glbctx_findconn client.connections 0 0)
glbctx_findconn-IsFirst_example = glbctx_findconn-IsFirst client.connections 0 0

glbctx_findemptyconn-IsFirst_example :
    IsFirst (λ c. c.state ≡ closed) client.connections (glbctx_findemptyconn client.connections).1
    × SlotReset client.connections
        (glbctx_findemptyconn client.connections).0
        (glbctx_findemptyconn client.connections).1
glbctx_findemptyconn-IsFirst_example = glbctx_findemptyconn-IsFirst client.connections

-- Three milliseconds into a timer of ten.
abbrev at_start : St Sim
at_start = record { ctx = client; world = record { ms = 100; inbox = [] } }

abbrev later : St Sim
later = record { ctx = client; world = record { ms = 103; inbox = [] } }

timer_lem_example :
    (glbtime_start sim 10 at_start
      ≡ ok 5111 (record at_start { world = record { ms = 101; inbox = [] } }))
    × (glbtime_isexpired sim 5111 later
        ≡ ok false (record later { world = record { ms = 104; inbox = [] } }))
    × (glbtime_getremaining sim 5111 later
        ≡ ok 7 (record later { world = record { ms = 104; inbox = [] } }))
unfolding current_ms
timer_lem_example =
    timer_lem sim at_start later 10 (omega arith, omega arith) (omega arith, omega arith)
      (omega arith) (omega arith)

-- A socket that only fails.
abbrev broken : Os
broken = record sim { recvfrom = λ w. (failed, w) }

receive_loop-failed_example : receive_loop broken 40 zero_pkg zero_addr at_start ≡ out_of_fuel
receive_loop-failed_example =
    receive_loop-failed broken 40 zero_pkg zero_addr at_start (omega arith) (λ w. refl)
