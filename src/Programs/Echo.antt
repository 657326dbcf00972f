-- ===== src/Programs/Echo.antt =====
-- src/test/echo.c: a server that sends each message back, and a client that sends one and closes after
-- the answer. The lines that they print are left out.
pub mod Reply
use libgilberta.Base.{
  ℕ, zero, suc, List, [], ◌∷◌, Option, none, some, Bool, true, false, length, if◌then◌else◌,
}
use libgilberta.Base.Memory.{patch}
use libgilberta.Status.{ErrorCode}
use libgilberta.Packet.{Pkg}
use libgilberta.State.{
  Ctx, Event, connect, disconnect, receive, migration, stalled, ChanConfig, channel_flag_reliable,
  flag_bind_port,
}
use libgilberta.Os.{Os}
use libgilberta.Effect.{M, St, Run, out_of_fuel, pure, failing, ◌>>=◌, ◌>>◌}
use libgilberta.Context.Create.{Config}
use libgilberta.Tick.Common.{is_success}
use libgilberta.Tick.Receive.{glb_tick}
use libgilberta.Api.{
  SendInfo, RecvInfo, glb_connect, glb_close, glb_send, glb_popdata, glb_getconinfo,
}
use libgilberta.Programs.Events.{drain}

-- `char data[1024]` and `char recv_buffer[1024]`.
abbrev pub buffer_size : ℕ
buffer_size = 1024

abbrev pub echo_port : ℕ
echo_port = 12345

-- The two channels that `ModuleMain` sets up, and the configurations of the two modes.
abbrev pub echo_channels : List ChanConfig
echo_channels =
    record { priority = 0; flags = 0 } ∷ record { priority = 0; flags = channel_flag_reliable } ∷ []

abbrev pub echo_server_config : Config
echo_server_config = record {
  ip = none;
  port = echo_port;
  flags = flag_bind_port;
  channel_count = 2;
  eventqueue_length = 0;
  max_connections = 16;
  channels = echo_channels;
}

abbrev pub echo_client_config : List ℕ → Config
echo_client_config address = record {
  ip = some address;
  port = echo_port;
  flags = 0;
  channel_count = 2;
  eventqueue_length = 0;
  max_connections = 0;
  channels = echo_channels;
}

-- What the client keeps: `running`, and `connection`, which is uninitialised at first.
pub record Client : Type 0 where
  pub connection : Option ℕ
  pub running : Bool

module _ (os : Os) where
  open os use {World}

  -- What the server does with the answer of glb_popdata. `junk` is what the uninitialised `data` holds,
  -- `local` the packet inside glb_send.
  unfoldable pub reply : List ℕ → Pkg → ℕ → ℕ → ErrorCode → Option (List ℕ) → M World (Unit {0})
  reply junk local i ch status none = pure tt
  reply junk local i ch status (some message) =
      if is_success status
      then (do
        result ← glb_send os local (
            some (record {
              bytes = some (patch message junk);
              con = some i;
              len = length message;
              channel_id = ch;
            }))
        pure tt)
      else pure tt

  -- The RECEIVE case of the server.
  unfoldable pub send_back : List ℕ → Pkg → ℕ → ℕ → M World (Unit {0})
  unfolding reply
  send_back junk local i ch = do
    (status, bytes) ←
        glb_popdata
          (some (record { has_buffer = true; con = some i; buflen = buffer_size; channel_id = ch }))
    reply junk local i ch status bytes

  -- The `switch` of the server.
  unfoldable pub serve : List ℕ → Pkg → Event → M World (Unit {0})
  unfolding send_back
  serve junk local (connect i) = do info ← glb_getconinfo os (some i); pure tt
  serve junk local (disconnect i reason) = pure tt
  serve junk local (receive i ch) = send_back junk local i ch
  serve junk local (migration i) = pure tt
  serve junk local (stalled i ch) = pure tt

  -- One round of the server's `while (1)`; the numbers are the fuel of the two loops in it.
  unfoldable pub server_round : List ℕ → Pkg → ℕ → ℕ → M World (Unit {0})
  unfolding serve
  server_round junk local reads events = do
    status ← glb_tick os reads
    drain (λ u e. serve junk local e) events tt

  -- glb_close of a variable that may not have been set.
  unfoldable pub close_connection : Option ℕ → M World (Unit {0})
  close_connection none = failing
  close_connection (some i) = do status ← glb_close os (some i); pure tt

  -- The `switch` of the client, whose `msg` are the bytes `hello`.
  unfoldable pub follow : List ℕ → Pkg → Client → Event → M World Client
  unfolding close_connection
  follow hello local client (connect i) = do
    info ← glb_getconinfo os (some i)
    result ←
        glb_send os local
          (some (record { bytes = some hello; con = some i; len = length hello; channel_id = 1 }))
    pure (record client { connection = some i })
  follow hello local client (disconnect i reason) = pure (record client { running = false })
  follow hello local client (receive i ch) = do
    answer ←
        glb_popdata
          (some (record { has_buffer = true; con = some i; buflen = buffer_size; channel_id = ch }))
    close_connection client.connection
    pure client
  follow hello local client (migration i) = pure client
  follow hello local client (stalled i ch) = pure client

  -- The client's `while (running)` on fuel for its rounds, and the glb_close behind it.
  unfoldable pub client_loop : List ℕ → Pkg → ℕ → ℕ → ℕ → Client → M World (Unit {0})
  unfolding follow close_connection
  client_loop hello local reads events zero client s = out_of_fuel
  client_loop hello local reads events (suc rounds) client s = elim client.running [
    | true ↦
        (do
          status ← glb_tick os reads
          client' ← drain (follow hello local) events client
          client_loop hello local reads events rounds client')
          s
    | false ↦ close_connection client.connection s
  ]
