-- ===== src/Tests/Connections.antt =====
-- A connection that is opened, and on which the client sends a message.
use libgilberta.Base.{ℕ, [], ◌∷◌, some}
use libgilberta.Status.{ErrorCode, success}
use libgilberta.Packet.{Pkg}
use libgilberta.State.{Channel}
use libgilberta.Effect.{St}
use libgilberta.Queue.Slots
use libgilberta.Context.{channel_queue_length}
use libgilberta.Tick.Handshake.{on_ack}
use libgilberta.Tick.Receive.{zero_pkg}
use libgilberta.Api.{glb_send}
use libgilberta.Protocol.Network.{Net, quiet}
use libgilberta.Tests.Contexts.{sim, Sim}
use libgilberta.Tests.Echoes.{three_bytes, blank}
use libgilberta.Tests.Handshakes.{ended, first, second}

abbrev third : Pkg × St Sim
third = ended (on_ack sim second.0 first.1) zero_pkg first.1

abbrev numbered_channel : ℕ → ℕ → Channel
numbered_channel seq ack = record {
  s_queue = Slots.init 4096 channel_queue_length;
  r_queue = Slots.init 4096 channel_queue_length;
  seq = seq;
  ack = ack;
  flags = 1;
  priority = 0;
}

abbrev fourth : ErrorCode × St Sim
fourth = ended (glb_send sim blank (some three_bytes) second.1) success second.1

-- The client's message in its send queue, and nothing in the other direction.
abbrev to_server : Net sim sim
to_server = record (quiet sim sim second.1 third.1) {
  sender = fourth.1;
  sent = (1 ∷ 2 ∷ 3 ∷ []) ∷ [];
}
