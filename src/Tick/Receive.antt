-- ===== src/Tick/Receive.antt =====
-- The first part of `glb_tick` (src/libgilberta/gilberta.c): the loop that reads packets, and the
-- whole function.
pub mod Loop
use libgilberta.Base.{ℕ, zero, suc, ◌+◌, true, false, ◌&&◌, replicate, leb, ◌==◌, if◌then◌else◌}
use libgilberta.Base.Words.{u16}
use libgilberta.Status.{ErrorCode, success}
use libgilberta.Packet.{
  Pkg, mtu, flag_syn, flag_ack, flag_syn_ack, flag_fin, flag_fin_ack, flag_data, flag_data_ack,
  flag_ping, flag_pong, flag_rst,
}
use libgilberta.State.{Addr}
use libgilberta.Os.{Os}
use libgilberta.Effect.{M, St, ok, out_of_fuel, pure, get_ctx, put_ctx, ◌>>=◌, ◌>>◌}
use libgilberta.Io.{glbio_read}
use libgilberta.Tick.Common.{is_success, recv_limit_per_tick}
use libgilberta.Tick.Handshake.{on_syn, on_ack, on_syn_ack}
use libgilberta.Tick.Teardown.{on_fin, on_fin_ack, on_rst}
use libgilberta.Tick.Data.{on_data, on_data_ack}
use libgilberta.Tick.Keepalive.{on_ping, on_pong}
use libgilberta.Tick.Timers.{connection_steps}

-- `glbpkg pkg = { 0 }` and `from_addr = { 0 }`.
abbrev pub zero_pkg : Pkg
zero_pkg = record {
  header = record {
    magic = 0;
    payload_len = 0;
    version = 0;
    channel_id = 0;
    chan_flags = 0;
    ctrl_flags = 0;
    client_gen = 0;
    client_id = 0;
    checksum = 0;
    wnd = 0;
    seq = 0;
    ack = 0;
  };
  payload = replicate mtu 0;
  timestamp = 0;
  retransmit_count = 0;
}

abbrev pub zero_addr : Addr
zero_addr = record { sin_family = 0; sin_port = 0; s_addr = 0 }

module _ (os : Os) where
  open os use {World}

  -- The branches on `ctrl_flags`, in the order of the code. Flags that fit none are ignored.
  unfoldable pub handle_packet : Pkg → Addr → M World Pkg
  handle_packet pkg from_addr =
      let flags = pkg.header.ctrl_flags in
      if (flags == flag_syn) && (pkg.header.client_id == 0xffff)
      then on_syn os pkg from_addr
      else if flags == flag_ack
      then on_ack os pkg
      else if flags == flag_syn_ack
      then on_syn_ack os pkg
      else if flags == flag_fin
      then on_fin os pkg
      else if flags == flag_fin_ack
      then on_fin_ack os pkg
      else if flags == flag_data
      then on_data os pkg from_addr
      else if flags == flag_data_ack
      then on_data_ack pkg
      else if flags == flag_ping
      then on_ping os pkg from_addr
      else if flags == flag_pong
      then on_pong os pkg
      else if flags == flag_rst
      then on_rst os pkg
      else pure pkg

  -- The loop of the reads. A packet that `glbio_read` refuses does not count towards the limit,
  -- so only the socket bounds the number of rounds, and the loop takes fuel.
  unfoldable pub receive_loop : ℕ → Pkg → Addr → M World Pkg
  unfolding handle_packet
  receive_loop zero pkg from_addr s = out_of_fuel
  receive_loop (suc fuel) pkg from_addr s =
      let again = λ (p : Pkg) (a : Addr) (t : St World). receive_loop fuel p a t in
      if leb recv_limit_per_tick s.ctx.recv_limit
      then ok pkg s
      else (do
        read ← glbio_read os pkg from_addr
        if is_success read.status
            then (if read.recvd == 0 then pure read.pkg else (do
              ctx ← get_ctx
              put_ctx (record ctx { recv_limit = u16 (ctx.recv_limit + 1) })
              next ← handle_packet read.pkg read.from_addr
              again next read.from_addr))
            else again read.pkg read.from_addr)
          s

  -- `glb_tick`, with fuel for the loop of the reads.
  unfoldable pub glb_tick : ℕ → M World ErrorCode
  unfolding receive_loop connection_steps
  glb_tick fuel = do
    ctx ← get_ctx
    put_ctx (record ctx { recv_limit = 0; send_limit = 0 })
    pkg ← receive_loop fuel zero_pkg zero_addr
    ctx' ← get_ctx
    pkg' ← connection_steps os ctx'.connection_count 0 pkg
    pure success
