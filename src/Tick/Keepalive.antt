-- ===== src/Tick/Keepalive.antt =====
-- The branches of `glb_tick` (src/libgilberta/gilberta.c) for PING and PONG.
pub mod Rtt
use libgilberta.Base.{ℕ, ◌+◌, ◌-◌, ◌/◌, ◌%◌, ◌^◌, none, some, bit_or}
use libgilberta.Base.Words.{u32, u64, shl}
use libgilberta.Packet.{Pkg, glbpkg_init, flag_pong}
use libgilberta.State.{Addr}
use libgilberta.Os.{Os}
use libgilberta.Effect.{M, pure, get_ctx, ◌>>=◌, ◌>>◌}
use libgilberta.Timer.{glbtime_start}
use libgilberta.Io.{glbio_send}
use libgilberta.Context.{glbctx_findconn}
use libgilberta.Tick.Common.{modify_conn, keepalive_time}

-- The answer to a PING, built over it: the same identifier and the same two numbers.
unfoldable pub pong_of : Pkg → Pkg
pong_of pkg =
    let blank =
      glbpkg_init pkg (record { id = pkg.header.client_id; generation = pkg.header.client_gen })
        flag_pong pkg.header.channel_id in
    record blank { header = record (blank.header) { seq = pkg.header.seq; ack = pkg.header.ack } }

-- The timestamp that a PING carries in two 32-bit fields, and how PONG reads it.
unfoldable pub stamp_high : ℕ → ℕ
stamp_high time = u32 (time / 2 ^ 32)

unfoldable pub stamp_low : ℕ → ℕ
stamp_low time = u32 (time % 2 ^ 32)

unfoldable pub stamp_of : ℕ → ℕ → ℕ
stamp_of seq ack = bit_or (u64 (shl seq 32)) ack

-- The round-trip time that one PONG shows, and the running average.
unfoldable pub sample_rtt : ℕ → ℕ → ℕ
sample_rtt now time = u32 (u64 (now + 2 ^ 64 - time))

unfoldable pub mean_rtt : ℕ → ℕ → ℕ
mean_rtt old sample = u32 (old + sample) / 2

module _ (os : Os) where
  open os use {World}

  unfoldable pub on_ping : Pkg → Addr → M World Pkg
  unfolding pong_of
  on_ping pkg from_addr = do (status, sent) ← glbio_send os (pong_of pkg) from_addr; pure sent

  unfoldable pub on_pong : Pkg → M World Pkg
  unfolding stamp_of sample_rtt mean_rtt
  on_pong pkg = do
    ctx ← get_ctx
    elim (glbctx_findconn ctx.connections pkg.header.client_gen pkg.header.client_id) [
      | none ↦ pure pkg
      | some i ↦ (do
        modify_conn i (λ con. record con { keepalive_retry = 0 })
        now ← glbtime_start os 0
        let sample = sample_rtt now (stamp_of pkg.header.seq pkg.header.ack)
        modify_conn i (λ con. record con { rtt = mean_rtt con.rtt sample })
        keepalive ← glbtime_start os keepalive_time
        modify_conn i (λ con. record con { keepalive = keepalive })
        pure pkg)
    ]
