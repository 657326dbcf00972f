-- ===== src/Tick/Receive/Loop.antt =====
-- When the reading loop of glb_tick (src/libgilberta/gilberta.c) ends, and when it does not.
use libgilberta.Base.{ℕ, zero, suc, ◌<◌, ◌≡◌, refl, ◌∙◌, false, arith, leb}
use libgilberta.Status.{recv_failed}
use libgilberta.Packet.{Pkg}
use libgilberta.State.{Addr}
use libgilberta.Os.{Os, failed}
use libgilberta.Effect.{St, out_of_fuel, ◌>>=◌, ◌>>◌, get_ctx, put_ctx, pure, ask}
use libgilberta.Io.{glbio_read}
use libgilberta.Tick.Common.{recv_limit_per_tick}
use libgilberta.Tick.Receive.{receive_loop}

module _ (os : Os) where
  open os use {World, recvfrom}

  -- The state after a read that failed.
  abbrev refused : St World → St World
  refused s = record s {
    ctx = record (s.ctx) { error = recv_failed };
    world = (recvfrom s.world).1;
  }

  -- A failed read is one round, which only records the error.
  failed_round :
      (fuel : ℕ) (pkg : Pkg) (from_addr : Addr) (s : St World)
      → s.ctx.recv_limit < recv_limit_per_tick
      → (recvfrom s.world).0 ≡ failed
      → receive_loop os (suc fuel) pkg from_addr s ≡ receive_loop os fuel pkg from_addr (refused s)
  unfolding receive_loop glbio_read ◌>>=◌ ◌>>◌ get_ctx put_ctx pure ask
  failed_round fuel pkg from_addr s below bad =
      let more : leb recv_limit_per_tick s.ctx.recv_limit ≡ false = ground arith in
      rw (more, bad) refl

  -- While `recvfrom` goes on failing with an error other than EAGAIN and EWOULDBLOCK, the loop does
  -- not end before its limit: it runs out of any amount of fuel.
  pub receive_loop-failed :
      (fuel : ℕ) (pkg : Pkg) (from_addr : Addr) (s : St World)
      → s.ctx.recv_limit < recv_limit_per_tick
      → ((w : World) → (recvfrom w).0 ≡ failed)
      → receive_loop os fuel pkg from_addr s ≡ out_of_fuel
  unfolding receive_loop
  receive_loop-failed zero pkg from_addr s below bad = refl
  receive_loop-failed (suc fuel) pkg from_addr s below bad =
      failed_round fuel pkg from_addr s below (bad s.world)
      ∙ receive_loop-failed fuel pkg from_addr (refused s) below bad
