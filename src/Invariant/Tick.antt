-- ===== src/Invariant/Tick.antt =====
-- glb_tick of src/libgilberta/gilberta.c as a whole: with memory, and a socket that holds finitely
-- many datagrams, it returns, without a fault, and keeps the invariant.
use libgilberta.Base.{
  ℕ, zero, suc, ◌+◌, ◌≤◌, ◌<◌, ◌≡◌, refl, true, false, ◌⊎◌, inl, inr, arith, Bool-cases, leb, ◌==◌,
  length, take, if◌then◌else◌,
}
use libgilberta.Base.Words.{u16}
use libgilberta.Status.{success, recv_failed}
use libgilberta.Packet.{Pkg, pkg_size}
use libgilberta.State.{Addr, Ctx}
use libgilberta.Os.{Os, Received, would_block, failed, datagram}
use libgilberta.Os.Benign.{Benign}
use libgilberta.Effect.{M, St, pure, get_ctx, put_ctx, ask, ◌>>=◌, ◌>>◌}
use libgilberta.Io.{glbio_read, accept_datagram, receive_into, Read}
use libgilberta.Tick.Common.{is_success, recv_limit_per_tick}
use libgilberta.Tick.Receive.{handle_packet, receive_loop, glb_tick, zero_pkg, zero_addr}
use libgilberta.Tick.Timers.{connection_steps}
use libgilberta.Invariant.{Inv, Ensures}
use libgilberta.Invariant.Rules.{Ensures-and_then, Ensures-weaken}
use libgilberta.Invariant.Stage.{Stage, plain, At, At-of_Inv, Inv-of_At}
use libgilberta.Invariant.Turn.{Setting, Turn, turn_rules}
use libgilberta.Invariant.Turn.Calls.{At-error, Turn-glbtime_start, Turn-log}
use libgilberta.Invariant.Turn.Accept.{Turn-on_syn}
use libgilberta.Invariant.Turn.Handshake.{Turn-on_ack, Turn-on_syn_ack}
use libgilberta.Invariant.Turn.Teardown.{
  Turn-on_fin, Turn-on_fin_ack, Turn-on_rst, Turn-on_ping, Turn-on_pong,
}
use libgilberta.Invariant.Turn.Data.{Turn-on_data, Turn-on_data_ack}
use libgilberta.Invariant.Turn.Timers.{Turn-connection_steps}

module _ {e : Setting} where
  open e use {os}

  Turn-handle_packet :
      (pkg : Pkg) (from_addr : Addr) → Turn e plain plain (handle_packet os pkg from_addr)
  unfolding handle_packet
  Turn-handle_packet pkg from_addr =
      search
        (
          turn_rules, Turn-on_syn, Turn-on_ack, Turn-on_syn_ack, Turn-on_fin, Turn-on_fin_ack,
          Turn-on_data, Turn-on_data_ack, Turn-on_ping, Turn-on_pong, Turn-on_rst,
        )
        depth 14

  Turn-accept_datagram :
      (pkg : Pkg) (len : ℕ) (from_addr : Addr)
      → Turn e plain plain (accept_datagram os pkg len from_addr)
  unfolding accept_datagram
  Turn-accept_datagram pkg len from_addr = search (turn_rules, Turn-glbtime_start, Turn-log)

-- Only the counters of the reads and the writes of a call are new.
At-limits :
    {n k : ℕ} {st : Stage} (ctx : Ctx) (received sent : ℕ)
    → At n k st ctx
    → At n k st (record ctx { recv_limit = received; send_limit = sent })
At-limits ctx received sent v = record {
  channel_total = v.channel_total;
  connection_total = v.connection_total;
  connections_length = v.connections_length;
  configs = v.configs;
  events = v.events;
  each = v.each;
}

module _ (os : Os) (benign : Benign os) {n k : ℕ} (has_channels : 0 < n)
    (has_connections : 0 < k) where
  open os use {World, recvfrom}

  abbrev pub setting : ℕ → Setting
  setting bound = record {
    os = os;
    benign = benign;
    n = n;
    k = k;
    bound = bound;
    has_channels = has_channels;
    has_connections = has_connections;
  }

  -- What a turn does from a state between the steps.
  pub run-Turn :
      {A : Type 0} (m : M World A) (s : St World)
      → ((bound : ℕ) → Turn (setting bound) plain plain m)
      → At n k plain s.ctx
      → Ensures
          (m s)
          (λ _ t. At n k plain t.ctx × (benign.pending t.world ≤ benign.pending s.world))
  run-Turn m s turn at =
      Ensures-weaken (m s)
        ((turn (benign.pending s.world)).ensures s (record { at = at; left = omega arith }))
        (λ _ t g. (g.at, g.left))

  -- A read says that there is nothing, or has taken one of the reads that are left.
  abbrev Reads : St World → Read → St World → Type 0
  Reads s read t =
      At n k plain t.ctx
      × (((read.status ≡ success) × (read.recvd ≡ 0))
          ⊎ (benign.pending t.world < benign.pending s.world))

  glbio_read-Reads :
      (pkg : Pkg) (from_addr : Addr) (s : St World)
      → At n k plain s.ctx
      → Ensures (glbio_read os pkg from_addr s) (Reads s)
  unfolding glbio_read ◌>>=◌ ◌>>◌ ask get_ctx put_ctx pure
  glbio_read-Reads pkg from_addr s at = go (recvfrom s.world).0 (benign.on_recvfrom s.world)
    where
      after : St World
      after = record s { world = (recvfrom s.world).1 }

      go :
          (r : Received)
          → (r ≡ would_block) ⊎ (benign.pending after.world < benign.pending s.world)
          → Ensures
              ((elim r as (λ _. M World Read) [
                | would_block ↦
                    pure (record { status = success; recvd = 0; pkg = pkg; from_addr = from_addr })
                | failed ↦ (do
                  ctx ← get_ctx
                  put_ctx (record ctx { error = recv_failed })
                  pure (record {
                    status = recv_failed;
                    recvd = 0;
                    pkg = pkg;
                    from_addr = from_addr;
                  }))
                | datagram bytes sender ↦
                    accept_datagram os
                      (receive_into pkg bytes)
                      (length (take pkg_size bytes))
                      sender
              ])
                after)
              (Reads s)
      go would_block h = (at, inl (refl, refl))
      go failed (inl e) = ground arith
      go failed (inr less) = (At-error after.ctx recv_failed at, inr less)
      go (datagram bytes sender) (inl e) = ground arith
      go (datagram bytes sender) (inr less) =
          Ensures-weaken
            (accept_datagram os (receive_into pkg bytes) (length (take pkg_size bytes)) sender
              after)
            (run-Turn
              (accept_datagram os (receive_into pkg bytes) (length (take pkg_size bytes)) sender)
              after
              (λ bound.
                Turn-accept_datagram (receive_into pkg bytes) (length (take pkg_size bytes)) sender)
              at)
            (λ _ t g. (g.0, inr (omega (arith, g.1))))

  -- A round of the loop after its read, when the rounds that are left do well.
  handled :
      (fuel : ℕ) (s : St World)
      → ((pkg : Pkg) (from_addr : Addr) (u : St World)
          → At n k plain u.ctx
          → benign.pending u.world < benign.pending s.world
          → Ensures (receive_loop os fuel pkg from_addr u) (λ _ t. At n k plain t.ctx))
      → (read : Read) (t : St World) → Reads s read t
      → (is_success read.status ≡ true) ⊎ (is_success read.status ≡ false)
      → ((read.recvd == 0) ≡ true) ⊎ ((read.recvd == 0) ≡ false)
      → Ensures
          ((if is_success read.status
              then (if read.recvd == 0 then pure read.pkg else (do
                ctx ← get_ctx
                put_ctx (record ctx { recv_limit = u16 (ctx.recv_limit + 1) })
                next ← handle_packet os read.pkg read.from_addr
                receive_loop os fuel next read.from_addr))
              else receive_loop os fuel read.pkg read.from_addr)
            t)
          (λ _ t. At n k plain t.ctx)
  unfolding ◌>>=◌ ◌>>◌ get_ctx put_ctx pure
  handled fuel s again read t h (inl done) (inl empty) = rw (done, empty) h.0
  handled fuel s again read t (at, inl (same, zeros)) (inl done) (inr bytes) =
      ground (arith, zeros, bytes)
  handled fuel s again read t (at, inr less) (inl done) (inr bytes) =
      let counted = record t { ctx = record (t.ctx) { recv_limit = u16 (t.ctx.recv_limit + 1) } } in
      rw (done, bytes)
        (Ensures-and_then (λ _ u. At n k plain u.ctx)
          (handle_packet os read.pkg read.from_addr counted) _
          (run-Turn (handle_packet os read.pkg read.from_addr) counted
            (λ bound. Turn-handle_packet read.pkg read.from_addr)
            (At-limits t.ctx (u16 (t.ctx.recv_limit + 1)) t.ctx.send_limit at))
          (λ next u g. again next read.from_addr u g.0 (omega (arith, g.1, less))))
  handled fuel s again read t (at, inl (same, zeros)) (inr bad) b = ground (arith, same, bad)
  handled fuel s again read t (at, inr less) (inr bad) b =
      rw bad (again read.pkg read.from_addr t at less)

  -- More fuel than there are reads left is enough.
  receive_loop-At :
      (fuel : ℕ) (pkg : Pkg) (from_addr : Addr) (s : St World)
      → At n k plain s.ctx
      → benign.pending s.world < fuel
      → Ensures (receive_loop os fuel pkg from_addr s) (λ _ t. At n k plain t.ctx)
  unfolding receive_loop ◌>>=◌ ◌>>◌ get_ctx put_ctx pure
  receive_loop-At zero pkg from_addr s at enough = absurd (omega arith)
  receive_loop-At (suc fuel) pkg from_addr s at enough =
      let again =
        λ (p : Pkg) (a : Addr) (u : St World) (v : At n k plain u.ctx)
            (less : benign.pending u.world < benign.pending s.world).
          receive_loop-At fuel p a u v (omega arith) in
      elim (Bool-cases (leb recv_limit_per_tick s.ctx.recv_limit)) [
        | inl full ↦ rw full at
        | inr more ↦ rw more (
            Ensures-and_then (λ _ t. At n k plain t.ctx) (glbio_read os pkg from_addr s) _
              (glbio_read-Reads pkg from_addr s at)
              (λ read t h.
                handled fuel s again read t h (Bool-cases (is_success read.status))
                  (Bool-cases (read.recvd == 0))))
      ]

pub glb_tick-Inv :
    (os : Os) (benign : Benign os) (n k fuel : ℕ) (s : St (Os.World os))
    → 0 < n
    → 0 < k
    → Inv n k s.ctx
    → benign.pending s.world < fuel
    → Ensures (glb_tick os fuel s) (λ status t. (status ≡ success) × Inv n k t.ctx)
unfolding glb_tick ◌>>=◌ ◌>>◌ get_ctx put_ctx pure
glb_tick-Inv os benign n k fuel s has_channels has_connections v enough =
    Ensures-and_then _ (receive_loop os fuel zero_pkg zero_addr fresh) _
      (receive_loop-At os benign has_channels has_connections fuel zero_pkg zero_addr fresh
        (At-limits s.ctx 0 0 (At-of_Inv s.ctx v)) enough)
      (λ pkg t at.
        Ensures-and_then _ (connection_steps os t.ctx.connection_count 0 pkg t) _
          (run-Turn os benign has_channels has_connections
            (connection_steps os t.ctx.connection_count 0 pkg) t
            (λ bound.
              Turn-connection_steps t.ctx.connection_count 0 pkg
                (omega (arith, at.connection_total)))
            at)
          (λ pkg' u g. (refl, Inv-of_At u.ctx g.0)))
  where
    fresh : St (Os.World os)
    fresh = record s { ctx = record (s.ctx) { recv_limit = 0; send_limit = 0 } }
