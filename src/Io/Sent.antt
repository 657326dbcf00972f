-- ===== src/Io/Sent.antt =====
-- What glbio_send of src/libgilberta/glbio.c hands to the socket.
use libgilberta.Base.{◌+◌, ◌≡◌, refl, Bool-cases, inl, inr}
use libgilberta.Packet.{Pkg, header_size}
use libgilberta.State.{Addr}
use libgilberta.Os.{Os}
use libgilberta.Effect.{St, pure, get_ctx, put_ctx, ask, ◌>>=◌, ◌>>◌}
use libgilberta.Io.{glbio_send, with_checksum, wire_bytes, all_sent}
use libgilberta.Invariant.{Ensures}

module _ (os : Os) where
  open os use {World}

  -- glbio_send hands the sealed packet to `sendto`, and touches no connection.
  pub glbio_send-Ensures :
      (pkg : Pkg) (addr : Addr) (s : St World)
      → Ensures (glbio_send os pkg addr s) (λ r t.
        (r.1 ≡ with_checksum pkg)
        × (t.world ≡ (os.sendto s.world (wire_bytes (with_checksum pkg)) addr).1)
        × (t.ctx.connections ≡ s.ctx.connections))
  unfolding glbio_send ◌>>=◌ ◌>>◌ ask get_ctx put_ctx pure
  glbio_send-Ensures pkg addr s =
      elim (Bool-cases (
        all_sent (os.sendto s.world (wire_bytes (with_checksum pkg)) addr).0
          (pkg.header.payload_len + header_size))) [
            | inl whole ↦ rw whole (refl, refl, refl)
            | inr part ↦ rw part (refl, refl, refl)
          ]
