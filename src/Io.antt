-- ===== src/Io.antt =====
-- src/libgilberta/glbio.c: sending a packet and reading one, on POSIX.
pub mod Sent
pub mod RoundTrip
pub mod Corruption
use libgilberta.Base.{
  ℕ, ◌+◌, List, Option, none, some, Bool, false, not, ◌||◌, length, take, ltb, ◌==◌, if◌then◌else◌,
}
use libgilberta.Base.Memory.{patch}
use libgilberta.Status.{ErrorCode, success, send_failed, recv_failed}
use libgilberta.Crc.{crc16_modbus_fast}
use libgilberta.Packet.{
  Pkg, mtu, proto_magic, proto_version, header_size, pkg_size, pkg_bytes, pkg_of,
}
use libgilberta.State.{Addr}
use libgilberta.Os.{Os, would_block, failed, datagram, warn, invalid_packet}
use libgilberta.Effect.{M, pure, get_ctx, put_ctx, ask, tell, ◌>>=◌, ◌>>◌}
use libgilberta.Timer.{glbtime_start}

-- The packet with the checksum that `glbio_send` writes into it.
abbrev pub with_checksum : Pkg → Pkg
with_checksum pkg = record pkg {
  header = record (pkg.header) {
    checksum = crc16_modbus_fast (take pkg.header.payload_len pkg.payload);
  };
}

-- The bytes that are handed to `sendto`: the header and the payload.
unfoldable pub wire_bytes : Pkg → List ℕ
wire_bytes pkg = take (header_size + pkg.header.payload_len) (pkg_bytes pkg)

-- Did `sendto` take the whole packet?
abbrev pub all_sent : Option ℕ → ℕ → Bool
all_sent none len = false
all_sent (some sent) len = sent == len

-- What `recvfrom` leaves in the packet's memory: at most `pkg_size` bytes of the datagram, over
-- what was there.
unfoldable pub receive_into : Pkg → List ℕ → Pkg
receive_into pkg bytes = pkg_of (patch (take pkg_size bytes) (pkg_bytes pkg))

-- What `glbio_read` gives back: its status, `*recvd`, and what it changed.
pub record Read : Type 0 where
  pub status : ErrorCode
  pub recvd : ℕ
  pub pkg : Pkg
  pub from_addr : Addr

-- The four checks of a packet, in order; `false` stands for the first that fails.
unfoldable pub magic_ok : Pkg → Bool
magic_ok pkg =
    not (not (pkg.header.magic == proto_magic) || not (pkg.header.version == proto_version))

unfoldable pub body_ok : Pkg → ℕ → Bool
body_ok pkg recv_len =
    if ltb mtu pkg.header.payload_len
    then false
    else if ltb recv_len (header_size + pkg.header.payload_len)
    then false
    else pkg.header.checksum == crc16_modbus_fast (take pkg.header.payload_len pkg.payload)

module _ (os : Os) where
  open os use {World, recvfrom, sendto, log}

  -- `glbio_send`: the packet is returned since its checksum is written.
  unfoldable pub glbio_send : Pkg → Addr → M World (ErrorCode × Pkg)
  unfolding wire_bytes
  glbio_send pkg to_addr = do
    let sealed = with_checksum pkg
    sent ← ask (λ w. sendto w (wire_bytes sealed) to_addr)
    ctx ← get_ctx
    if all_sent sent (pkg.header.payload_len + header_size)
        then pure (success, sealed)
        else (do put_ctx (record ctx { error = send_failed }); pure (send_failed, sealed))

  -- The part of `glbio_read` after a datagram has arrived.
  unfoldable pub accept_datagram : Pkg → ℕ → Addr → M World Read
  unfolding magic_ok body_ok
  accept_datagram pkg recv_len from_addr =
      if magic_ok pkg
      then (if body_ok pkg recv_len
          then (do
            stamp ← glbtime_start os 0
            pure (record {
              status = success;
              recvd = recv_len;
              pkg = record pkg { timestamp = stamp };
              from_addr = from_addr;
            }))
          else pure (record { status = recv_failed; recvd = 0; pkg = pkg; from_addr = from_addr }))
      else (do
        tell (λ w. log w warn invalid_packet)
        pure (record { status = recv_failed; recvd = 0; pkg = pkg; from_addr = from_addr }))

  -- `glbio_read`, whose caller has set `*recvd` to 0.
  unfoldable pub glbio_read : Pkg → Addr → M World Read
  unfolding accept_datagram receive_into
  glbio_read pkg from_addr = do
    received ← ask recvfrom
    elim received [
      | would_block ↦
          pure (record { status = success; recvd = 0; pkg = pkg; from_addr = from_addr })
      | failed ↦ (do
        ctx ← get_ctx
        put_ctx (record ctx { error = recv_failed })
        pure (record { status = recv_failed; recvd = 0; pkg = pkg; from_addr = from_addr }))
      | datagram bytes sender ↦
          accept_datagram (receive_into pkg bytes) (length (take pkg_size bytes)) sender
    ]
