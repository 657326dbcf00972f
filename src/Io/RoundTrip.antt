-- ===== src/Io/RoundTrip.antt =====
-- A packet that glbio_send of src/libgilberta/glbio.c sends is what glbio_read reads at the other end.
use libgilberta.Base.{
  ℕ, ◌+◌, ◌≤◌, ◌≡◌, refl, sym, ap, ◌∙◌, List, ◌++◌, true, take, drop, length, All, arith,
  length-append, length-take, take-length, drop-append, take-append,
}
use libgilberta.Base.Segments.{
  take-append_more, take-append_short, take-take, patch-split, append_assoc,
}
use libgilberta.Base.Memory.{patch}
use libgilberta.Base.Words.{u64}
use libgilberta.Status.{success}
use libgilberta.Crc.Bitwise.{IsByte}
use libgilberta.Crc.Detect.{crc16_modbus_fast-lt}
use libgilberta.Packet.{
  Pkg, Header, mtu, header_size, pkg_size, proto_magic, proto_version, header_bytes, header_of,
  pkg_bytes, pkg_of, to_le,
}
use libgilberta.Packet.Layout.{
  IsHeader, header_of-header_bytes, length-header_bytes, length-pkg_bytes,
}
use libgilberta.State.{Addr}
use libgilberta.Os.{Os, datagram}
use libgilberta.Effect.{St, ok, Run, ◌>>=◌, pure, ask}
use libgilberta.Timer.{timer_get_current_ms, glbtime_start, current_ms}
use libgilberta.Io.{
  with_checksum, wire_bytes, receive_into, magic_ok, body_ok, accept_datagram, glbio_read, Read,
}

-- A packet as the library builds it: its fields fit, and its payload is bytes.
pub record IsPacket (pkg : Pkg) : Type 0 where
  pub header_fits : IsHeader pkg.header
  pub magic_is : pkg.header.magic ≡ proto_magic
  pub version_is : pkg.header.version ≡ proto_version
  pub length_in : pkg.header.payload_len ≤ mtu
  pub memory : length pkg.payload ≡ mtu
  pub bytes : All IsByte (take pkg.header.payload_len pkg.payload)

-- What goes over the wire, in two parts.
wire-split :
    (p : Pkg)
    → p.header.payload_len ≤ length p.payload
    → wire_bytes p ≡ header_bytes p.header ++ take p.header.payload_len p.payload
unfolding wire_bytes pkg_bytes
wire-split p h =
    let tail = p.payload ++ (to_le 8 p.timestamp ++ to_le 8 p.retransmit_count) in
    ap (λ n. take (n + p.header.payload_len) (header_bytes p.header ++ tail))
      (sym (length-header_bytes p.header))
    ∙ take-append_more (header_bytes p.header) tail p.header.payload_len
    ∙ ap (λ t. header_bytes p.header ++ t)
        (take-append_short p.payload (to_le 8 p.timestamp ++ to_le 8 p.retransmit_count)
          p.header.payload_len h)

-- A header and payload in memory, whatever follows, are the packet's.
pkg_of-parts :
    (h : Header) (payload rest : List ℕ)
    → IsHeader h
    → length payload ≡ h.payload_len
    → h.payload_len ≤ mtu
    → let p = pkg_of ((header_bytes h ++ payload) ++ rest) in
      (p.header ≡ h) × (take h.payload_len p.payload ≡ payload)
unfolding pkg_of
pkg_of-parts h payload rest fits len small =
    let whole : (header_bytes h ++ payload) ++ rest ≡ header_bytes h ++ (payload ++ rest) =
      sym (append_assoc (header_bytes h) payload rest) in
    (
      ap header_of whole ∙ (header_of-header_bytes h (payload ++ rest) fits).1,
      take-take (drop header_size ((header_bytes h ++ payload) ++ rest)) h.payload_len mtu small
          ∙ ap (λ t. take h.payload_len (drop header_size t)) whole
          ∙ ap (λ n. take h.payload_len (drop n (header_bytes h ++ (payload ++ rest))))
              (sym (length-header_bytes h))
          ∙ ap (take h.payload_len) (drop-append (header_bytes h) (payload ++ rest))
          ∙ ap (λ n. take n (payload ++ rest)) (sym len)
          ∙ take-append payload rest,
    )

module _ (pkg buf : Pkg) (v : IsPacket pkg) (memory : length buf.payload ≡ mtu) where
  abbrev sealed : Pkg
  sealed = with_checksum pkg

  sealed-IsHeader : IsHeader sealed.header
  sealed-IsHeader = record {
    magic_fits = v.header_fits.magic_fits;
    payload_len_fits = v.header_fits.payload_len_fits;
    version_fits = v.header_fits.version_fits;
    channel_id_fits = v.header_fits.channel_id_fits;
    chan_flags_fits = v.header_fits.chan_flags_fits;
    ctrl_flags_fits = v.header_fits.ctrl_flags_fits;
    client_gen_fits = v.header_fits.client_gen_fits;
    client_id_fits = v.header_fits.client_id_fits;
    checksum_fits = crc16_modbus_fast-lt (take pkg.header.payload_len pkg.payload) v.bytes;
    wnd_fits = v.header_fits.wnd_fits;
    seq_fits = v.header_fits.seq_fits;
    ack_fits = v.header_fits.ack_fits;
  }

  body : List ℕ
  body = take pkg.header.payload_len pkg.payload

  length-body : length body ≡ pkg.header.payload_len
  unfolding body
  length-body = omega (arith, length-take pkg.header.payload_len pkg.payload, v.memory, v.length_in)

  length-wire : length (wire_bytes sealed) ≡ header_size + pkg.header.payload_len
  unfolding body
  length-wire =
      ap length (wire-split sealed (omega (arith, v.memory, v.length_in)))
      ∙ length-append (header_bytes sealed.header) body
      ∙ omega (arith, length-header_bytes sealed.header, length-body)

  -- What is in the buffer after the datagram was copied into it.
  arrived :
      ((receive_into buf (wire_bytes sealed)).header ≡ sealed.header)
      × (take pkg.header.payload_len (receive_into buf (wire_bytes sealed)).payload ≡ body)
  unfolding receive_into body
  arrived =
      let small : length (wire_bytes sealed) ≤ pkg_size = omega (arith, length-wire, v.length_in) in
      let room : length (wire_bytes sealed) ≤ length (pkg_bytes buf) =
        omega (arith, small, length-pkg_bytes buf memory) in
      let parts = wire-split sealed (omega (arith, v.memory, v.length_in)) in
      let rest = drop (length (wire_bytes sealed)) (pkg_bytes buf) in
      let whole : patch (take pkg_size (wire_bytes sealed)) (pkg_bytes buf)
          ≡ (header_bytes sealed.header ++ body) ++ rest =
        ap (λ t. patch t (pkg_bytes buf)) (take-length (wire_bytes sealed) pkg_size small)
        ∙ patch-split (wire_bytes sealed) (pkg_bytes buf) room
        ∙ ap (λ t. t ++ rest) parts in
      rw whole (pkg_of-parts sealed.header body rest sealed-IsHeader length-body v.length_in)

  arrived-magic_ok : magic_ok (receive_into buf (wire_bytes sealed)) ≡ true
  unfolding magic_ok
  arrived-magic_ok = ground (
    arith,
    ap (λ (h : Header). h.magic) arrived.0,
    ap (λ (h : Header). h.version) arrived.0,
    v.magic_is,
    v.version_is,
  )

  arrived-body_ok :
      (len : ℕ)
      → len ≡ header_size + pkg.header.payload_len
      → body_ok (receive_into buf (wire_bytes sealed)) len ≡ true
  unfolding body_ok body
  arrived-body_ok len e = rw (arrived.0, arrived.1) (ground (arith, v.length_in, e))

-- The result of a read that gives a packet and its sender.
pub record Gives {W : Type 0} (run : Run W Read) (pkg : Pkg) (sender : Addr) : Type 0 where
  pub read : Read
  pub after : St W
  pub returns : run ≡ ok read after
  pub status_is : read.status ≡ success
  pub recvd_is : read.recvd ≡ header_size + pkg.header.payload_len
  pub same_header : read.pkg.header ≡ pkg.header
  pub same_payload :
      take pkg.header.payload_len read.pkg.payload ≡ take pkg.header.payload_len pkg.payload
  pub same_sender : read.from_addr ≡ sender

module _ (os : Os) where
  open os use {World, recvfrom, clock_gettime}

  -- A well-formed packet, sealed and sent as glbio_send does, whose datagram is the next that
  -- `recvfrom` gives: glbio_read, into any packet buffer, succeeds and returns the number of bytes
  -- sent, the header with the checksum, the payload and the sender.
  pub glbio_read-wire_bytes :
      (pkg buf : Pkg) (from_addr sender : Addr) (s : St World)
      → IsPacket pkg
      → length buf.payload ≡ mtu
      → (recvfrom s.world).0 ≡ datagram (wire_bytes (with_checksum pkg)) sender
      → Gives (glbio_read os buf from_addr s) (with_checksum pkg) sender
  unfolding glbio_read accept_datagram glbtime_start timer_get_current_ms ◌>>=◌ pure ask body
  glbio_read-wire_bytes pkg buf from_addr sender s v memory next =
      let bytes = wire_bytes (with_checksum pkg) in
      let p = receive_into buf bytes in
      let whole : length (take pkg_size bytes) ≡ header_size + pkg.header.payload_len =
        omega (arith, length-take pkg_size bytes, length-wire pkg buf v memory, v.length_in) in
      let came = (recvfrom s.world).1 in
      let stamp = clock_gettime came in
      let good = arrived-magic_ok pkg buf v memory in
      let sound = arrived-body_ok pkg buf v memory (length (take pkg_size bytes)) whole in
      record {
        read = record {
          status = success;
          recvd = length (take pkg_size bytes);
          pkg = record p { timestamp = u64 (current_ms stamp.0 + 0) };
          from_addr = sender;
        };
        after = record s { world = stamp.1 };
        returns = rw (next, good, sound) refl;
        status_is = refl;
        recvd_is = whole;
        same_header = (arrived pkg buf v memory).0;
        same_payload = (arrived pkg buf v memory).1;
        same_sender = refl;
      }
