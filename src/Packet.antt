-- ===== src/Packet.antt =====
-- src/libgilberta/glbio.h: the packet, its constants and its layout in memory, which is also what
-- goes on the wire. Multi-byte fields are little-endian, as the header file states.
pub mod Layout
use libgilberta.Base.{ℕ, zero, suc, ◌+◌, ◌*◌, ◌/◌, ◌%◌, ◌^◌, List, [], ◌∷◌, ◌++◌, take, drop}

-- `GILBERTA_MTU`, `GILBERTA_PROTO_MAGIC`, `GILBERTA_PROTO_VERSION`.
abbrev pub mtu : ℕ
mtu = 1024

abbrev pub proto_magic : ℕ
proto_magic = 0x4247

abbrev pub proto_version : ℕ
proto_version = 1

-- `GLB_CTRL_FLAG_*`, and the combinations that `glb_tick` names.
abbrev pub flag_syn : ℕ
flag_syn = 0x01

abbrev pub flag_ack : ℕ
flag_ack = 0x02

abbrev pub flag_ping : ℕ
flag_ping = 0x04

abbrev pub flag_pong : ℕ
flag_pong = 0x08

abbrev pub flag_data : ℕ
flag_data = 0x10

abbrev pub flag_fin : ℕ
flag_fin = 0x40

abbrev pub flag_rst : ℕ
flag_rst = 0x80

abbrev pub flag_syn_ack : ℕ
flag_syn_ack = 0x03

abbrev pub flag_fin_ack : ℕ
flag_fin_ack = 0x42

abbrev pub flag_data_ack : ℕ
flag_data_ack = 0x12

-- `glbconid_t`.
pub record ConId : Type 0 where
  pub id : ℕ
  pub generation : ℕ

-- `glbpkgheader`.
pub record Header : Type 0 where
  pub magic : ℕ
  pub payload_len : ℕ
  pub version : ℕ
  pub channel_id : ℕ
  pub chan_flags : ℕ
  pub ctrl_flags : ℕ
  pub client_gen : ℕ
  pub client_id : ℕ
  pub checksum : ℕ
  pub wnd : ℕ
  pub seq : ℕ
  pub ack : ℕ

-- `glbpkg`; `payload` is the member `data`, an array of `mtu` bytes.
pub record Pkg : Type 0 where
  pub header : Header
  pub payload : List ℕ
  pub timestamp : ℕ
  pub retransmit_count : ℕ

abbrev pub header_size : ℕ
header_size = 24

abbrev pub pkg_size : ℕ
pkg_size = 1064

-- `n` bytes of a number, lowest first; and the number that bytes stand for.
pub to_le : ℕ → ℕ → List ℕ
to_le zero x = []
to_le (suc n) x = x % 256 ∷ to_le n (x / 256)

pub of_le : List ℕ → ℕ
of_le [] = 0
of_le (b ∷ bs) = b + 256 * of_le bs

-- The bytes of a header, in the order of its members.
unfoldable pub header_bytes : Header → List ℕ
unfolding to_le
header_bytes h =
    to_le 2 h.magic
    ++ (to_le 2 h.payload_len
        ++ (to_le 1 h.version
            ++ (to_le 1 h.channel_id
                ++ (to_le 1 h.chan_flags
                    ++ (to_le 1 h.ctrl_flags
                        ++ (to_le 2 h.client_gen
                            ++ (to_le 2 h.client_id
                                ++ (to_le 2 h.checksum
                                    ++ (to_le 2 h.wnd ++ (to_le 4 h.seq ++ to_le 4 h.ack))))))))))

field : ℕ → ℕ → List ℕ → ℕ
field off n bytes = of_le (take n (drop off bytes))

-- The header that bytes hold.
unfoldable pub header_of : List ℕ → Header
unfolding field of_le
header_of bytes = record {
  magic = field 0 2 bytes;
  payload_len = field 2 2 bytes;
  version = field 4 1 bytes;
  channel_id = field 5 1 bytes;
  chan_flags = field 6 1 bytes;
  ctrl_flags = field 7 1 bytes;
  client_gen = field 8 2 bytes;
  client_id = field 10 2 bytes;
  checksum = field 12 2 bytes;
  wnd = field 14 2 bytes;
  seq = field 16 4 bytes;
  ack = field 20 4 bytes;
}

-- A packet as the memory that it occupies, and back.
unfoldable pub pkg_bytes : Pkg → List ℕ
unfolding header_bytes
pkg_bytes p =
    header_bytes p.header ++ (p.payload ++ (to_le 8 p.timestamp ++ to_le 8 p.retransmit_count))

unfoldable pub pkg_of : List ℕ → Pkg
unfolding header_of
pkg_of bytes = record {
  header = header_of bytes;
  payload = take mtu (drop header_size bytes);
  timestamp = field (header_size + mtu) 8 bytes;
  retransmit_count = field (header_size + mtu + 8) 8 bytes;
}

-- `glbpkg_init` of src/libgilberta/gilberta.c: the header is set, the rest stays.
unfoldable pub glbpkg_init : Pkg → ConId → ℕ → ℕ → Pkg
glbpkg_init pkg conn_id ctrl_flags channel = record pkg {
  header = record {
    magic = proto_magic;
    payload_len = 0;
    version = proto_version;
    channel_id = channel;
    chan_flags = 0;
    ctrl_flags = ctrl_flags;
    client_gen = conn_id.generation;
    client_id = conn_id.id;
    checksum = 0xffff;
    wnd = 0;
    seq = 0;
    ack = 0;
  };
}
