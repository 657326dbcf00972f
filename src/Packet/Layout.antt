-- ===== src/Packet/Layout.antt =====
-- The layout of src/libgilberta/glbio.h: what is written as bytes is read back as the same packet.
use libgilberta.Base.{
  ℕ, zero, suc, ◌/◌, ◌^◌, ◌<◌, ◌≡◌, ◌+◌, ◌%◌, refl, ap, List, some, get_elem?, ◌++◌, arith, length,
  length-append,
}
use libgilberta.Packet.{
  Header, Pkg, mtu, header_size, pkg_size, to_le, of_le, header_bytes, header_of, pkg_bytes, field,
}

-- Every field fits its width.
pub record IsHeader (h : Header) : Type 0 where
  pub magic_fits : h.magic < 2 ^ 16
  pub payload_len_fits : h.payload_len < 2 ^ 16
  pub version_fits : h.version < 2 ^ 8
  pub channel_id_fits : h.channel_id < 2 ^ 8
  pub chan_flags_fits : h.chan_flags < 2 ^ 8
  pub ctrl_flags_fits : h.ctrl_flags < 2 ^ 8
  pub client_gen_fits : h.client_gen < 2 ^ 16
  pub client_id_fits : h.client_id < 2 ^ 16
  pub checksum_fits : h.checksum < 2 ^ 16
  pub wnd_fits : h.wnd < 2 ^ 16
  pub seq_fits : h.seq < 2 ^ 32
  pub ack_fits : h.ack < 2 ^ 32

pub length-header_bytes : (h : Header) → length (header_bytes h) ≡ header_size
unfolding header_bytes to_le
length-header_bytes h = refl

-- `n` bytes from offset `off` on are the number, lowest byte first.
abbrev pub LittleEndian : List ℕ → ℕ → ℕ → ℕ → Type 0
LittleEndian bytes off zero x = Unit {0}
LittleEndian bytes off (suc n) x =
    (get_elem? bytes off ≡ some (x % 256)) × LittleEndian bytes (off + 1) n (x / 256)

-- The offset and the width of every member of the packed structure.
pub record LaidOut (h : Header) (bytes : List ℕ) : Type 0 where
  pub magic_at : LittleEndian bytes 0 2 h.magic
  pub payload_len_at : LittleEndian bytes 2 2 h.payload_len
  pub version_at : LittleEndian bytes 4 1 h.version
  pub channel_id_at : LittleEndian bytes 5 1 h.channel_id
  pub chan_flags_at : LittleEndian bytes 6 1 h.chan_flags
  pub ctrl_flags_at : LittleEndian bytes 7 1 h.ctrl_flags
  pub client_gen_at : LittleEndian bytes 8 2 h.client_gen
  pub client_id_at : LittleEndian bytes 10 2 h.client_id
  pub checksum_at : LittleEndian bytes 12 2 h.checksum
  pub wnd_at : LittleEndian bytes 14 2 h.wnd
  pub seq_at : LittleEndian bytes 16 4 h.seq
  pub ack_at : LittleEndian bytes 20 4 h.ack

header_bytes-LaidOut : (h : Header) (rest : List ℕ) → LaidOut h (header_bytes h ++ rest)
unfolding header_bytes to_le
header_bytes-LaidOut h rest = record {
  magic_at = (refl, (refl, tt));
  payload_len_at = (refl, (refl, tt));
  version_at = (refl, tt);
  channel_id_at = (refl, tt);
  chan_flags_at = (refl, tt);
  ctrl_flags_at = (refl, tt);
  client_gen_at = (refl, (refl, tt));
  client_id_at = (refl, (refl, tt));
  checksum_at = (refl, (refl, tt));
  wnd_at = (refl, (refl, tt));
  seq_at = (refl, (refl, (refl, (refl, tt))));
  ack_at = (refl, (refl, (refl, (refl, tt))));
}

header_of-bytes : (h : Header) (rest : List ℕ) → IsHeader h → header_of (header_bytes h ++ rest) ≡ h
unfolding header_of header_bytes to_le of_le field
header_of-bytes h rest v = ground arith

-- The bytes of a header whose fields fit, whatever follows them, have every member at its offset in the
-- packed structure of glbio.h, with its width, lowest byte first; and they are read back as that header.
pub header_of-header_bytes :
    (h : Header) (rest : List ℕ)
    → IsHeader h
    → LaidOut h (header_bytes h ++ rest) × (header_of (header_bytes h ++ rest) ≡ h)
header_of-header_bytes h rest v = (header_bytes-LaidOut h rest, header_of-bytes h rest v)

length-to_le : (n x : ℕ) → length (to_le n x) ≡ n
unfolding to_le
length-to_le zero x = refl
length-to_le (suc n) x = ap suc (length-to_le n (x / 256))

-- A packet's memory has the size of the structure.
pub length-pkg_bytes : (p : Pkg) → length p.payload ≡ mtu → length (pkg_bytes p) ≡ pkg_size
unfolding pkg_bytes
length-pkg_bytes p h = omega (
  arith,
  h,
  length-append (header_bytes p.header)
      (p.payload ++ (to_le 8 p.timestamp ++ to_le 8 p.retransmit_count)),
  length-header_bytes p.header,
  length-append p.payload (to_le 8 p.timestamp ++ to_le 8 p.retransmit_count),
  length-append (to_le 8 p.timestamp) (to_le 8 p.retransmit_count),
  length-to_le 8 p.timestamp,
  length-to_le 8 p.retransmit_count,
)
