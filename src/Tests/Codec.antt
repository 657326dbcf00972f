-- ===== src/Tests/Codec.antt =====
-- The checksum and the packet layout at concrete inputs.
use libgilberta.Base.{ℕ, ◌≡◌, refl, List, [], ◌∷◌, ◌++◌, arith}
use libgilberta.Crc.{crc16_modbus_fast, crc16_bitwise_from}
use libgilberta.Crc.Bitwise.{crc16_modbus_fast-crc16_bitwise_from}
use libgilberta.Crc.Detect.{burst_detected}
use libgilberta.Packet.{Header, header_of, header_bytes, proto_magic}
use libgilberta.Packet.Layout.{LaidOut, header_of-header_bytes}

-- The check value of CRC-16/MODBUS for the text "123456789".
abbrev digits : List ℕ
digits = 0x31 ∷ 0x32 ∷ 0x33 ∷ 0x34 ∷ 0x35 ∷ 0x36 ∷ 0x37 ∷ 0x38 ∷ 0x39 ∷ []

digits_checksum : crc16_modbus_fast digits ≡ 0x4b37
unfolding crc16_modbus_fast
digits_checksum = refl

crc16_modbus_fast-crc16_bitwise_from_example :
    crc16_modbus_fast digits ≡ crc16_bitwise_from 0xffff digits
crc16_modbus_fast-crc16_bitwise_from_example =
    crc16_modbus_fast-crc16_bitwise_from digits (ground arith)

burst_detected_example : ◌≡◌ {A = ℕ} 7 7 × ◌≡◌ {A = ℕ} 9 9
burst_detected_example =
    burst_detected (1 ∷ []) (2 ∷ []) 7 9 7 9 (ground arith) (ground arith) (ground arith) refl

abbrev pub header : Header
header = record {
  magic = proto_magic;
  payload_len = 5;
  version = 1;
  channel_id = 2;
  chan_flags = 0;
  ctrl_flags = 0x10;
  client_gen = 3;
  client_id = 0x1234;
  checksum = 0xabcd;
  wnd = 0;
  seq = 0xa5a5a5a5;
  ack = 7;
}

header_of-header_bytes_example :
    LaidOut header (header_bytes header ++ 1 ∷ 2 ∷ [])
    × (header_of (header_bytes header ++ 1 ∷ 2 ∷ []) ≡ header)
header_of-header_bytes_example = header_of-header_bytes header (1 ∷ 2 ∷ []) (record {
  magic_fits = omega arith;
  payload_len_fits = omega arith;
  version_fits = omega arith;
  channel_id_fits = omega arith;
  chan_flags_fits = omega arith;
  ctrl_flags_fits = omega arith;
  client_gen_fits = omega arith;
  client_id_fits = omega arith;
  checksum_fits = omega arith;
  wnd_fits = omega arith;
  seq_fits = omega arith;
  ack_fits = omega arith;
})
