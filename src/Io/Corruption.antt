-- ===== src/Io/Corruption.antt =====
-- glbio_read of src/libgilberta/glbio.c and payloads that were damaged on the way.
use libgilberta.Base.{
  ℕ, ◌≡◌, sym, ap, ◌∙◌, List, [], ◌∷◌, ◌++◌, true, false, take, All, ==_iff, arith, Bool-cases, inl,
  inr,
}
use libgilberta.Crc.{crc16_modbus_fast}
use libgilberta.Crc.Bitwise.{IsByte}
use libgilberta.Crc.Detect.{burst_detected}
use libgilberta.Packet.{Pkg}
use libgilberta.Io.{body_ok}

-- The checksum in an accepted packet's header is that of its payload.
pub checksum_of_body :
    (pkg : Pkg) (len : ℕ)
    → body_ok pkg len ≡ true
    → pkg.header.checksum ≡ crc16_modbus_fast (take pkg.header.payload_len pkg.payload)
unfolding body_ok
checksum_of_body pkg len e = ground (
  arith,
  (==_iff pkg.header.checksum (crc16_modbus_fast (take pkg.header.payload_len pkg.payload))).0,
)

-- If a packet passes the checks of glbio_read on its body, a packet with the same header whose
-- payload of bytes differs in one or both of two neighbouring bytes does not pass them, however many
-- bytes arrived of each.
pub damage_refused :
    (pkg : Pkg) (damaged before after : List ℕ) (a b a' b' len len' : ℕ)
    → body_ok pkg len ≡ true
    → take pkg.header.payload_len pkg.payload ≡ before ++ a ∷ b ∷ after
    → take pkg.header.payload_len damaged ≡ before ++ a' ∷ b' ∷ after
    → All IsByte before
    → All IsByte after
    → All IsByte (a ∷ b ∷ a' ∷ b' ∷ [])
    → ¬ ((a ≡ a') × (b ≡ b'))
    → body_ok (record pkg { payload = damaged }) len' ≡ false
damage_refused pkg damaged before after a b a' b' len len' e was is p q r differs =
    elim (Bool-cases (body_ok (record pkg { payload = damaged }) len')) [
      | inr refused ↦ refused
      | inl passed ↦ absurd (
          differs (
            burst_detected before after a b a' b' p q r (
              sym (ap crc16_modbus_fast was)
              ∙ sym (checksum_of_body pkg len e)
              ∙ checksum_of_body (record pkg { payload = damaged }) len' passed
              ∙ ap crc16_modbus_fast is)))
    ]
