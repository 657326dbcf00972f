-- ===== src/Crc/Detect.antt =====
-- What the checksum of src/libgilberta/glbio.c detects: a round can be undone, so a change of
-- the data inside two neighbouring bytes always changes the checksum.
use libgilberta.Base.{
  ℕ, zero, suc, ◌+◌, ◌*◌, ◌/◌, ◌%◌, ◌^◌, ◌≤◌, ◌<◌, ◌≡◌, refl, sym, ap, ap₂, ◌∙◌, true, ◌||◌, List,
  [], ◌∷◌, ◌++◌, All, arith, bit_xor, if◌then◌else◌, ◌==◌, leb,
}
use libgilberta.Base.Bits.{
  bit_xor-zero, bit_xor_comm, bit_xor_assoc, bit_xor-div, bit_xor-lt, bit_xor_cancel,
}
use libgilberta.Crc.{crc16_update, crc16_from, crc16_modbus_fast, shift_round, shift_rounds}
use libgilberta.Crc.Bitwise.{
  IsByte, all_below, holds_at, feedback, shift_round_lem, shift_rounds-bit_xor, crc16_update_lem,
}

-- Undoes a round: the polynomial's top digit tells whether a digit was shifted out.
unround : ℕ → ℕ
unround y = if leb (2 ^ 15) y then bit_xor 0xa001 y * 2 + 1 else y * 2

feedback-lt : (d : ℕ) → feedback d < 2 ^ 16
unfolding feedback
feedback-lt zero = omega arith
feedback-lt (suc d) = omega arith

pub shift_round-lt : (x : ℕ) → x < 2 ^ 16 → shift_round x < 2 ^ 16
shift_round-lt x h =
    rw (shift_round_lem x)
      (bit_xor-lt 16 (x / 2) (feedback (x % 2)) (omega arith) (feedback-lt (x % 2)))

bit_xor-div-32 : (a b : ℕ) → bit_xor a b / 32 ≡ bit_xor (a / 32) (b / 32)
bit_xor-div-32 a b =
    let e : a / 2 / 2 / 2 / 2 / 2 ≡ a / 32 = omega arith in
    let f : b / 2 / 2 / 2 / 2 / 2 ≡ b / 32 = omega arith in
    omega (
      arith,
      bit_xor-div a b,
      bit_xor-div (a / 2) (b / 2),
      bit_xor-div (a / 2 / 2) (b / 2 / 2),
      bit_xor-div (a / 2 / 2 / 2) (b / 2 / 2 / 2),
      bit_xor-div (a / 2 / 2 / 2 / 2) (b / 2 / 2 / 2 / 2),
      ap₂ bit_xor e f,
    )

-- The polynomial's top digit survives the exclusive or with anything shorter.
top_digit : (a : ℕ) → a < 2 ^ 15 → 2 ^ 15 ≤ bit_xor a 0xa001
top_digit a h =
    let e : a / 32 / 32 / 32 ≡ 0 = omega arith in
    omega (
      arith,
      bit_xor-div-32 a 0xa001,
      bit_xor-div-32 (a / 32) 1280,
      bit_xor-div-32 (a / 32 / 32) 40,
      ap (λ (t : ℕ). bit_xor t 1) e,
    )

unround-shift_round : (x : ℕ) → x < 2 ^ 16 → unround (shift_round x) ≡ x
unfolding unround feedback
unround-shift_round x h = rw (shift_round_lem x) (go (x % 2) refl)
  where
    go : (d : ℕ) → x % 2 ≡ d → unround (bit_xor (x / 2) (feedback d)) ≡ x
    go zero e = rw (bit_xor-zero (x / 2)) (ground arith)
    go (suc d) e = ground (
      arith,
      top_digit (x / 2) (omega arith),
      ap (bit_xor 0xa001) (bit_xor_comm (x / 2) 0xa001),
      bit_xor_cancel 0xa001 (x / 2),
    )

shift_rounds_injective :
    (n x y : ℕ) → x < 2 ^ 16 → y < 2 ^ 16 → shift_rounds n x ≡ shift_rounds n y → x ≡ y
unfolding shift_rounds
shift_rounds_injective zero x y p q e = e
shift_rounds_injective (suc n) x y p q e =
    sym (unround-shift_round x p)
    ∙ ap unround (
        shift_rounds_injective n (shift_round x) (shift_round y) (shift_round-lt x p)
          (shift_round-lt y q) e)
    ∙ unround-shift_round y q

shift_rounds-lt : (n x : ℕ) → x < 2 ^ 16 → shift_rounds n x < 2 ^ 16
unfolding shift_rounds
shift_rounds-lt zero x h = h
shift_rounds-lt (suc n) x h = shift_rounds-lt n (shift_round x) (shift_round-lt x h)

pub crc16_update-lt : (crc byte : ℕ) → crc < 2 ^ 16 → byte < 256 → crc16_update crc byte < 2 ^ 16
crc16_update-lt crc byte h k =
    rw (crc16_update_lem crc byte k)
      (shift_rounds-lt 8 (bit_xor crc byte) (bit_xor-lt 16 crc byte h (omega arith)))

crc16_from-lt :
    (crc : ℕ) (bytes : List ℕ) → crc < 2 ^ 16 → All IsByte bytes → crc16_from crc bytes < 2 ^ 16
unfolding crc16_from
crc16_from-lt crc [] h k = h
crc16_from-lt crc (b ∷ rest) h k =
    crc16_from-lt (crc16_update crc b) rest (crc16_update-lt crc b h k.0) k.1

-- The checksum fits its 16-bit field: `(uint16_t)` cuts nothing off.
pub crc16_modbus_fast-lt : (bytes : List ℕ) → All IsByte bytes → crc16_modbus_fast bytes < 2 ^ 16
unfolding crc16_modbus_fast
crc16_modbus_fast-lt bytes h = crc16_from-lt 0xffff bytes (omega arith) h

-- For the same byte, two intermediate checksums that differ go on differing.
crc16_update_injective :
    (c d byte : ℕ)
    → c < 2 ^ 16
    → d < 2 ^ 16
    → byte < 256
    → crc16_update c byte ≡ crc16_update d byte
    → c ≡ d
crc16_update_injective c d byte p q h e =
    sym (bit_xor_cancel byte c) ∙ ap (bit_xor byte) flipped ∙ bit_xor_cancel byte d
  where
    same : bit_xor c byte ≡ bit_xor d byte
    same =
        shift_rounds_injective 8 (bit_xor c byte) (bit_xor d byte)
          (bit_xor-lt 16 c byte p (omega arith)) (bit_xor-lt 16 d byte q (omega arith))
          (sym (crc16_update_lem c byte h) ∙ e ∙ crc16_update_lem d byte h)

    flipped : bit_xor byte c ≡ bit_xor byte d
    flipped = bit_xor_comm byte c ∙ same ∙ bit_xor_comm d byte

crc16_from_injective :
    (c d : ℕ) (bytes : List ℕ)
    → c < 2 ^ 16
    → d < 2 ^ 16
    → All IsByte bytes
    → crc16_from c bytes ≡ crc16_from d bytes
    → c ≡ d
unfolding crc16_from
crc16_from_injective c d [] p q h e = e
crc16_from_injective c d (b ∷ rest) p q h e = crc16_update_injective c d b p q h.0 (
    crc16_from_injective (crc16_update c b) (crc16_update d b) rest (crc16_update-lt c b p h.0)
      (crc16_update-lt d b q h.0) h.1 e)

-- Of all bytes only 0 leaves a checksum without a high half.
short_check : all_below 256 (λ i. (i == 0) || leb 256 (shift_rounds 8 i)) ≡ true
unfolding all_below shift_rounds shift_round
short_check = refl

eq_zero_of_short : (x : ℕ) → x < 256 → shift_rounds 8 x < 256 → x ≡ 0
eq_zero_of_short x h k =
    ground (arith, holds_at (λ i. (i == 0) || leb 256 (shift_rounds 8 i)) x 256 h short_check)

eq_of_bit_xor : (a b : ℕ) → bit_xor a b ≡ 0 → a ≡ b
eq_of_bit_xor a b e = sym (bit_xor-zero a) ∙ ap (bit_xor a) (sym e) ∙ bit_xor_cancel a b

-- What two checksums differ by, when one more byte each makes them equal.
difference : (u v b d : ℕ) → bit_xor u b ≡ bit_xor v d → bit_xor u v ≡ bit_xor b d
difference u v b d e =
    ap (bit_xor u) (sym (bit_xor_cancel d v) ∙ ap (bit_xor d) (bit_xor_comm d v ∙ sym e))
    ∙ ap (bit_xor u) (bit_xor_comm d (bit_xor u b) ∙ bit_xor_assoc u b d)
    ∙ bit_xor_cancel u (bit_xor b d)

module _ (c a b a' b' : ℕ) (c_fits : c < 2 ^ 16) (a_byte : a < 256) (b_byte : b < 256)
    (a'_byte : a' < 256) (b'_byte : b' < 256)
    (same : crc16_update (crc16_update c a) b ≡ crc16_update (crc16_update c a') b') where
  after_a : crc16_update c a < 2 ^ 16
  after_a = crc16_update-lt c a c_fits a_byte

  after_a' : crc16_update c a' < 2 ^ 16
  after_a' = crc16_update-lt c a' c_fits a'_byte

  inputs : bit_xor (crc16_update c a) b ≡ bit_xor (crc16_update c a') b'
  inputs =
      shift_rounds_injective 8 (bit_xor (crc16_update c a) b) (bit_xor (crc16_update c a') b')
        (bit_xor-lt 16 (crc16_update c a) b after_a (omega arith))
        (bit_xor-lt 16 (crc16_update c a') b' after_a' (omega arith))
        (sym (crc16_update_lem (crc16_update c a) b b_byte)
          ∙ same
          ∙ crc16_update_lem (crc16_update c a') b' b'_byte)

  cancel_middle : bit_xor (bit_xor c a) (bit_xor c a') ≡ bit_xor a a'
  cancel_middle =
      ap (λ t. bit_xor t (bit_xor c a')) (bit_xor_comm c a)
      ∙ bit_xor_assoc a c (bit_xor c a')
      ∙ ap (bit_xor a) (bit_xor_cancel c a')

  first_difference : shift_rounds 8 (bit_xor a a') ≡ bit_xor b b'
  first_difference =
      ap (shift_rounds 8) (sym cancel_middle)
      ∙ shift_rounds-bit_xor 8 (bit_xor c a) (bit_xor c a')
      ∙ ap₂ bit_xor (sym (crc16_update_lem c a a_byte)) (sym (crc16_update_lem c a' a'_byte))
      ∙ difference (crc16_update c a) (crc16_update c a') b b' inputs

  first_same : a ≡ a'
  first_same = eq_of_bit_xor a a' (
      eq_zero_of_short (bit_xor a a') (bit_xor-lt 8 a a' a_byte a'_byte)
        (omega (arith, first_difference, bit_xor-lt 8 b b' b_byte b'_byte)))

  second_same : b ≡ b'
  second_same =
      sym (bit_xor_cancel (crc16_update c a) b)
      ∙ ap (bit_xor (crc16_update c a)) inputs
      ∙ ap (λ t. bit_xor (crc16_update c a) (bit_xor (crc16_update c t) b')) (sym first_same)
      ∙ bit_xor_cancel (crc16_update c a) b'

burst_from :
    (c : ℕ) (before after : List ℕ) (a b a' b' : ℕ)
    → c < 2 ^ 16
    → All IsByte before
    → All IsByte after
    → All IsByte (a ∷ b ∷ a' ∷ b' ∷ [])
    → crc16_from c (before ++ a ∷ b ∷ after) ≡ crc16_from c (before ++ a' ∷ b' ∷ after)
    → (a ≡ a') × (b ≡ b')
unfolding crc16_from
burst_from c [] after a b a' b' h p q (ha, (hb, (ha', (hb', _)))) e =
    let same : crc16_update (crc16_update c a) b ≡ crc16_update (crc16_update c a') b' =
      crc16_from_injective (crc16_update (crc16_update c a) b) (crc16_update (crc16_update c a') b')
        after (crc16_update-lt (crc16_update c a) b (crc16_update-lt c a h ha) hb)
        (crc16_update-lt (crc16_update c a') b' (crc16_update-lt c a' h ha') hb') q e in
    (first_same c a b a' b' h ha hb ha' hb' same, second_same c a b a' b' h ha hb ha' hb' same)
burst_from c (x ∷ before) after a b a' b' h p q r e =
    burst_from (crc16_update c x) before after a b a' b' (crc16_update-lt c x h p.0) p.1 q r e

-- Two messages of bytes that differ at most in two neighbouring bytes and have the same checksum
-- are the same message.
pub burst_detected :
    (before after : List ℕ) (a b a' b' : ℕ)
    → All IsByte before
    → All IsByte after
    → All IsByte (a ∷ b ∷ a' ∷ b' ∷ [])
    → crc16_modbus_fast (before ++ a ∷ b ∷ after) ≡ crc16_modbus_fast (before ++ a' ∷ b' ∷ after)
    → (a ≡ a') × (b ≡ b')
unfolding crc16_modbus_fast
burst_detected before after a b a' b' p q r e =
    burst_from 0xffff before after a b a' b' (omega arith) p q r e
