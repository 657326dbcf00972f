-- ===== src/Crc/Bitwise.antt =====
-- The table of src/libgilberta/glbio.c against its generator, and `crc16_modbus_fast` against the
-- checksum computed bit by bit.
use libgilberta.Base.{
  ℕ, zero, suc, ◌*◌, ◌/◌, ◌%◌, ◌^◌, ◌<◌, ◌≡◌, refl, sym, ap, ap₂, ◌∙◌, Bool, true, ◌&&◌, List, [],
  ◌∷◌, All, arith, bit_xor, if◌then◌else◌, ◌==◌, ==_iff,
}
use libgilberta.Base.Bits.{
  digit_xor, bit_and-1, bit_and-255, bit_xor-zero, bit_xor_comm, bit_xor_assoc, bit_xor-div,
  bit_xor-mod, bit_xor_fields, mul-two-pow-suc,
}
use libgilberta.Crc.{
  crc16_table, table_at, crc16_update, crc16_from, crc16_modbus_fast, shift_round, shift_rounds,
  table_entry, crc16_bitwise_from,
}

abbrev pub IsByte : ℕ → Type 0
IsByte b = b < 256

-- Over a byte every value is checked by evaluation.
unfoldable pub all_below : ℕ → (ℕ → Bool) → Bool
all_below zero p = true
all_below (suc n) p = p n && all_below n p

-- A test that holds below a bound holds at each value there.
pub holds_at :
    (test : ℕ → Bool) (i bound : ℕ) → i < bound → all_below bound test ≡ true → test i ≡ true
unfolding all_below
holds_at test i (suc bound) lt e = ground (arith, holds_at test i bound)
holds_at test i zero lt e = absurd (omega arith)

table_check : all_below 256 (λ i. table_at crc16_table i == table_entry i) ≡ true
unfolding all_below table_entry shift_rounds shift_round
table_check = refl

-- Every entry of the table is what the generator computes for its index.
pub table_at-table_entry : (i : ℕ) → i < 256 → table_at crc16_table i ≡ table_entry i
table_at-table_entry i h =
    (==_iff (table_at crc16_table i) (table_entry i)).0
      (holds_at (λ j. table_at crc16_table j == table_entry j) i 256 h table_check)

-- What a round adds for the digit that it shifts out.
unfoldable pub feedback : ℕ → ℕ
feedback zero = 0
feedback (suc n) = 0xa001

pub shift_round_lem : (x : ℕ) → shift_round x ≡ bit_xor (x / 2) (feedback (x % 2))
unfolding shift_round feedback
shift_round_lem x = rw (bit_and-1 x) (go (x % 2) (omega arith))
  where
    go :
        (d : ℕ)
        → d < 2
        → (if d == 1 then bit_xor (x / 2) 0xa001 else x / 2) ≡ bit_xor (x / 2) (feedback d)
    go zero h = sym (bit_xor-zero (x / 2))
    go (suc zero) h = refl
    go (suc (suc d)) h = absurd (omega arith)

feedback_xor :
    (p q : ℕ) → p < 2 → q < 2 → feedback (digit_xor p q) ≡ bit_xor (feedback p) (feedback q)
unfolding feedback
feedback_xor zero zero h k = refl
feedback_xor zero (suc zero) h k = refl
feedback_xor (suc zero) zero h k = refl
feedback_xor (suc zero) (suc zero) h k = refl
feedback_xor zero (suc (suc q)) h k = absurd (omega arith)
feedback_xor (suc zero) (suc (suc q)) h k = absurd (omega arith)
feedback_xor (suc (suc p)) q h k = absurd (omega arith)

interchange :
    (a b c d : ℕ) → bit_xor (bit_xor a b) (bit_xor c d) ≡ bit_xor (bit_xor a c) (bit_xor b d)
interchange a b c d =
    bit_xor_assoc a b (bit_xor c d)
    ∙ ap (bit_xor a)
        (sym (bit_xor_assoc b c d) ∙ ap (λ t. bit_xor t d) (bit_xor_comm b c) ∙ bit_xor_assoc c b d)
    ∙ sym (bit_xor_assoc a c (bit_xor b d))

-- A round is linear.
shift_round-bit_xor :
    (a b : ℕ) → shift_round (bit_xor a b) ≡ bit_xor (shift_round a) (shift_round b)
shift_round-bit_xor a b =
    rw
      (
        shift_round_lem (bit_xor a b),
        shift_round_lem a,
        shift_round_lem b,
        bit_xor-div a b,
        bit_xor-mod a b,
        feedback_xor (a % 2) (b % 2) (omega arith) (omega arith),
      )
      (interchange (a / 2) (b / 2) (feedback (a % 2)) (feedback (b % 2)))

pub shift_rounds-bit_xor :
    (n a b : ℕ) → shift_rounds n (bit_xor a b) ≡ bit_xor (shift_rounds n a) (shift_rounds n b)
unfolding shift_rounds
shift_rounds-bit_xor zero a b = refl
shift_rounds-bit_xor (suc n) a b =
    rw (shift_round-bit_xor a b) (shift_rounds-bit_xor n (shift_round a) (shift_round b))

shift_round_even : (x : ℕ) → shift_round (2 * x) ≡ x
unfolding feedback
shift_round_even x =
    let e : 2 * x % 2 ≡ 0 = omega arith in
    let d : 2 * x / 2 ≡ x = omega arith in rw (shift_round_lem (2 * x), e, d, bit_xor-zero x)

-- Digits above the ones shifted out only move down.
shift_rounds_high : (n q : ℕ) → shift_rounds n (q * 2 ^ n) ≡ q
unfolding shift_rounds
shift_rounds_high zero q = omega arith
shift_rounds_high (suc n) q =
    rw (mul-two-pow-suc q n, shift_round_even (q * 2 ^ n)) (shift_rounds_high n q)

-- Eight rounds by one access to the table of the low byte.
shift_rounds_byte : (x : ℕ) → shift_rounds 8 x ≡ bit_xor (x / 256) (shift_rounds 8 (x % 256))
shift_rounds_byte x =
    ap (shift_rounds 8) fields
    ∙ shift_rounds-bit_xor 8 (x / 256 * 256) (x % 256)
    ∙ ap (λ t. bit_xor t (shift_rounds 8 (x % 256))) (shift_rounds_high 8 (x / 256))
  where
    fields : x ≡ bit_xor (x / 256 * 256) (x % 256)
    fields = omega (arith, bit_xor_fields 8 (x / 256) (x % 256) (omega arith))

bit_xor-div-16 : (a b : ℕ) → bit_xor a b / 16 ≡ bit_xor (a / 16) (b / 16)
bit_xor-div-16 a b =
    let e : a / 2 / 2 / 2 / 2 ≡ a / 16 = omega arith in
    let f : b / 2 / 2 / 2 / 2 ≡ b / 16 = omega arith in
    omega (
      arith,
      bit_xor-div a b,
      bit_xor-div (a / 2) (b / 2),
      bit_xor-div (a / 2 / 2) (b / 2 / 2),
      bit_xor-div (a / 2 / 2 / 2) (b / 2 / 2 / 2),
      ap₂ bit_xor e f,
    )

-- A byte cannot reach the high half.
bit_xor-div-byte : (a b : ℕ) → b < 256 → bit_xor a b / 256 ≡ a / 256
bit_xor-div-byte a b h =
    let e : a / 16 / 16 ≡ a / 256 = omega arith in
    let f : b / 16 / 16 ≡ 0 = omega arith in
    omega (
      arith,
      bit_xor-div-16 a b,
      bit_xor-div-16 (a / 16) (b / 16),
      ap₂ bit_xor e f,
      bit_xor-zero (a / 256),
    )

-- One step of the loop is eight rounds on the checksum with the byte put in.
pub crc16_update_lem :
    (crc byte : ℕ) → byte < 256 → crc16_update crc byte ≡ shift_rounds 8 (bit_xor crc byte)
unfolding crc16_update table_entry
crc16_update_lem crc byte h = rw (
  bit_and-255 (bit_xor crc byte),
  table_at-table_entry (bit_xor crc byte % 256) (omega arith),
  shift_rounds_byte (bit_xor crc byte),
  bit_xor-div-byte crc byte h,
)

-- From any intermediate value, the table-driven loop and the bitwise one agree on bytes.
pub crc16_from-crc16_bitwise_from :
    (crc : ℕ) (bytes : List ℕ)
    → All IsByte bytes
    → crc16_from crc bytes ≡ crc16_bitwise_from crc bytes
unfolding crc16_from crc16_bitwise_from
crc16_from-crc16_bitwise_from crc [] h = refl
crc16_from-crc16_bitwise_from crc (byte ∷ rest) h =
    rw (crc16_update_lem crc byte h.0)
      (crc16_from-crc16_bitwise_from (shift_rounds 8 (bit_xor crc byte)) rest h.1)

-- On every sequence of bytes, `crc16_modbus_fast` is the checksum computed bit by bit from 0xffff.
pub crc16_modbus_fast-crc16_bitwise_from :
    (bytes : List ℕ) → All IsByte bytes → crc16_modbus_fast bytes ≡ crc16_bitwise_from 0xffff bytes
unfolding crc16_modbus_fast
crc16_modbus_fast-crc16_bitwise_from bytes h = crc16_from-crc16_bitwise_from 0xffff bytes h
