-- ===== src/Base/Bits.antt =====
-- Exclusive or at every width: its lowest digit, and from that its laws.
pub mod Or
use Prim.Native.Nat.{
  ℕ, zero, suc, ◌+◌, ◌-◌, ◌*◌, ◌/◌, ◌%◌, ◌^◌, ◌≤◌, ◌<◌, min, bit_and, bit_xor, digits, differ,
  bit_and-bitwise, bit_xor-bitwise,
}
use mathlib.Core.Path.{◌≡◌, refl, sym, ap, ◌∙◌}
use native.Mathlib.Nat.{le_refl, pow-suc}
use native.Mathlib.Omega.{arith}

-- The recursion of a bitwise operation: `g` is its value once the first argument is used up.
module _ (g : ℕ → ℕ) (op : ℕ → ℕ → ℕ) where
  digits_zero : (fuel b : ℕ) → digits g op fuel 0 b ≡ g b
  digits_zero zero b = refl
  digits_zero (suc fuel) b = refl

  -- Fuel beyond the first argument changes nothing.
  digits_more : (k a b fuel : ℕ) → a ≤ fuel → digits g op (fuel + k) a b ≡ digits g op fuel a b
  digits_more k zero b fuel h = digits_zero (fuel + k) b ∙ sym (digits_zero fuel b)
  digits_more k (suc a) b (suc fuel) h =
      let half = digits_more k (suc a / 2) (b / 2) fuel (omega arith) in
      let e : suc fuel + k ≡ suc (fuel + k) = omega arith in
      ap (λ n. digits g op n (suc a) b) e ∙ ap (λ t. t * 2 + op (suc a % 2) (b % 2)) half
  digits_more k (suc a) b zero h = absurd (omega arith)

  -- The value at a positive argument, from the value at its half.
  digits_half :
      (a b : ℕ)
      → digits g op (suc a) (suc a) b
        ≡ digits g op (suc a / 2) (suc a / 2) (b / 2) * 2 + op (suc a % 2) (b % 2)
  digits_half a b =
      let spare : suc a / 2 + (a - suc a / 2) ≡ a = omega arith in
      let half =
        digits_more (a - suc a / 2) (suc a / 2) (b / 2) (suc a / 2) (le_refl (suc a / 2)) in
      omega (arith, ap (λ n. digits g op n (suc a / 2) (b / 2)) spare, half)

pub zero-bit_xor : (b : ℕ) → bit_xor 0 b ≡ b
zero-bit_xor b = bit_xor-bitwise 0 b

-- The exclusive or of two digits.
abbrev pub digit_xor : ℕ → ℕ → ℕ
digit_xor a b = (a + b) % 2

differ_bits : (a b : ℕ) → a < 2 → b < 2 → differ a b ≡ digit_xor a b
differ_bits zero b p q = omega arith
differ_bits (suc zero) zero p q = refl
differ_bits (suc zero) (suc zero) p q = refl
differ_bits (suc zero) (suc (suc b)) p q = absurd (omega arith)
differ_bits (suc (suc a)) b p q = absurd (omega arith)

pub bit_xor_step : (a b : ℕ) → bit_xor a b ≡ bit_xor (a / 2) (b / 2) * 2 + digit_xor (a % 2) (b % 2)
bit_xor_step zero b = omega (arith, zero-bit_xor b, zero-bit_xor (b / 2))
bit_xor_step (suc a) b =
    let low = differ_bits (suc a % 2) (b % 2) (omega arith) (omega arith) in
    let halves = digits_half (λ c. c) differ a b in
    omega (arith, low, halves, bit_xor-bitwise (suc a) b, bit_xor-bitwise (suc a / 2) (b / 2))

-- Laws by induction on the number of digits, here a bound on the first argument.
bit_xor-zero_below : (n a : ℕ) → a ≤ n → bit_xor a 0 ≡ a
bit_xor-zero_below n zero h = zero-bit_xor 0
bit_xor-zero_below (suc n) (suc a) h =
    let half = bit_xor-zero_below n (suc a / 2) (omega arith) in
    omega (bit_xor_step (suc a) 0, half, arith)
bit_xor-zero_below zero (suc a) h = absurd (omega arith)

pub bit_xor-zero : (a : ℕ) → bit_xor a 0 ≡ a
bit_xor-zero a = bit_xor-zero_below a a (le_refl a)

bit_xor_comm_below : (n a b : ℕ) → a ≤ n → bit_xor a b ≡ bit_xor b a
bit_xor_comm_below n zero b h = omega (arith, zero-bit_xor b, bit_xor-zero b)
bit_xor_comm_below zero (suc a) b h = absurd (omega arith)
bit_xor_comm_below (suc n) (suc a) b h = omega (
  arith,
  bit_xor_step (suc a) b,
  bit_xor_step b (suc a),
  bit_xor_comm_below n (suc a / 2) (b / 2) (omega arith),
)

pub bit_xor_comm : (a b : ℕ) → bit_xor a b ≡ bit_xor b a
bit_xor_comm a b = bit_xor_comm_below a a b (le_refl a)

pub bit_xor-div : (a b : ℕ) → bit_xor a b / 2 ≡ bit_xor (a / 2) (b / 2)
bit_xor-div a b = omega (arith, bit_xor_step a b)

pub bit_xor-mod : (a b : ℕ) → bit_xor a b % 2 ≡ digit_xor (a % 2) (b % 2)
bit_xor-mod a b = omega (arith, bit_xor_step a b)

bit_xor_assoc_below : (n a b c : ℕ) → a ≤ n → bit_xor (bit_xor a b) c ≡ bit_xor a (bit_xor b c)
bit_xor_assoc_below n zero b c h =
    omega (arith, ap (λ (t : ℕ). bit_xor t c) (zero-bit_xor b), zero-bit_xor (bit_xor b c))
bit_xor_assoc_below zero (suc a) b c h = absurd (omega arith)
bit_xor_assoc_below (suc n) (suc a) b c h =
    let half : bit_xor (bit_xor (suc a) b / 2) (c / 2) ≡ bit_xor (suc a / 2) (bit_xor b c / 2) =
      rw (bit_xor-div (suc a) b, bit_xor-div b c)
        (bit_xor_assoc_below n (suc a / 2) (b / 2) (c / 2) (omega arith)) in
    omega (
      arith,
      bit_xor_step (bit_xor (suc a) b) c,
      bit_xor_step (suc a) (bit_xor b c),
      bit_xor-mod (suc a) b,
      bit_xor-mod b c,
      half,
    )

pub bit_xor_assoc : (a b c : ℕ) → bit_xor (bit_xor a b) c ≡ bit_xor a (bit_xor b c)
bit_xor_assoc a b c = bit_xor_assoc_below a a b c (le_refl a)

bit_xor_self_below : (n a : ℕ) → a ≤ n → bit_xor a a ≡ 0
bit_xor_self_below n zero h = zero-bit_xor 0
bit_xor_self_below (suc n) (suc a) h =
    let half = bit_xor_self_below n (suc a / 2) (omega arith) in
    omega (bit_xor_step (suc a) (suc a), half, arith)
bit_xor_self_below zero (suc a) h = absurd (omega arith)

pub bit_xor_self : (a : ℕ) → bit_xor a a ≡ 0
bit_xor_self a = bit_xor_self_below a a (le_refl a)

-- What is exclusive-ored in can be taken out again.
pub bit_xor_cancel : (a b : ℕ) → bit_xor a (bit_xor a b) ≡ b
bit_xor_cancel a b =
    sym (bit_xor_assoc a a b) ∙ ap (λ t. bit_xor t b) (bit_xor_self a) ∙ zero-bit_xor b

pub bit_xor-lt : (k a b : ℕ) → a < 2 ^ k → b < 2 ^ k → bit_xor a b < 2 ^ k
bit_xor-lt zero a b p q = let e : a ≡ 0 = omega arith in rw e (rw (zero-bit_xor b) q)
bit_xor-lt (suc k) a b p q = omega (
  arith,
  bit_xor_step a b,
  pow-suc 2 k,
  bit_xor-lt k (a / 2) (b / 2) (omega (arith, pow-suc 2 k)) (omega (arith, pow-suc 2 k)),
)

pub mul-two-pow-suc : (c n : ℕ) → c * 2 ^ suc n ≡ 2 * (c * 2 ^ n)
mul-two-pow-suc c n = let e = ap (λ (power : ℕ). c * power) (pow-suc 2 n) in omega (e, arith)

-- Over separate digits it is the sum.
pub bit_xor_fields : (k q r : ℕ) → r < 2 ^ k → bit_xor (q * 2 ^ k) r ≡ q * 2 ^ k + r
bit_xor_fields zero q r h = let e : r ≡ 0 = omega arith in rw (e, bit_xor-zero) (omega arith)
bit_xor_fields (suc k) q r h = omega (
  arith,
  bit_xor_step (q * 2 ^ suc k) r,
  mul-two-pow-suc q k,
  ap (λ (t : ℕ). bit_xor t (r / 2)) half,
  bit_xor_fields k q (r / 2) (omega (arith, pow-suc 2 k)),
)
  where
    half : q * 2 ^ suc k / 2 ≡ q * 2 ^ k
    half = omega (arith, mul-two-pow-suc q k)

-- A mask of eight ones is the remainder by 256.
bit_and_step : (a b : ℕ) → bit_and a b ≡ bit_and (a / 2) (b / 2) * 2 + min (a % 2) (b % 2)
bit_and_step zero b = rw (bit_and-bitwise 0 b, bit_and-bitwise 0 (b / 2)) (omega arith)
bit_and_step (suc a) b =
    let halves = digits_half (λ c. zero) min a b in
    omega (arith, halves, bit_and-bitwise (suc a / 2) (b / 2), bit_and-bitwise (suc a) b)

-- Without ones nothing is left; `bound` is on the argument.
bit_and_none : (bound a : ℕ) → a ≤ bound → bit_and a 0 ≡ 0
bit_and_none bound zero h = bit_and-bitwise 0 0
bit_and_none (suc bound) (suc a) h =
    let half = bit_and_none bound (suc a / 2) (omega arith) in
    omega (bit_and_step (suc a) 0, half, arith)
bit_and_none zero (suc a) h = absurd (omega arith)

pub bit_and-1 : (a : ℕ) → bit_and a 1 ≡ a % 2
bit_and-1 a =
    let none_left = bit_and_none (a / 2) (a / 2) (le_refl (a / 2)) in
    omega (bit_and_step a 1, none_left, arith)

-- Four ones are taken off at a time.
mask_four : (a m : ℕ) → bit_and a (16 * m + 15) ≡ 16 * bit_and (a / 16) m + a % 16
mask_four a m =
    let one = bit_and_step a (16 * m + 15) in
    let two = bit_and_step (a / 2) (8 * m + 7) in
    let three = bit_and_step (a / 2 / 2) (4 * m + 3) in
    let four = bit_and_step (a / 2 / 2 / 2) (2 * m + 1) in
    let e : a / 2 / 2 / 2 / 2 ≡ a / 16 = omega arith in
    let m₁ : (16 * m + 15) / 2 ≡ 8 * m + 7 = omega arith in
    let m₂ : (8 * m + 7) / 2 ≡ 4 * m + 3 = omega arith in
    let m₃ : (4 * m + 3) / 2 ≡ 2 * m + 1 = omega arith in
    let m₄ : (2 * m + 1) / 2 ≡ m = omega arith in
    rw (one, m₁, two, m₂, three, m₃, four, m₄, e) (omega arith)

pub bit_and-255 : (a : ℕ) → bit_and a 255 ≡ a % 256
bit_and-255 a =
    let all_left = bit_and_none (a / 16 / 16) (a / 16 / 16) (le_refl (a / 16 / 16)) in
    omega (mask_four a 15, mask_four (a / 16) 0, all_left, arith)
