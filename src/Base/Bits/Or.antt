-- ===== src/Base/Bits/Or.antt =====
-- Inclusive or of two numbers that share no digit: it puts them side by side.
use Prim.Native.Nat.{ℕ, zero, suc, ◌+◌, ◌*◌, ◌/◌, ◌%◌, ◌^◌, ◌≤◌, ◌<◌, max, bit_or, bit_or-bitwise}
use mathlib.Core.Path.{◌≡◌, ap}
use native.Mathlib.Nat.{le_refl, pow-suc}
use native.Mathlib.Omega.{arith}
use libgilberta.Base.Bits.{digits_half, mul-two-pow-suc}

zero-bit_or : (b : ℕ) → bit_or 0 b ≡ b
zero-bit_or b = bit_or-bitwise 0 b

bit_or_step : (a b : ℕ) → bit_or a b ≡ bit_or (a / 2) (b / 2) * 2 + max (a % 2) (b % 2)
bit_or_step zero b = omega (zero-bit_or b, zero-bit_or (b / 2), arith)
bit_or_step (suc a) b =
    let halves = digits_half (λ c. c) max a b in
    omega (bit_or-bitwise (suc a) b, bit_or-bitwise (suc a / 2) (b / 2), halves, arith)

bit_or-zero_below : (bound a : ℕ) → a ≤ bound → bit_or a 0 ≡ a
bit_or-zero_below bound zero h = zero-bit_or 0
bit_or-zero_below (suc bound) (suc a) h =
    let half = bit_or-zero_below bound (suc a / 2) (omega arith) in
    omega (bit_or_step (suc a) 0, half, arith)
bit_or-zero_below zero (suc a) h = absurd (omega arith)

pub bit_or_fields : (k q r : ℕ) → r < 2 ^ k → bit_or (q * 2 ^ k) r ≡ q * 2 ^ k + r
bit_or_fields zero q r h =
    let none_left : r ≡ 0 = omega arith in
    rw none_left (omega (bit_or-zero_below (q * 2 ^ 0) (q * 2 ^ 0) (le_refl (q * 2 ^ 0)), arith))
bit_or_fields (suc k) q r h =
    let shifted = mul-two-pow-suc q k in
    let half : q * 2 ^ suc k / 2 ≡ q * 2 ^ k = omega (shifted, arith) in
    let high = ap (λ x. bit_or x (r / 2)) half in
    let rest = bit_or_fields k q (r / 2) (omega (pow-suc 2 k, arith)) in
    omega (bit_or_step (q * 2 ^ suc k) r, shifted, high, rest, arith)
