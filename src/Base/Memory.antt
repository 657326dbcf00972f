-- ===== src/Base/Memory.antt =====
-- Blocks of memory: reading a range, and writing one in place (`memcpy`, `memset`).
use Prim.Native.Nat.{ℕ, zero, suc, ◌+◌, ◌≤◌}
use mathlib.Core.Path.{◌≡◌, refl, ap}
use mathlib.Core.List.{List, [], ◌∷◌}
use mathlib.Core.Option.{Option, none, some}
use native.Mathlib.Omega.{arith}
use libgilberta.Base.Lists.{length, take, drop}
use libgilberta.Base.Tests.{leb, if◌then◌else◌}

module _ {ℓ} {A : Type ℓ} where
  abbrev pub slice : ℕ → ℕ → List A → List A
  slice off n block = take n (drop off block)

  abbrev pub patch : List A → List A → List A
  patch [] block = block
  patch (b ∷ bs) [] = []
  patch (b ∷ bs) (x ∷ block) = b ∷ patch bs block

  abbrev pub overwrite : ℕ → List A → List A → List A
  overwrite zero bs block = patch bs block
  overwrite (suc off) bs [] = []
  overwrite (suc off) bs (x ∷ block) = x ∷ overwrite off bs block

  -- The accesses of C: `none` where the range leaves the block.
  unfoldable pub load : List A → ℕ → ℕ → Option (List A)
  load block off n = if leb (off + n) (length block) then some (slice off n block) else none

  unfoldable pub store : List A → ℕ → List A → Option (List A)
  store block off bs =
      if leb (off + length bs) (length block) then some (overwrite off bs block) else none

module _ {ℓ} {A : Type ℓ} where
  pub length-patch :
      (bs block : List A) → length bs ≤ length block → length (patch bs block) ≡ length block
  length-patch [] block h = refl
  length-patch (b ∷ bs) [] h = absurd (omega arith)
  length-patch (b ∷ bs) (x ∷ block) h = ap suc (length-patch bs block (omega arith))

  pub length-overwrite :
      (off : ℕ) (bs block : List A)
      → off + length bs ≤ length block
      → length (overwrite off bs block) ≡ length block
  length-overwrite zero bs block h = length-patch bs block (omega arith)
  length-overwrite (suc off) bs [] h = refl
  length-overwrite (suc off) bs (x ∷ block) h = ap suc (length-overwrite off bs block (omega arith))

  pub take-patch :
      (bs block : List A) → length bs ≤ length block → take (length bs) (patch bs block) ≡ bs
  take-patch [] block h = refl
  take-patch (b ∷ bs) [] h = absurd (omega arith)
  take-patch (b ∷ bs) (x ∷ block) h = ap (λ t. b ∷ t) (take-patch bs block (omega arith))

  drop-patch : (bs block : List A) (k : ℕ) → length bs ≤ k → drop k (patch bs block) ≡ drop k block
  drop-patch [] block k h = refl
  drop-patch (b ∷ bs) block zero h = absurd (omega arith)
  drop-patch (b ∷ bs) [] (suc k) h = refl
  drop-patch (b ∷ bs) (x ∷ block) (suc k) h = drop-patch bs block k (omega arith)

  -- What was written is read back.
  pub slice-overwrite :
      (off : ℕ) (bs block : List A)
      → off + length bs ≤ length block
      → slice off (length bs) (overwrite off bs block) ≡ bs
  slice-overwrite zero bs block h = take-patch bs block (omega arith)
  slice-overwrite (suc off) bs [] h = absurd (omega arith)
  slice-overwrite (suc off) bs (x ∷ block) h = slice-overwrite off bs block (omega arith)

  -- A range below or above the one written is as before.
  pub slice-overwrite_below :
      (at n off : ℕ) (bs block : List A)
      → at + n ≤ off
      → slice at n (overwrite off bs block) ≡ slice at n block
  slice-overwrite_below zero zero off bs block h = refl
  slice-overwrite_below zero (suc n) zero bs block h = absurd (omega arith)
  slice-overwrite_below zero (suc n) (suc off) bs [] h = refl
  slice-overwrite_below zero (suc n) (suc off) bs (x ∷ block) h =
      ap (λ t. x ∷ t) (slice-overwrite_below zero n off bs block (omega arith))
  slice-overwrite_below (suc at) n zero bs block h = absurd (omega arith)
  slice-overwrite_below (suc at) n (suc off) bs [] h = refl
  slice-overwrite_below (suc at) n (suc off) bs (x ∷ block) h =
      slice-overwrite_below at n off bs block (omega arith)

  pub slice-overwrite_above :
      (at n off : ℕ) (bs block : List A)
      → off + length bs ≤ at
      → slice at n (overwrite off bs block) ≡ slice at n block
  slice-overwrite_above at n zero bs block h = ap (take n) (drop-patch bs block at (omega arith))
  slice-overwrite_above zero n (suc off) bs block h = absurd (omega arith)
  slice-overwrite_above (suc at) n (suc off) bs [] h = refl
  slice-overwrite_above (suc at) n (suc off) bs (x ∷ block) h =
      slice-overwrite_above at n off bs block (omega arith)
