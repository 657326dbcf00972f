-- ===== src/Queue/Window.antt =====
-- The elements that a circular buffer holds: `n` slots from index `h` on, going round at `size`.
use native.Mathlib.Nat.{mod-add-mod, mod-eq_of_lt, mod-eq-sub-mod, mod-lt}
use libgilberta.Base.{
  ℕ, zero, suc, ◌+◌, ◌-◌, ◌%◌, ◌<◌, ◌≡◌, ◌≢◌, refl, sym, ap, ap₂, ◌∙◌, List, [], ◌∷◌, ◌++◌, Option,
  none, some, length, arith, dec_lt,
}

module _ {ℓ} {A : Type ℓ} where
  abbrev pub cons? : Option A → List A → List A
  cons? none xs = xs
  cons? (some x) xs = x ∷ xs

  abbrev pub window : (ℕ → Option A) → ℕ → ℕ → ℕ → List A
  window slot size h zero = []
  window slot size h (suc n) = cons? (slot (h % size)) (window slot size (suc h) n)

  cons?-append : (o : Option A) (xs ys : List A) → cons? o xs ++ ys ≡ cons? o (xs ++ ys)
  cons?-append none xs ys = refl
  cons?-append (some x) xs ys = refl

  -- Only the slots inside the window count.
  pub window_ext :
      (f g : ℕ → Option A) (size h n : ℕ)
      → ((i : ℕ) → i < n → f ((h + i) % size) ≡ g ((h + i) % size))
      → window f size h n ≡ window g size h n
  window_ext f g size h zero same = refl
  window_ext f g size h (suc n) same =
      ap₂ cons? (at_index (omega arith) (same 0 (omega arith)))
        (window_ext f g size (suc h) n λ i lt. at_index (omega arith) (same (suc i) (omega arith)))
    where
      at_index : {j k : ℕ} → j ≡ k → f (k % size) ≡ g (k % size) → f (j % size) ≡ g (j % size)
      at_index e same_there = rw e same_there

  -- One slot more at the end.
  pub window-suc :
      (f : ℕ → Option A) (size h n : ℕ)
      → window f size h (suc n) ≡ window f size h n ++ cons? (f ((h + n) % size)) []
  window-suc f size h zero = let e : h ≡ h + 0 = omega arith in ap (λ t. cons? (f (t % size)) []) e
  window-suc f size h (suc n) =
      let e : suc h + n ≡ h + suc n = omega arith in
      ap (cons? (f (h % size))) (
        window-suc f size (suc h) n
        ∙ ap (λ t. window f size (suc h) n ++ cons? (f (t % size)) []) e)
      ∙ sym (
          cons?-append (f (h % size)) (window f size (suc h) n) (cons? (f ((h + suc n) % size)) []))

  -- Where the window starts counts up to whole rounds.
  pub window_cong :
      (f : ℕ → Option A) (size h k n : ℕ)
      → h % size ≡ k % size
      → window f size h n ≡ window f size k n
  window_cong f size h k zero e = refl
  window_cong f size h k (suc n) e = ap₂ cons? (ap f e) (window_cong f size (suc h) (suc k) n next)
    where
      step : (m : ℕ) → suc m % size ≡ (m % size + 1) % size
      step m =
          let s : suc m ≡ m + 1 = omega arith in ap (λ t. t % size) s ∙ sym (mod-add-mod m size 1)

      next : suc h % size ≡ suc k % size
      next = step h ∙ ap (λ t. (t + 1) % size) e ∙ sym (step k)

  pub length-window :
      (f : ℕ → Option A) (size h n : ℕ)
      → 0 < size
      → ((i : ℕ) → i < size → (a : A) × (f i ≡ some a))
      → length (window f size h n) ≡ n
  length-window f size h zero pos full = refl
  length-window f size h (suc n) pos full =
      let (a, e) = full (h % size) (mod-lt h pos) in
      ap (λ o. length (cons? o (window f size (suc h) n))) e
      ∙ ap suc (length-window f size (suc h) n pos full)

pub mod-distinct : (h size i n : ℕ) → h < size → i < n → n < size → (h + i) % size ≢ (h + n) % size
mod-distinct h size i n a b c e = elim (dec_lt (h + n) size) [
  | yes p ↦ omega (arith, mod-eq_of_lt {n = h + i} {m = size} (omega arith), mod-eq_of_lt p, e)
  | no p ↦ elim (dec_lt (h + i) size) [
    | yes q ↦ omega (
      arith,
      mod-eq_of_lt q,
      mod-eq-sub-mod {n = h + n} {m = size} (omega arith),
      mod-eq_of_lt {n = h + n - size} {m = size} (omega arith),
      e,
    )
    | no q ↦ omega (
      arith,
      mod-eq-sub-mod {n = h + i} {m = size} (omega arith),
      mod-eq_of_lt {n = h + i - size} {m = size} (omega arith),
      mod-eq-sub-mod {n = h + n} {m = size} (omega arith),
      mod-eq_of_lt {n = h + n - size} {m = size} (omega arith),
      e,
    )
  ]
]
