-- ===== src/Base/Segments.antt =====
-- Beginnings and ends of lists: what `take`, `drop` and `get_elem?` make of an element added at
-- the end, and of the element at the cut.
use Prim.Native.Nat.{◌+◌, ℕ, zero, suc, ◌≤◌}
use mathlib.Core.Path.{◌≡◌, refl, ap, ◌∙◌}
use mathlib.Core.Logic.{◌⊎◌, inl, inr}
use mathlib.Core.List.{List, [], ◌∷◌, ◌++◌, map}
use mathlib.Core.Option.{some}
use native.Mathlib.Omega.{arith}
use libgilberta.Base.Lists.{length, take, drop, get_elem?, All}
use libgilberta.Base.Memory.{patch}

module _ {ℓ} {A : Type ℓ} where
  pub get_elem?-append_left :
      (xs ys : List A) (i : ℕ) {a : A} → get_elem? xs i ≡ some a → get_elem? (xs ++ ys) i ≡ some a
  get_elem?-append_left [] ys i e = ground arith
  get_elem?-append_left (x ∷ xs) ys zero e = e
  get_elem?-append_left (x ∷ xs) ys (suc i) e = get_elem?-append_left xs ys i e

  pub get_elem?-append_last :
      (xs : List A) (x : A) (i : ℕ) {a : A}
      → get_elem? (xs ++ x ∷ []) i ≡ some a
      → (get_elem? xs i ≡ some a) ⊎ ((i ≡ length xs) × (a ≡ x))
  get_elem?-append_last [] x zero e = ground arith
  get_elem?-append_last [] x (suc i) e = ground arith
  get_elem?-append_last (y ∷ xs) x zero e = inl e
  get_elem?-append_last (y ∷ xs) x (suc i) e = elim (get_elem?-append_last xs x i e) [
    | inl left ↦ inl left
    | inr (at, same) ↦ inr (ap suc at, same)
  ]

  pub drop-append_short :
      (xs ys : List A) (n : ℕ) → n ≤ length xs → drop n (xs ++ ys) ≡ drop n xs ++ ys
  drop-append_short xs ys zero h = refl
  drop-append_short [] ys (suc n) h = absurd (omega arith)
  drop-append_short (x ∷ xs) ys (suc n) h = drop-append_short xs ys n (omega arith)

  pub take-append_short : (xs ys : List A) (n : ℕ) → n ≤ length xs → take n (xs ++ ys) ≡ take n xs
  take-append_short xs ys zero h = refl
  take-append_short [] ys (suc n) h = absurd (omega arith)
  take-append_short (x ∷ xs) ys (suc n) h =
      ap (λ t. x ∷ t) (take-append_short xs ys n (omega arith))

  pub take-suc :
      (xs : List A) (n : ℕ) {a : A}
      → get_elem? xs n ≡ some a
      → take (suc n) xs ≡ take n xs ++ a ∷ []
  take-suc [] n e = ground arith
  take-suc (x ∷ xs) zero e = ground arith
  take-suc (x ∷ xs) (suc n) e = ap (λ t. x ∷ t) (take-suc xs n e)

  -- The list from index `n` on starts with element `n`.
  pub drop-cons :
      (xs : List A) (n : ℕ) {a : A} {rest : List A}
      → drop n xs ≡ a ∷ rest
      → (get_elem? xs n ≡ some a) × (drop (suc n) xs ≡ rest)
  drop-cons [] zero e = ground arith
  drop-cons [] (suc n) e = ground arith
  drop-cons (x ∷ xs) zero e = ground arith
  drop-cons (x ∷ xs) (suc n) e = drop-cons xs n e

module _ {ℓ κ} {A : Type ℓ} {B : Type κ} where
  pub map-append : (f : A → B) (xs ys : List A) → map f (xs ++ ys) ≡ map f xs ++ map f ys
  map-append f [] ys = refl
  map-append f (x ∷ xs) ys = ap (λ t. f x ∷ t) (map-append f xs ys)

  pub length-map : (f : A → B) (xs : List A) → length (map f xs) ≡ length xs
  length-map f [] = refl
  length-map f (x ∷ xs) = ap suc (length-map f xs)

  pub map-take : (f : A → B) (n : ℕ) (xs : List A) → map f (take n xs) ≡ take n (map f xs)
  map-take f zero xs = refl
  map-take f (suc n) [] = refl
  map-take f (suc n) (x ∷ xs) = ap (λ t. f x ∷ t) (map-take f n xs)

  pub map-drop : (f : A → B) (n : ℕ) (xs : List A) → map f (drop n xs) ≡ drop n (map f xs)
  map-drop f zero xs = refl
  map-drop f (suc n) [] = refl
  map-drop f (suc n) (x ∷ xs) = map-drop f n xs

module _ {ℓ κ μ} {A : Type ℓ} {B : Type κ} {C : Type μ} where
  pub map-map : (g : B → C) (f : A → B) (xs : List A) → map g (map f xs) ≡ map (λ x. g (f x)) xs
  map-map g f [] = refl
  map-map g f (x ∷ xs) = ap (λ t. g (f x) ∷ t) (map-map g f xs)

module _ {ℓ κ μ} {A : Type ℓ} (P : A → Type κ) (Q : A → Type μ) where
  pub All-imp : (xs : List A) → ((a : A) → P a → Q a) → All P xs → All Q xs
  All-imp [] f h = tt
  All-imp (x ∷ xs) f h = (f x h.0, All-imp xs f h.1)

module _ {ℓ} {A : Type ℓ} where
  pub take-append_more :
      (xs ys : List A) (n : ℕ) → take (length xs + n) (xs ++ ys) ≡ xs ++ take n ys
  take-append_more [] ys n = let e : 0 + n ≡ n = omega arith in ap (λ k. take k ys) e
  take-append_more (x ∷ xs) ys n =
      let e : suc (length xs) + n ≡ suc (length xs + n) = omega arith in
      ap (λ k. take k (x ∷ (xs ++ ys))) e ∙ ap (λ t. x ∷ t) (take-append_more xs ys n)

  pub take-take : (xs : List A) (m n : ℕ) → m ≤ n → take m (take n xs) ≡ take m xs
  take-take xs zero n h = refl
  take-take xs (suc m) zero h = absurd (omega arith)
  take-take [] (suc m) (suc n) h = refl
  take-take (x ∷ xs) (suc m) (suc n) h = ap (λ t. x ∷ t) (take-take xs m n (omega arith))

  -- A write over the beginning of a block.
  pub patch-split :
      (bytes block : List A)
      → length bytes ≤ length block
      → patch bytes block ≡ bytes ++ drop (length bytes) block
  patch-split [] block h = refl
  patch-split (b ∷ bytes) [] h = absurd (omega arith)
  patch-split (b ∷ bytes) (x ∷ block) h = ap (λ t. b ∷ t) (patch-split bytes block (omega arith))

  pub append_assoc : (xs ys zs : List A) → xs ++ (ys ++ zs) ≡ (xs ++ ys) ++ zs
  append_assoc [] ys zs = refl
  append_assoc (x ∷ xs) ys zs = ap (λ t. x ∷ t) (append_assoc xs ys zs)
