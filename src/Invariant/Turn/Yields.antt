-- ===== src/Invariant/Turn/Yields.antt =====
-- Turns with what is known of their results, such as an allocation of src/libgilberta that succeeds.
use libgilberta.Base.{ℕ, ◌≡◌, sym, subst, Option, some, none, arith}
use libgilberta.Effect.{M, St, pure, ask, ◌>>=◌}
use libgilberta.Invariant.{Ensures}
use libgilberta.Invariant.Rules.{Ensures-and_then, Ensures-weaken}
use libgilberta.Invariant.Stage.{Stage}
use libgilberta.Invariant.Turn.{Setting, Good, Turn}

-- There is a value, and it has the property.
abbrev pub Given : {A : Type 0} → (A → Type 0) → Option A → Type 0
Given P none = ⊥
Given P (some a) = P a

pub given : {A : Type 0} (P : A → Type 0) (o : Option A) (a : A) → o ≡ some a → P a → Given P o
given P o a e p = subst (Given P) (sym e) p

-- A turn that stays at its stage, with what is known of its result.
pub record Yields (e : Setting) {A : Type 0} (st : Stage) (m : M (e.os.World) A) (R : A → Type 0)
    : Type 0 where
  pub ensures : (s : St (e.os.World)) → Good e st s → Ensures (m s) (λ a t. Good e st t × R a)

module _ {e : Setting} {st : Stage} where
  open e use {os, n, k, benign}

  pub Turn-Yields :
      {A B : Type 0} {st' : Stage} {R : A → Type 0} (m : M (os.World) A) (f : A → M (os.World) B)
      → Yields e st m R
      → ((a : A) → R a → Turn e st st' (f a))
      → Turn e st st' (m >>= f)
  unfolding ◌>>=◌
  Turn-Yields {st' = st'} m f p q = record {
    ensures = λ s h.
        Ensures-and_then (λ _ t. Good e st' t) (m s) f (p.ensures s h)
          (λ a t g. (q a g.1).ensures t g.0);
  }

  pub Yields->>= :
      {A B : Type 0} {R : A → Type 0} {R' : B → Type 0} (m : M (os.World) A)
      (f : A → M (os.World) B)
      → Yields e st m R
      → ((a : A) → R a → Yields e st (f a) R')
      → Yields e st (m >>= f) R'
  unfolding ◌>>=◌
  Yields->>= {R' = R'} m f p q = record {
    ensures = λ s h.
        Ensures-and_then (λ a t. Good e st t × R' a) (m s) f (p.ensures s h)
          (λ a t g. (q a g.1).ensures t g.0);
  }

  pub Yields-imp :
      {A : Type 0} {R R' : A → Type 0} (m : M (os.World) A)
      → Yields e st m R
      → ((a : A) → R a → R' a)
      → Yields e st m R'
  Yields-imp {R' = R'} m p f = record {
    ensures = λ s h. Ensures-weaken (m s) (p.ensures s h) (λ a t g. (g.0, f a g.1));
  }

  pub Yields-pure : {A : Type 0} {R : A → Type 0} (a : A) → R a → Yields e st (pure a) R
  unfolding pure
  Yields-pure a r = record { ensures = λ s h. (h, r) }

  pub Yields-malloc : (size : ℕ) → Yields e st (ask (λ w. os.malloc w size)) (Given (λ _. Unit {0}))
  unfolding ask
  Yields-malloc size = record {
    ensures = λ s h.
        let (b, has) = benign.has_memory s.world size in
        (
          record { at = h.at; left = omega (arith, benign.on_malloc s.world size, h.left) },
          given (λ _. Unit {0}) (os.malloc s.world size).0 b has tt,
        );
  }
