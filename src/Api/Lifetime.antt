-- ===== src/Api/Lifetime.antt =====
-- glb_create and glb_destroy of src/libgilberta/gilberta.c. A pointer that may be NULL is an option; a
-- call that faults has no outcome.
use libgilberta.Base.{ℕ, ◌≡◌, refl, Option, none, some}
use libgilberta.Status.{ErrorCode, success, invalid_argument}
use libgilberta.State.{Ctx}
use libgilberta.Os.{Os}
use libgilberta.Os.Books.{Books}
use libgilberta.Effect.{Run, ok, fault, out_of_fuel}
use libgilberta.Invariant.{Ensures}
use libgilberta.Context.Create.{Config, glbctx_create, glbctx_destroy}
use libgilberta.Context.Balance.{glbctx_create-failed}
use libgilberta.Context.Balance.Destroy.{glbctx_destroy-glbctx_create}

module _ (os : Os) where
  open os use {World}

  unfoldable pub glb_create : Option Config → World → Option Ctx × World
  glb_create config w = glbctx_create os config w

  -- The context of the state is gone with the call.
  world_after : Run World ErrorCode → Option (ErrorCode × World)
  world_after (ok status t) = some (status, t.world)
  world_after fault = none
  world_after out_of_fuel = none

  unfoldable pub glb_destroy : Option Ctx → World → Option (ErrorCode × World)
  unfolding world_after
  glb_destroy none w = some (invalid_argument, w)
  glb_destroy (some ctx) w = world_after (glbctx_destroy os (record { ctx = ctx; world = w }))

-- What glb_destroy answers to a pointer.
abbrev pub answer : Option Ctx → ErrorCode
answer none = invalid_argument
answer (some ctx) = success

-- The call returns `status`, and the same blocks are allocated as in `w`.
abbrev pub Frees :
    {os : Os} → Books os → Os.World os → ErrorCode → Option (ErrorCode × Os.World os) → Type 0
Frees books w status none = ⊥
Frees books w status (some (code, u)) =
    (code ≡ status) × ((a : ℕ) → books.held u a ≡ books.held w a)

-- Whatever pointer glb_create returns, NULL included, glb_destroy takes it without a fault: its status
-- is GLB_ERROR_INVALID_ARGUMENT for NULL and GLB_SUCCESS for a context, and afterwards every block that
-- the two calls allocated has been freed.
pub glb_destroy-glb_create :
    (os : Os) (books : Books os) (config : Option Config) (w : Os.World os)
    → let made = glb_create os config w in
      Frees books w (answer made.0) (glb_destroy os made.0 made.1)
unfolding glb_create glb_destroy world_after glbctx_create
glb_destroy-glb_create os books none w = (refl, λ a. refl)
glb_destroy-glb_create os books (some config) w = outcome _ _ refl
  where
    freed :
        (r : Run (Os.World os) ErrorCode)
        → Ensures r (λ status u.
          (status ≡ success)
          × ((a : ℕ)
              → (books.held u.world a ≡ books.held w a)
                × (books.open_ u.world a ≡ books.open_ w a)))
        → Frees books w success (world_after os r)
    freed (ok status t) h = (h.0, λ a. (h.1 a).0)
    freed fault h = absurd h
    freed out_of_fuel h = absurd h

    outcome :
        (made : Option Ctx) (t : Os.World os)
        → glbctx_create os (some config) w ≡ (made, t)
        → let result = glbctx_create os (some config) w in
          Frees books w (answer result.0) (glb_destroy os result.0 result.1)
    outcome none t e = rw e (refl, λ a. (glbctx_create-failed os books config w t e a).0)
    outcome (some ctx) t e = rw e (freed _ (glbctx_destroy-glbctx_create os books config w t ctx e))
