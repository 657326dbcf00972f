-- ===== src/Programs/Events.antt =====
-- The inner loop of the test programs of src/test: the events that wait are handled one by one.
use libgilberta.Base.{ℕ, zero, suc, none, some, if◌then◌else◌}
use libgilberta.State.{Event}
use libgilberta.Effect.{M, out_of_fuel, pure, failing, ◌>>=◌}
use libgilberta.Tick.Common.{is_success}
use libgilberta.Api.{glb_pollevent}

module _ {W A : Type 0} (handle : A → Event → M W A) where
  -- `while (glb_pollevent(ctx, &event) == GLB_SUCCESS)`, on fuel for the rounds. An event that
  -- glb_pollevent reports without storing one would be read uninitialised.
  unfoldable pub drain : ℕ → A → M W A
  drain zero a s = out_of_fuel
  drain (suc fuel) a s =
      (do
        (status, event) ← glb_pollevent
        if is_success status
            then elim event [ none ↦ failing | some e ↦ handle a e >>= λ a'. drain fuel a' ]
            else pure a)
        s
