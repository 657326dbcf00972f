-- ===== src/Context/ClientId.antt =====
-- The identifiers that `glbctx_generateclientid` of src/libgilberta/context.c gives out.
use libgilberta.Base.{ℕ, zero, suc, ◌+◌, ◌%◌, ◌≡◌, ◌↔◌, ap, arith, ◌==◌, if◌then◌else◌}
use libgilberta.Packet.{ConId}
use libgilberta.State.{Ctx}
use libgilberta.Context.{glbctx_generateclientid}

-- The context after `n` calls, and the identifier of the call after these.
pub after_calls : ℕ → Ctx → Ctx
after_calls zero ctx = ctx
after_calls (suc n) ctx = (glbctx_generateclientid (after_calls n ctx)).0

pub nth_id : ℕ → Ctx → ConId
unfolding after_calls
nth_id n ctx = (glbctx_generateclientid (after_calls n ctx)).1

module _ (ctx : Ctx) (first_id : ctx.client_id ≡ 1) (first_gen : ctx.client_gen ≡ 0) where
  after_calls_lem :
      (n : ℕ)
      → ((after_calls n ctx).client_id ≡ (n + 1) % 65535) × ((after_calls n ctx).client_gen ≡ 0)
  unfolding after_calls glbctx_generateclientid
  after_calls_lem zero = (first_id, first_gen)
  after_calls_lem (suc n) = ground (arith, after_calls_lem n)

  -- From a new context, the call after `n` others gives out the number `(n + 1) % 65535`, with
  -- generation 1 if that number is 65534 and 0 otherwise.
  nth_id_lem :
      (n : ℕ)
      → ((nth_id n ctx).id ≡ (n + 1) % 65535)
        × ((nth_id n ctx).generation ≡ (if (n + 1) % 65535 == 65534 then 1 else 0))
  unfolding nth_id glbctx_generateclientid
  nth_id_lem n = ground (arith, after_calls_lem n)

  -- The identifiers of two calls on a new context are equal exactly when the calls are a multiple
  -- of 65535 apart: 65535 clients get distinct identifiers, and the next gets the first one again,
  -- since the generation of the context is never advanced.
  pub nth_id_repeats : (m n : ℕ) → (nth_id m ctx ≡ nth_id n ctx) ↔ (m % 65535 ≡ n % 65535)
  nth_id_repeats m n = (
    λ e. ground (arith, nth_id_lem m, nth_id_lem n, ap (λ (c : ConId). c.id) e),
    λ e. ground (arith, nth_id_lem m, nth_id_lem n),
  )
