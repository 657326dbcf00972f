-- ===== src/Effect.antt =====
-- How the functions of src/libgilberta are written: on a state of the context and the world, with
-- faults as results. A fault is an access that C leaves undefined, through NULL or outside an array.
use libgilberta.Base.{ℕ, Option, none, some, get_elem?, set}
use libgilberta.State.{Ctx, Conn}

pub record St (W : Type 0) : Type 0 where
  pub ctx : Ctx
  pub world : W

-- `out_of_fuel` is no behaviour of the program: the bound on the rounds of a loop was too small.
pub data Run (W A : Type 0) : Type 0 where
  ok : A → St W → Run W A
  fault out_of_fuel : Run W A

abbrev pub M : Type 0 → Type 0 → Type 0
M W A = St W → Run W A

module _ {W : Type 0} where
  abbrev pub and_then : {A B : Type 0} → Run W A → (A → M W B) → Run W B
  and_then (ok a s) f = f a s
  and_then fault f = fault
  and_then out_of_fuel f = out_of_fuel

  unfoldable pub pure : {A : Type 0} → A → M W A
  pure a s = ok a s

  unfoldable pub failing : {A : Type 0} → M W A
  failing s = fault

  infixl 5 ◌>>=◌ ◌>>◌
  unfoldable pub ◌>>=◌ : {A B : Type 0} → M W A → (A → M W B) → M W B
  ◌>>=◌ m f s = and_then (m s) f

  unfoldable pub ◌>>◌ : {B : Type 0} → M W (Unit {0}) → M W B → M W B
  ◌>>◌ m k s = and_then (m s) (λ _. k)

  -- The context.
  unfoldable pub get_ctx : M W Ctx
  get_ctx s = ok s.ctx s

  unfoldable pub put_ctx : Ctx → M W (Unit {0})
  put_ctx c s = ok tt (record s { ctx = c })

  -- A pointer that is dereferenced.
  unfoldable pub deref : {A : Type 0} → Option A → M W A
  deref none s = fault
  deref (some a) s = ok a s

  -- `ctx->connections[i]`, read and written.
  unfoldable pub get_conn : ℕ → M W Conn
  get_conn i s = deref (get_elem? s.ctx.connections i) s

  unfoldable pub put_conn : ℕ → Conn → M W (Unit {0})
  put_conn i c s =
      ok tt (record s { ctx = record (s.ctx) { connections = set s.ctx.connections i c } })

  -- A call of the outside that answers, and one that does not.
  unfoldable pub ask : {A : Type 0} → (W → A × W) → M W A
  ask f s = let (a, w) = f s.world in ok a (record s { world = w })

  unfoldable pub tell : (W → W) → M W (Unit {0})
  tell f s = ok tt (record s { world = f s.world })
