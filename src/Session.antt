-- ===== src/Session.antt =====
-- An application that uses src/libgilberta/gilberta.c: it creates a context and then calls the
-- public functions in any order, while the outside goes on between the calls.
pub mod Safety
pub mod Silence
use libgilberta.Base.{ℕ, ◌<◌, ◌≡◌, Option, none, some, true, get_elem?}
use libgilberta.Packet.{Pkg}
use libgilberta.State.{Ctx, Conn}
use libgilberta.Os.{Os}
use libgilberta.Os.Benign.{Benign}
use libgilberta.Effect.{M, St, ok, pure, ◌>>=◌}
use libgilberta.Context.Create.{Config, connection_total, glbctx_create}
use libgilberta.Tick.Receive.{glb_tick}
use libgilberta.Api.{
  SendInfo, RecvInfo, glb_connect, glb_close, glb_send, glb_pollevent, glb_popdata, glb_getconinfo,
  glb_geterror,
}
use libgilberta.Invariant.{is_live}
use libgilberta.Invariant.Send.{IsSendable}

-- A call with its arguments: the fuel of glb_tick, and the uninitialised packet of glb_send, are
-- those of the model.
pub data Call : Type 0 where
  connecting polling reading_error : Call
  ticking : ℕ → Call
  sending : Pkg → Option SendInfo → Call
  closing asking : Option ℕ → Call
  popping : Option RecvInfo → Call

unfoldable pub perform : (os : Os) → Call → M (Os.World os) (Unit {0})
perform os connecting = do status ← glb_connect os; pure tt
perform os polling = do event ← glb_pollevent; pure tt
perform os reading_error = do code ← glb_geterror; pure tt
perform os (ticking fuel) = do status ← glb_tick os fuel; pure tt
perform os (sending local info) = do status ← glb_send os local info; pure tt
perform os (closing con) = do status ← glb_close os con; pure tt
perform os (asking con) = do info ← glb_getconinfo os con; pure tt
perform os (popping info) = do bytes ← glb_popdata info; pure tt

-- Connection `i` is there, in a state that uses its channels.
pub record InUse (ctx : Ctx) (i : ℕ) : Type 0 where
  pub con : Conn
  pub at : get_elem? ctx.connections i ≡ some con
  pub live : is_live con.state ≡ true

module _ {os : Os} (benign : Benign os) where
  open os use {World}

  -- What the application owes at a call: connections of the context, buffers as long as it says, and
  -- messages taken only from a connection that is in use. The last is not documented, and echo.c takes
  -- a message for each RECEIVE event without asking for the state.
  abbrev pub Allowed : ℕ → Call → St World → Type 0
  Allowed k connecting s = Unit {0}
  Allowed k polling s = Unit {0}
  Allowed k reading_error s = Unit {0}
  Allowed k (ticking fuel) s = benign.pending s.world < fuel
  Allowed k (sending local none) s = Unit {0}
  Allowed k (sending local (some info)) s = IsSendable k info
  Allowed k (closing con) s = (i : ℕ) → con ≡ some i → i < k
  Allowed k (asking con) s = (i : ℕ) → con ≡ some i → i < k
  Allowed k (popping none) s = Unit {0}
  Allowed k (popping (some info)) s = (i : ℕ) → info.con ≡ some i → InUse s.ctx i

  -- The states between the calls. What happens outside meanwhile is any change of the world.
  pub data Reachable (config : Config) : St World → Type 0 where
    created :
        (w later : World) (ctx : Ctx)
        → (glbctx_create os (some config) w).0 ≡ some ctx
        → Reachable config (record { ctx = ctx; world = later })
    called :
        (s t : St World) (c : Call) (later : World)
        → Reachable config s
        → Allowed (connection_total config) c s
        → perform os c s ≡ ok tt t
        → Reachable config (record t { world = later })
