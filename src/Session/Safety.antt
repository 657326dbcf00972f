-- ===== src/Session/Safety.antt =====
-- No sequence of calls of the public functions of src/libgilberta/gilberta.c faults.
use libgilberta.Base.{ℕ, ◌<◌, ◌≡◌, refl, subst, Option, none, some, arith, lt_of_get_elem?}
use libgilberta.Os.{Os}
use libgilberta.Os.Benign.{Benign}
use libgilberta.Effect.{M, St, ok, pure, ◌>>=◌}
use libgilberta.Context.Create.{Config, connection_total}
use libgilberta.Tick.Receive.{glb_tick}
use libgilberta.Api.{RecvInfo, glb_popdata}
use libgilberta.Status.{success}
use libgilberta.Invariant.{Inv, Ensures, ConnOk}
use libgilberta.Invariant.Rules.{Ensures-and_then}
use libgilberta.Invariant.Stage.{
  Stage, plain, ready, At, At-of_Inv, Inv-of_At, At-ready, plain_of_ready,
}
use libgilberta.Invariant.Turn.{Setting, Turn, Turn-after}
use libgilberta.Invariant.Turn.Api.{
  Turn-glb_connect, Turn-glb_close, Turn-glb_send, Turn-glb_send-none, Turn-glb_pollevent,
  Turn-glb_popdata-none, Turn-glb_popdata_null, Turn-glb_popdata-some, Turn-glb_getconinfo,
  Turn-glb_geterror,
}
use libgilberta.Invariant.Tick.{glb_tick-Inv}
use libgilberta.Invariant.Created.{Fits, glbctx_create-Inv}
use libgilberta.Session.{
  Call, connecting, polling, reading_error, ticking, sending, closing, asking, popping, perform,
  InUse, Allowed, Reachable, created, called,
}

module _ {os : Os} (benign : Benign os) {n k : ℕ} (has_channels : 0 < n)
    (has_connections : 0 < k) where
  open os use {World}

  abbrev here : St World → Setting
  here s = record {
    os = os;
    benign = benign;
    n = n;
    k = k;
    bound = benign.pending s.world;
    has_channels = has_channels;
    has_connections = has_connections;
  }

  -- A call that is a turn, from a state with the invariant.
  Inv-Turn :
      {A : Type 0} (st : Stage) (m : M World A) (s : St World)
      → At n k st s.ctx
      → Turn (here s) st plain m
      → Ensures ((m >>= λ _. pure tt) s) (λ _ t. Inv n k t.ctx)
  unfolding ◌>>=◌ pure
  Inv-Turn st m s at turn =
      Ensures-and_then (λ _ t. Inv n k t.ctx) (m s) _
        (turn.ensures s (record { at = at; left = omega arith })) (λ _ t g. Inv-of_At t.ctx g.at)

  popped :
      (info : RecvInfo) (con : Option ℕ) (s : St World)
      → At n k plain s.ctx
      → ((i : ℕ) → con ≡ some i → InUse s.ctx i)
      → Ensures
          ((glb_popdata {W = World} (some (record info { con = con })) >>= λ _. pure tt) s)
          (λ _ t. Inv n k t.ctx)
  popped info none s at used = Inv-Turn plain _ s at (Turn-glb_popdata-none info)
  popped info (some i) s at used =
      let u = used i refl in
      let well : ConnOk n u.con = at.each i u.con u.at in
      let lt : i < k =
        omega (arith, lt_of_get_elem? s.ctx.connections i u.at, at.connections_length) in
      Inv-Turn (ready i) _ s (At-ready s.ctx i u.con u.at (well.live u.live) at)
        (Turn-after (ready i) _ plain_of_ready (Turn-glb_popdata-some info i lt))

  ticked :
      (fuel : ℕ) (s : St World)
      → Ensures (glb_tick os fuel s) (λ status t. (status ≡ success) × Inv n k t.ctx)
      → Ensures ((glb_tick os fuel >>= λ _. pure tt) s) (λ _ t. Inv n k t.ctx)
  unfolding ◌>>=◌ pure
  ticked fuel s h = Ensures-and_then (λ _ t. Inv n k t.ctx) (glb_tick os fuel s) _ h (λ _ t g. g.1)

  perform-Inv :
      (c : Call) (s : St World)
      → Inv n k s.ctx
      → Allowed benign k c s
      → Ensures (perform os c s) (λ _ t. Inv n k t.ctx)
  unfolding perform
  perform-Inv connecting s v owed = Inv-Turn plain _ s (At-of_Inv s.ctx v) Turn-glb_connect
  perform-Inv polling s v owed = Inv-Turn plain _ s (At-of_Inv s.ctx v) Turn-glb_pollevent
  perform-Inv reading_error s v owed = Inv-Turn plain _ s (At-of_Inv s.ctx v) Turn-glb_geterror
  perform-Inv (ticking fuel) s v owed =
      ticked fuel s (glb_tick-Inv os benign n k fuel s has_channels has_connections v owed)
  perform-Inv (sending local none) s v owed =
      Inv-Turn plain _ s (At-of_Inv s.ctx v) (Turn-glb_send-none local)
  perform-Inv (sending local (some info)) s v owed =
      Inv-Turn plain _ s (At-of_Inv s.ctx v) (Turn-glb_send local info owed)
  perform-Inv (closing con) s v owed =
      Inv-Turn plain _ s (At-of_Inv s.ctx v) (Turn-glb_close con owed)
  perform-Inv (asking con) s v owed =
      Inv-Turn plain _ s (At-of_Inv s.ctx v) (Turn-glb_getconinfo con owed)
  perform-Inv (popping none) s v owed = Inv-Turn plain _ s (At-of_Inv s.ctx v) Turn-glb_popdata_null
  perform-Inv (popping (some info)) s v owed = popped info info.con s (At-of_Inv s.ctx v) owed

-- Every state that the application reaches satisfies the invariant, and its context has a channel
-- and a connection.
module _ {os : Os} (benign : Benign os) (config : Config) (fits : Fits config) where
  abbrev Holds : St (Os.World os) → Type 0
  Holds s = (0 < config.channel_count) × Inv config.channel_count (connection_total config) s.ctx

  after_call :
      (s t : St (Os.World os)) (c : Call)
      → Holds s
      → Allowed benign (connection_total config) c s
      → perform os c s ≡ ok tt t
      → Holds t
  after_call s t c h owed e = (
    h.0,
    subst (λ r. Ensures r (λ _ u. Inv config.channel_count (connection_total config) u.ctx)) e
        (perform-Inv benign h.0 fits.connections c s h.1 owed),
  )

  Holds-Reachable : (s : St (Os.World os)) → Reachable benign config s → Holds s
  Holds-Reachable _ (created w later ctx e) = glbctx_create-Inv os config w ctx fits e
  Holds-Reachable _ (called s t c later r owed e) = after_call s t c (Holds-Reachable s r) owed e

-- For a configuration that fits, with an allocator that has memory and a socket that holds finitely
-- many datagrams at a time: after any calls of the public functions and any changes of the outside
-- between them, the next call returns, without any access through NULL or outside an array, and leaves
-- a context with the invariant. At every call, connections are those of the context, buffers are as
-- long as the caller says, glb_tick has fuel for the waiting datagrams, and glb_popdata is called only
-- on a connection that is in use.
pub session_safe :
    (os : Os) (benign : Benign os) (config : Config) (s : St (Os.World os)) (c : Call)
    → Fits config
    → Reachable benign config s
    → Allowed benign (connection_total config) c s
    → Ensures (perform os c s) (λ _ t. Inv config.channel_count (connection_total config) t.ctx)
session_safe os benign config s c fits r owed =
    let (has_channels, v) = Holds-Reachable benign config fits s r in
    perform-Inv benign has_channels fits.connections c s v owed
