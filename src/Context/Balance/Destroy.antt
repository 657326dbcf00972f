-- ===== src/Context/Balance/Destroy.antt =====
-- glbctx_destroy of src/libgilberta/context.c on a new context.
use libgilberta.Base.{
  ℕ, zero, suc, ◌+◌, ◌<◌, ◌≤◌, ◌≡◌, refl, ap, subst, ◌∙◌, Option, some, none, arith, get_elem?,
  replicate,
}
use libgilberta.State.{Ctx}
use libgilberta.Status.{success}
use libgilberta.Os.{Os, LogLevel, context_destroyed}
use libgilberta.Os.Books.{Books, one_at, one_of}
use libgilberta.Effect.{St, ok, pure, get_ctx, get_conn, deref, tell, ◌>>=◌, ◌>>◌}
use libgilberta.Invariant.{Ensures}
use libgilberta.Invariant.Rules.{Ensures_of_ok}
use libgilberta.Context.{queue_free, glbctx_freeconchannels}
use libgilberta.Context.Create.{
  Config, zero_conn, close_socket, free_all_channels, glbctx_create, glbctx_destroy,
}
use libgilberta.Context.Settled.{IsNew, Settles}
use libgilberta.Context.Balance.{Settles-glbctx_create}

get_elem?-replicate : (n i : ℕ) → i < n → get_elem? (replicate n zero_conn) i ≡ some zero_conn
get_elem?-replicate zero i lt = absurd (omega arith)
get_elem?-replicate (suc n) zero lt = refl
get_elem?-replicate (suc n) (suc i) lt = get_elem?-replicate n i (omega arith)

module _ (os : Os) where
  open os use {World}

  -- Connections without channels have nothing to free.
  free_all_channels-new :
      (n left i : ℕ) (s : St World)
      → s.ctx.connections ≡ replicate n zero_conn
      → i + left ≤ n
      → free_all_channels os left i s ≡ ok tt s
  unfolding free_all_channels glbctx_freeconchannels ◌>>=◌ ◌>>◌ pure get_conn deref
  free_all_channels-new n zero i s new room = refl
  free_all_channels-new n (suc left) i s new room =
      let at : get_elem? s.ctx.connections i ≡ some zero_conn =
        ap (λ cs. get_elem? cs i) new ∙ get_elem?-replicate n i (omega arith) in
      rw at (free_all_channels-new n left (i + 1) s new (omega arith))

  -- The world after a destruction of a new context.
  abbrev destroyed : Ctx → World → World
  destroyed ctx w =
      os.free
        (os.log (close_socket os ctx.sock (os.free w ctx.eventqueue.block)) LogLevel.info
          context_destroyed)
        ctx.block

  glbctx_destroy-new :
      (ctx : Ctx) (w : World)
      → IsNew ctx
      → glbctx_destroy os (record { ctx = ctx; world = w })
        ≡ ok success (record { ctx = ctx; world = destroyed ctx w })
  unfolding glbctx_destroy queue_free ◌>>=◌ ◌>>◌ pure get_ctx tell
  glbctx_destroy-new ctx w new =
      rw
        (free_all_channels-new ctx.connection_count ctx.connection_count 0
          (record { ctx = ctx; world = os.free w ctx.eventqueue.block }) new.connections
          (omega arith))
        refl

-- A context that glbctx_create has just returned is destroyed without a fault, and afterwards every
-- block that the two calls allocated has been freed and the socket is closed.
pub glbctx_destroy-glbctx_create :
    (os : Os) (books : Books os) (config : Config) (w t : Os.World os) (ctx : Ctx)
    → glbctx_create os (some config) w ≡ (some ctx, t)
    → Ensures (glbctx_destroy os (record { ctx = ctx; world = t })) (λ status u.
      (status ≡ success)
      × ((a : ℕ)
          → (books.held u.world a ≡ books.held w a) × (books.open_ u.world a ≡ books.open_ w a)))
unfolding close_socket
glbctx_destroy-glbctx_create os books config w t ctx e =
    let (new, owned) = subst (Settles books w) e (Settles-glbctx_create books w config) in
    Ensures_of_ok _ (glbctx_destroy os (record { ctx = ctx; world = t })) success
      (record { ctx = ctx; world = destroyed os ctx t }) (glbctx_destroy-new os ctx t new)
      (refl, λ a. given_back ctx.sock (owned a))
  where
    given_back :
        (sock : Option ℕ) {a : ℕ}
        → (books.held t a ≡ books.held w a + one_at ctx.block a + one_at ctx.eventqueue.block a)
          × (books.open_ t a ≡ books.open_ w a + one_of sock a)
        → let u =
            os.free
              (os.log
                (close_socket os sock (os.free t ctx.eventqueue.block))
                LogLevel.info
                context_destroyed)
              ctx.block in
          (books.held u a ≡ books.held w a) × (books.open_ u a ≡ books.open_ w a)
    given_back none {a} h =
        let t₁ = os.free t ctx.eventqueue.block in
        let t₂ = os.log t₁ LogLevel.info context_destroyed in
        (
          omega (
            arith,
            (books.on_free t₂ ctx.block a).0,
            (books.on_log t₁ LogLevel.info context_destroyed a).0,
            (books.on_free t ctx.eventqueue.block a).0,
            h.0,
          ),
          omega (
            arith,
            (books.on_free t₂ ctx.block a).1,
            (books.on_log t₁ LogLevel.info context_destroyed a).1,
            (books.on_free t ctx.eventqueue.block a).1,
            h.1,
          ),
        )
    given_back (some s) {a} h =
        let t₁ = os.free t ctx.eventqueue.block in
        let t₂ = os.close t₁ s in
        let t₃ = os.log t₂ LogLevel.info context_destroyed in
        (
          omega (
            arith,
            (books.on_free t₃ ctx.block a).0,
            (books.on_log t₂ LogLevel.info context_destroyed a).0,
            (books.on_close t₁ s a).0,
            (books.on_free t ctx.eventqueue.block a).0,
            h.0,
          ),
          omega (
            arith,
            (books.on_free t₃ ctx.block a).1,
            (books.on_log t₂ LogLevel.info context_destroyed a).1,
            (books.on_close t₁ s a).1,
            (books.on_free t ctx.eventqueue.block a).1,
            h.1,
          ),
        )
