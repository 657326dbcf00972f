-- ===== src/Context/Balance.antt =====
-- glbctx_create and glbctx_destroy of src/libgilberta/context.c give back what they took.
pub mod Destroy
use libgilberta.Base.{
  ℕ, ◌+◌, ◌-◌, ◌*◌, ◌≡◌, refl, ap, subst, Bool-cases, Option-cases, inl, inr, Option, none, some,
  Bool, true, false, arith, if◌then◌else◌, ◌==◌, replicate,
}
use libgilberta.Queue.Slots
use libgilberta.State.{Ctx, Conn}
use libgilberta.Os.{
  Os, LogLevel, Message, no_memory_for_queue, context_created, no_socket, no_nonblocking_mode,
  binding, no_binding,
}
use libgilberta.Os.Books.{Books, one_at, one_of}
use libgilberta.Context.{sizeof_queue}
use libgilberta.Context.Create.{
  Config, zero_conn, connection_total, event_capacity, is_server, sizeof_ctx, sizeof_conn,
  sizeof_chan, sizeof_event, blank_ctx, create_socket, bind_socket, server_addr, close_socket,
  add_eventqueue, add_binding, glbctx_create,
}
use libgilberta.Context.Settled.{
  IsNew, Settles, Owns, Settles-if, Settles-option, given_back, Owns-log, Owns-malloc_none,
}
use libgilberta.Context.Opened.{Opens, create_socket-Opens}

abbrev blank : Config → ℕ → ℕ → Ctx
blank config block s = record (blank_ctx config block (connection_total config)) { sock = some s }

module _ {os : Os} (books : Books os) (w : Os.World os) where
  open os use {World, malloc, free, socket, set_nonblocking}
  open books use {held, open_}

  Settles-add_eventqueue :
      (config : Config) (t : World) (block s : ℕ)
      → Owns books w t block s
      → Settles books w (add_eventqueue os config (blank config block s) t)
  unfolding add_eventqueue Slots.init
  Settles-add_eventqueue config t block s owns =
      let size = sizeof_queue + event_capacity config * sizeof_event in
      let t₁ = (malloc t size).1 in
      Settles-option books w (malloc t size).0 _ _
        (λ none_left. given_back books w (os.log t₁ LogLevel.error no_memory_for_queue) block s (
          Owns-log books w t₁ block s LogLevel.error no_memory_for_queue
            (Owns-malloc_none books w t block s size none_left owns)))
        (λ b there. (
          record { connections = refl },
          λ a. (
            omega (
              arith,
              (books.on_log t₁ LogLevel.info context_created a).0,
              (books.on_malloc t size a).0,
              ap (λ o. one_of o a) there,
              (owns.owned a).0,
            ),
            omega (
              arith,
              (books.on_log t₁ LogLevel.info context_created a).1,
              (books.on_malloc t size a).1,
              (owns.owned a).1,
            ),
          ),
        ))

  Owns-bind_socket :
      (ctx : Ctx) (t : World) (block s : ℕ)
      → Owns books w t block s
      → Owns books w (bind_socket os ctx s t).1 block s
  unfolding bind_socket
  Owns-bind_socket ctx t block s owns =
      let t₁ = os.log t LogLevel.info binding in
      let t₂ = (os.bind t₁ s (server_addr os ctx)).1 in
      let asked : Owns books w t₂ block s = record {
        owned = λ a. (
          omega (
            arith,
            (books.on_bind t₁ s (server_addr os ctx) a).0,
            (books.on_log t LogLevel.info binding a).0,
            (owns.owned a).0,
          ),
          omega (
            arith,
            (books.on_bind t₁ s (server_addr os ctx) a).1,
            (books.on_log t LogLevel.info binding a).1,
            (owns.owned a).1,
          ),
        );
      } in
      elim (Bool-cases (os.bind t₁ s (server_addr os ctx)).0) [
        | inl bound ↦ rw bound asked
        | inr unbound ↦ rw unbound (Owns-log books w t₂ block s LogLevel.error no_binding asked)
      ]

  Settles-add_binding :
      (config : Config) (t : World) (block s : ℕ)
      → Owns books w t block s
      → Settles books w (add_binding os config (blank config block s) s t)
  unfolding add_binding
  Settles-add_binding config t block s owns =
      let bound = Owns-bind_socket (blank config block s) t block s owns in
      let u = (bind_socket os (blank config block s) s t).1 in
      Settles-if books w (is_server config.flags) _ _
        (λ _.
          Settles-if books w (bind_socket os (blank config block s) s t).0 _ _
            (λ _. Settles-add_eventqueue config u block s bound)
            (λ _. given_back books w u block s bound))
        (λ _. Settles-add_eventqueue config t block s owns)

  -- In every branch.
  pub Settles-glbctx_create : (config : Config) → Settles books w (glbctx_create os (some config) w)
  unfolding glbctx_create
  Settles-glbctx_create config =
      let size =
        sizeof_ctx + sizeof_conn * connection_total config + sizeof_chan * config.channel_count in
      let t = (malloc w size).1 in
      let made = create_socket os t in
      let opens = create_socket-Opens books t in
      Settles-if books w (config.channel_count == 0) _ _ (λ _ a. (refl, λ _. refl))
        (λ _.
          Settles-option books w (malloc w size).0 _ _
            (λ none_left a. (
              omega (arith, (books.on_malloc w size a).0, ap (λ o. one_of o a) none_left),
              λ _. (books.on_malloc w size a).1,
            ))
            (λ b there.
              Settles-option books w made.0 _ _
                (λ no_sock a. (
                  omega (
                    arith,
                    (books.on_free made.2 b a).0,
                    opens.blocks a,
                    (books.on_malloc w size a).0,
                    ap (λ o. one_of o a) there,
                  ),
                  λ _. omega (
                    arith,
                    (books.on_free made.2 b a).1,
                    opens.sockets a,
                    (books.on_malloc w size a).1,
                    ap (λ o. one_of o a) no_sock,
                  ),
                ))
                (λ s sock.
                  Settles-if books w made.1 _ _
                    (λ _. Settles-add_binding config made.2 b s (record {
                      owned = λ a. (
                        omega (
                          arith,
                          opens.blocks a,
                          (books.on_malloc w size a).0,
                          ap (λ o. one_of o a) there,
                        ),
                        omega (
                          arith,
                          opens.sockets a,
                          (books.on_malloc w size a).1,
                          ap (λ o. one_of o a) sock,
                        ),
                      );
                    }))
                    (λ blocking a. (
                      omega (
                        arith,
                        (books.on_free made.2 b a).0,
                        opens.blocks a,
                        (books.on_malloc w size a).0,
                        ap (λ o. one_of o a) there,
                      ),
                      λ always. ground (arith, opens.mode s sock always, blocking),
                    )))))

-- When glbctx_create returns NULL, every block that it allocated has been freed, and the socket that it
-- opened is closed again, the latter if sockets can always be made non-blocking.
pub glbctx_create-failed :
    (os : Os) (books : Books os) (config : Config) (w t : Os.World os)
    → glbctx_create os (some config) w ≡ (none, t)
    → (a : ℕ)
    → (books.held t a ≡ books.held w a)
      × (((u : Os.World os) (s : ℕ) → (os.set_nonblocking u s).0 ≡ true)
          → books.open_ t a ≡ books.open_ w a)
glbctx_create-failed os books config w t e =
    subst (Settles books w) e (Settles-glbctx_create books w config)
