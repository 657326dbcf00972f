-- ===== src/Context/Settled.antt =====
-- The blocks and the socket that a creation (src/libgilberta/context.c) has in hand, and what it may answer.
use libgilberta.Base.{
  ℕ, ◌+◌, ◌≡◌, refl, ap, Option, none, some, Bool, true, false, arith, if◌then◌else◌, replicate,
}
use libgilberta.State.{Ctx}
use libgilberta.Os.{Os, LogLevel, Message}
use libgilberta.Os.Books.{Books, one_at, one_of}
use libgilberta.Context.Create.{zero_conn, close_socket}

-- No connection of the context has channels, as in a new one.
pub record IsNew (ctx : Ctx) : Type 0 where
  pub connections : ctx.connections ≡ replicate ctx.connection_count zero_conn

module _ {os : Os} (books : Books os) where
  open os use {World, malloc, free, socket, set_nonblocking}
  open books use {held, open_}

  -- What a creation that began in `w` may answer: NULL, with everything given back unless a socket
  -- could not be made non-blocking, or a new context that owns its block, the block of its event queue
  -- and its socket.
  abbrev pub Settles : World → Option Ctx × World → Type 0
  Settles w (none, t) =
      (a : ℕ)
      → (held t a ≡ held w a)
        × (((u : World) (s : ℕ) → (set_nonblocking u s).0 ≡ true) → open_ t a ≡ open_ w a)
  Settles w (some ctx, t) =
      IsNew ctx
      × ((a : ℕ)
          → (held t a ≡ held w a + one_at ctx.block a + one_at ctx.eventqueue.block a)
            × (open_ t a ≡ open_ w a + one_of ctx.sock a))

  -- The state of the books when the context has its block and its socket.
  pub record Owns (w t : World) (block s : ℕ) : Type 0 where
    pub owned :
        (a : ℕ) → (held t a ≡ held w a + one_at block a) × (open_ t a ≡ open_ w a + one_at s a)

module _ {os : Os} (books : Books os) (w : Os.World os) where
  open os use {World, malloc, free, socket, set_nonblocking}
  open books use {held, open_}

  pub Settles-if :
      (b : Bool) (r r' : Option Ctx × World)
      → (b ≡ true → Settles books w r)
      → (b ≡ false → Settles books w r')
      → Settles books w (if b then r else r')
  Settles-if true r r' h h' = h refl
  Settles-if false r r' h h' = h' refl

  pub Settles-option :
      {B : Type 0} (o : Option B) (r : Option Ctx × World) (f : B → Option Ctx × World)
      → (o ≡ none → Settles books w r)
      → ((b : B) → o ≡ some b → Settles books w (f b))
      → Settles books w (elim o [ none ↦ r | some b ↦ f b ])
  Settles-option none r f h k = h refl
  Settles-option (some b) r f h k = k b refl

  -- The end of a creation that failed with the context's block and its socket there.
  pub given_back :
      (t : World) (block s : ℕ)
      → Owns books w t block s
      → Settles books w (none, free (close_socket os (some s) t) block)
  unfolding close_socket
  given_back t block s owns a = (
    omega (
      arith,
      (books.on_free (os.close t s) block a).0,
      (books.on_close t s a).0,
      (owns.owned a).0,
    ),
    λ _. omega (
      arith,
      (books.on_free (os.close t s) block a).1,
      (books.on_close t s a).1,
      (owns.owned a).1,
    ),
  )

  pub Owns-log :
      (t : World) (block s : ℕ) (level : LogLevel) (message : Message)
      → Owns books w t block s
      → Owns books w (os.log t level message) block s
  Owns-log t block s level message owns = record {
    owned = λ a. (
      omega (arith, (books.on_log t level message a).0, (owns.owned a).0),
      omega (arith, (books.on_log t level message a).1, (owns.owned a).1),
    );
  }

  -- An allocation that fails changes nothing.
  pub Owns-malloc_none :
      (t : World) (block s size : ℕ)
      → (malloc t size).0 ≡ none
      → Owns books w t block s
      → Owns books w (malloc t size).1 block s
  Owns-malloc_none t block s size none_left owns = record {
    owned = λ a. (
      omega (arith, (books.on_malloc t size a).0, ap (λ o. one_of o a) none_left, (owns.owned a).0),
      omega (arith, (books.on_malloc t size a).1, (owns.owned a).1),
    );
  }
