-- ===== src/Context/Opened.antt =====
-- The socket that glbctx_create of src/libgilberta/context.c opens.
use libgilberta.Base.{
  ℕ, ◌+◌, ◌≡◌, refl, ap, Bool-cases, Option-cases, inl, inr, Option, some, Bool, true, arith,
}
use libgilberta.Os.{Os, LogLevel, no_socket, no_nonblocking_mode}
use libgilberta.Os.Books.{Books, one_of}
use libgilberta.Context.Create.{create_socket}

-- A socket is opened; if its mode can be set, all has gone well.
pub record Opens {os : Os} (books : Books os) (t : Os.World os)
    (made : Option ℕ × Bool × Os.World os) : Type 0 where
  pub blocks : (a : ℕ) → books.held made.2 a ≡ books.held t a
  pub sockets : (a : ℕ) → books.open_ made.2 a ≡ books.open_ t a + one_of made.0 a
  pub mode :
      (s : ℕ)
      → made.0 ≡ some s
      → ((u : Os.World os) (x : ℕ) → (os.set_nonblocking u x).0 ≡ true)
      → made.1 ≡ true

pub create_socket-Opens :
    {os : Os} (books : Books os) (t : Os.World os) → Opens books t (create_socket os t)
unfolding create_socket
create_socket-Opens {os} books t = elim (Option-cases (os.socket t).0) [
  | inl no_sock ↦
      rw (create_socket, no_sock)
        (record {
          blocks = λ a.
              omega
                (arith, (books.on_log t₁ LogLevel.error no_socket a).0, (books.on_socket t a).0);
          sockets = λ a. omega (
            arith,
            (books.on_log t₁ LogLevel.error no_socket a).1,
            (books.on_socket t a).1,
            ap (λ o. one_of o a) no_sock,
          );
          mode = λ s e always. ground arith;
        })
  | inr (s, sock) ↦ elim (Bool-cases (os.set_nonblocking t₁ s).0) [
    | inl done ↦
        rw (create_socket, sock, done)
          (record {
            blocks =
                λ a. omega (arith, (books.on_set_nonblocking t₁ s a).0, (books.on_socket t a).0);
            sockets = λ a. omega (
              arith,
              (books.on_set_nonblocking t₁ s a).1,
              (books.on_socket t a).1,
              ap (λ o. one_of o a) sock,
            );
            mode = λ s e always. refl;
          })
    | inr blocking ↦
        let t₂ = (os.set_nonblocking t₁ s).1 in
        rw (create_socket, sock, blocking)
          (record {
            blocks = λ a. omega (
              arith,
              (books.on_log t₂ LogLevel.error no_nonblocking_mode a).0,
              (books.on_set_nonblocking t₁ s a).0,
              (books.on_socket t a).0,
            );
            sockets = λ a. omega (
              arith,
              (books.on_log t₂ LogLevel.error no_nonblocking_mode a).1,
              (books.on_set_nonblocking t₁ s a).1,
              (books.on_socket t a).1,
              ap (λ o. one_of o a) sock,
            );
            mode = λ x e always. ground (arith, always t₁ s, blocking);
          })
  ]
]
  where
    t₁ : Os.World os
    t₁ = (os.socket t).1
