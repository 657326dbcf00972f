-- ===== src/Tests/Accounts.antt =====
-- An outside that counts its blocks and its sockets, and has memory for a number of requests.
use libgilberta.Base.{
  [], ℕ, zero, suc, ◌+◌, ◌-◌, ◌≡◌, refl, Option, some, none, true, arith, length,
}
use libgilberta.Status.{success}
use libgilberta.Queue.Slots
use libgilberta.State.{Ctx}
use libgilberta.Os.{Os, would_block}
use libgilberta.Os.Books.{Books, one_at, one_of}
use libgilberta.Context.Create.{
  glbctx_create, glbctx_destroy, create_socket, add_binding, add_eventqueue, zero_conn,
}
use libgilberta.Context.Balance.{glbctx_create-failed}
use libgilberta.Context.Balance.Destroy.{glbctx_destroy-glbctx_create}
use libgilberta.Context.{glbctx_createconchannels, glbctx_freeconchannels}
use libgilberta.Context.Freed.{with_conn}
use libgilberta.Context.Owned.RoundTrip.{Allocated, createconchannels-freeconchannels}
use libgilberta.Effect.{St}
use libgilberta.Invariant.{Ensures}
use libgilberta.Api.Lifetime.{Frees, glb_create, glb_destroy, glb_destroy-glb_create}
use libgilberta.Tests.Contexts.{client_config}
use libgilberta.Tests.Ticks.{start}

pub record Tally : Type 0 where
  pub left : ℕ
  pub blocks : ℕ → ℕ
  pub sockets : ℕ → ℕ

-- The next request: the block is at the number of requests that are left.
abbrev request : ℕ → (ℕ → ℕ) → (ℕ → ℕ) → Option ℕ × Tally
request zero blocks sockets = (none, record { left = 0; blocks = blocks; sockets = sockets })
request (suc left) blocks sockets =
    (some left, record { left = left; blocks = λ a. blocks a + one_at left a; sockets = sockets })

abbrev pub tally : Os
tally = record {
  World = Tally;
  recvfrom = λ w. (would_block, w);
  sendto = λ w bytes addr. (some (length bytes), w);
  clock_gettime = λ w. (record { tv_sec = 5; tv_nsec = 0 }, w);
  malloc = λ w size. request w.left w.blocks w.sockets;
  free = λ w block. record w { blocks = λ a. w.blocks a - one_at block a };
  log = λ w level message. w;
  socket = λ w. (some 3, record w { sockets = λ a. w.sockets a + one_at 3 a });
  set_nonblocking = λ w sock. (true, w);
  bind = λ w sock addr. (true, w);
  close = λ w sock. record w { sockets = λ a. w.sockets a - one_at sock a };
  inet_pton = λ text. some 0x100007f;
  inet_ntop = λ ip. [];
  htons = λ port. port;
  ntohs = λ port. port;
}

pub request_lem :
    (left : ℕ) (blocks sockets : ℕ → ℕ) (a : ℕ)
    → ((request left blocks sockets).1.blocks a
        ≡ blocks a + one_of (request left blocks sockets).0 a)
      × ((request left blocks sockets).1.sockets a ≡ sockets a)
request_lem zero blocks sockets a = (omega arith, refl)
request_lem (suc left) blocks sockets a = (refl, refl)

abbrev pub counted : Books tally
counted = record {
  held = λ w. w.blocks;
  open_ = λ w. w.sockets;
  on_malloc = λ w size a. request_lem w.left w.blocks w.sockets a;
  on_free = λ w block a. (refl, refl);
  on_log = λ w level message a. (refl, refl);
  on_socket = λ w a. (refl, refl);
  on_set_nonblocking = λ w s a. (refl, refl);
  on_bind = λ w s addr a. (refl, refl);
  on_close = λ w s a. (refl, refl);
}

abbrev pub with_room : ℕ → Tally
with_room left = record { left = left; blocks = λ a. 0; sockets = λ a. 0 }

-- One request succeeds: there is no memory for the event queue.
glbctx_create-failed_example :
    ((glbctx_create tally (some client_config) (with_room 1)).1.blocks 0 ≡ 0)
    × (((u : Tally) (s : ℕ) → true ≡ true)
        → (glbctx_create tally (some client_config) (with_room 1)).1.sockets 0 ≡ 0)
unfolding glbctx_create create_socket add_binding add_eventqueue
glbctx_create-failed_example =
    glbctx_create-failed tally counted client_config (with_room 1)
      (glbctx_create tally (some client_config) (with_room 1)).1 refl 0

abbrev made : Option Ctx × Tally
made = glbctx_create tally (some client_config) (with_room 2)

abbrev made_ctx : Ctx
made_ctx = record (start.ctx) { block = 1; eventqueue = Slots.init 0 4 }

glbctx_destroy-glbctx_create_example :
    Ensures (glbctx_destroy tally (record { ctx = made_ctx; world = made.1 })) (λ status u.
      (status ≡ success) × ((a : ℕ) → (u.world.blocks a ≡ 0) × (u.world.sockets a ≡ 0)))
unfolding glbctx_create create_socket add_binding add_eventqueue
glbctx_destroy-glbctx_create_example =
    glbctx_destroy-glbctx_create tally counted client_config (with_room 2) made.1 made_ctx refl

glb_destroy-glb_create_example :
    let made = glb_create tally (some client_config) (with_room 2) in
    Frees counted (with_room 2) success (glb_destroy tally made.0 made.1)
unfolding glb_create glbctx_create create_socket add_binding add_eventqueue
glb_destroy-glb_create_example =
    glb_destroy-glb_create tally counted (some client_config) (with_room 2)

-- There is memory for the array of channels and one queue, but not for the second queue.
abbrev short_of_memory : St Tally
short_of_memory = record { ctx = made_ctx; world = with_room 2 }

createconchannels-freeconchannels_example :
    Ensures (glbctx_createconchannels tally 0 short_of_memory) (λ status t.
      Allocated counted short_of_memory t 0 zero_conn status
      × Ensures (glbctx_freeconchannels tally 0 t) (λ _ u.
        (u.ctx ≡ with_conn made_ctx 0 (record zero_conn { channels = none }))
        × ((a : ℕ) → u.world.blocks a ≡ 0)))
createconchannels-freeconchannels_example =
    createconchannels-freeconchannels tally counted short_of_memory 0 zero_conn refl
