-- ===== src/Context/Owned.antt =====
-- The memory of a connection's channels in src/libgilberta/context.c: what glbctx_createconchannels
-- allocates, and that glbctx_freeconchannels gives it back.
pub mod RoundTrip
use libgilberta.Base.{
  ℕ, suc, ◌+◌, ◌-◌, ◌*◌, ◌≡◌, refl, sym, ap, ◌∙◌, subst, List, [], ◌∷◌, ◌++◌, Option, some, none,
  arith, length, length-append, take, get_elem?, set, get_elem?-set_self, lt_of_get_elem?,
  Option-cases, inl, inr,
}
use libgilberta.Status.{ErrorCode, success, out_of_memory}
use libgilberta.Queue.Slots
use libgilberta.Queue.Slots.{Queue}
use libgilberta.Packet.{Pkg, pkg_size}
use libgilberta.State.{Ctx, Conn, Channel, Channels, ChanConfig}
use libgilberta.Os.{Os, LogLevel, no_memory_for_queue}
use libgilberta.Os.Books.{Books, one_at, one_of}
use libgilberta.Effect.{
  M, St, Run, ok, and_then, pure, get_ctx, put_ctx, deref, get_conn, put_conn, ask, tell, ◌>>=◌,
  ◌>>◌,
}
use libgilberta.Context.{
  queue_init, queue_free, free_queues, create_channels, new_channel, glbctx_createconchannels,
  glbctx_freeconchannels, sizeof_queue, sizeof_channel, channel_queue_length,
}
use libgilberta.Context.Freed.{freed_queues, freed, free_queues_lem, glbctx_freeconchannels_lem}
use libgilberta.Invariant.{Ensures}
use libgilberta.Invariant.Rules.{Ensures-and_then, Ensures-weaken, Ensures_of_ok}

-- How many blocks at an address belong to a queue, to channels, and to a connection's array of them.
abbrev pub queue_owns : Option (Queue Pkg) → ℕ → ℕ
queue_owns none a = 0
queue_owns (some q) a = one_at q.block a

abbrev pub queues_own : List Channel → ℕ → ℕ
queues_own [] a = 0
queues_own (ch ∷ chs) a = one_at ch.s_queue.block a + one_at ch.r_queue.block a + queues_own chs a

abbrev pub owned : Option Channels → ℕ → ℕ
owned none a = 0
owned (some chans) a = one_at chans.block a + queues_own chans.items a

queues_own-append :
    (xs ys : List Channel) (a : ℕ) → queues_own (xs ++ ys) a ≡ queues_own xs a + queues_own ys a
queues_own-append [] ys a = omega arith
queues_own-append (x ∷ xs) ys a = omega (arith, queues_own-append xs ys a)

module _ {os : Os} (books : Books os) where
  open os use {World}
  open books use {held}

  held-freed_queues :
      (chs : List Channel) (w : World) (a : ℕ)
      → held (freed_queues os chs w) a ≡ held w a - queues_own chs a
  held-freed_queues [] w a = omega arith
  held-freed_queues (ch ∷ chs) w a =
      let w₁ = os.free w ch.s_queue.block in
      omega (
        arith,
        held-freed_queues chs (os.free w₁ ch.r_queue.block) a,
        (books.on_free w₁ ch.r_queue.block a).0,
        (books.on_free w ch.s_queue.block a).0,
      )

  pub held-freed :
      (o : Option Channels) (w : World) (a : ℕ) → held (freed os o w) a ≡ held w a - owned o a
  held-freed none w a = omega arith
  held-freed (some chans) w a = omega (
    arith,
    held-freed_queues chans.items w a,
    (books.on_free (freed_queues os chans.items w) chans.block a).0,
  )

  -- A run that leaves the context alone, after which the blocks are those of `base` and some more.
  pub record Holds (s : St World) (base more : ℕ → ℕ) (t : St World) : Type 0 where
    pub ctx_is : t.ctx ≡ s.ctx
    pub blocks : (a : ℕ) → held t.world a ≡ base a + more a

  Holds-queue_init :
      (size capacity : ℕ) (s : St World)
      → Ensures (queue_init os size capacity s) (λ o t. Holds s (held s.world) (queue_owns o) t)
  unfolding queue_init Slots.init ◌>>=◌ ◌>>◌ ask tell pure
  Holds-queue_init size capacity s =
      let bytes = sizeof_queue + capacity * size in
      let t = (os.malloc s.world bytes).1 in
      elim (Option-cases (os.malloc s.world bytes).0) [
        | inl failed ↦
            Ensures_of_ok (λ o t. Holds s (held s.world) (queue_owns o) t)
              (queue_init os size capacity s) none
              (record s { world = os.log t LogLevel.error no_memory_for_queue }) (rw failed refl)
              (record {
                ctx_is = refl;
                blocks = λ a. omega (
                  arith,
                  (books.on_log t LogLevel.error no_memory_for_queue a).0,
                  (books.on_malloc s.world bytes a).0,
                  ap (λ o. one_of o a) failed,
                );
              })
        | inr (b, there) ↦
            Ensures_of_ok (λ o t. Holds s (held s.world) (queue_owns o) t)
              (queue_init os size capacity s) (some (Slots.init b capacity))
              (record s { world = t }) (rw there refl)
              (record {
                ctx_is = refl;
                blocks = λ a.
                    omega (arith, (books.on_malloc s.world bytes a).0, ap (λ o. one_of o a) there);
              })
      ]

  -- What the loop of glbctx_createconchannels answers, when the channels made so far hold their blocks:
  -- a channel for each configuration, or nothing at all.
  abbrev pub Makes : (s : St World) → (base : ℕ → ℕ) → ℕ → Option (List Channel) → St World → Type 0
  Makes s base count none t = Holds s base (λ a. 0) t
  Makes s base count (some items) t = Holds s base (queues_own items) t × (length items ≡ count)

  -- The blocks of two queues on top of those of the channels made so far.
  both_held :
      (s t u : St World) (base : ℕ → ℕ) (made : List Channel) (x y : Option (Queue Pkg))
      → ((a : ℕ) → held s.world a ≡ base a + queues_own made a)
      → Holds s (held s.world) (queue_owns x) t
      → Holds t (held t.world) (queue_owns y) u
      → Holds s base (λ a. queues_own made a + queue_owns x a + queue_owns y a) u
  both_held s t u base made x y before h k = record {
    ctx_is = k.ctx_is ∙ h.ctx_is;
    blocks = λ a. omega (arith, before a, h.blocks a, k.blocks a);
  }

  abbrev freed_queue : Option (Queue Pkg) → World → World
  freed_queue none w = w
  freed_queue (some q) w = os.free w q.block

  held-freed_queue :
      (o : Option (Queue Pkg)) (w : World) (a : ℕ)
      → held (freed_queue o w) a ≡ held w a - queue_owns o a
  held-freed_queue none w a = omega arith
  held-freed_queue (some q) w a = (books.on_free w q.block a).0

  queue_free_lem :
      (o : Option (Queue Pkg)) (s : St World)
      → queue_free os o s ≡ ok tt (record s { world = freed_queue o s.world })
  unfolding queue_free pure tell
  queue_free_lem none s = refl
  queue_free_lem (some q) s = refl

  -- The failure branch gives everything back.
  all_given_back :
      (s u : St World) (base : ℕ → ℕ) (made : List Channel) (x y : Option (Queue Pkg)) (count : ℕ)
      → Holds s base (λ a. queues_own made a + queue_owns x a + queue_owns y a) u
      → Ensures
          ((do free_queues os made; queue_free os x; queue_free os y; pure none) u)
          (Makes s base count)
  unfolding ◌>>◌ pure
  all_given_back s u base made x y count h =
      let w₁ = freed_queues os made u.world in
      let w₂ = freed_queue x w₁ in
      Ensures_of_ok (Makes s base count) _ none (record u { world = freed_queue y w₂ })
        (rw (free_queues_lem os made u) (
          rw (and_then, queue_free_lem x (record u { world = w₁ }))
            (rw (and_then, queue_free_lem y (record u { world = w₂ })) refl)))
        (record {
          ctx_is = h.ctx_is;
          blocks = λ a. omega (
            arith,
            h.blocks a,
            held-freed_queues made u.world a,
            held-freed_queue x w₁ a,
            held-freed_queue y w₂ a,
          );
        })

  -- The same seen from an earlier state.
  Makes-earlier :
      (s u : St World) (base : ℕ → ℕ) (n m : ℕ) (o : Option (List Channel)) (t : St World)
      → u.ctx ≡ s.ctx
      → n ≡ m
      → Makes u base n o t
      → Makes s base m o t
  Makes-earlier s u base n m none t same count h = record {
    ctx_is = h.ctx_is ∙ same;
    blocks = h.blocks;
  }
  Makes-earlier s u base n m (some items) t same count h =
      (record { ctx_is = (h.0).ctx_is ∙ same; blocks = (h.0).blocks }, h.1 ∙ count)

  Makes-create_channels :
      (configs : List ChanConfig) (made : List Channel) (s : St World) (base : ℕ → ℕ)
      → ((a : ℕ) → held s.world a ≡ base a + queues_own made a)
      → Ensures (create_channels os configs made s) (Makes s base (length made + length configs))
  unfolding create_channels ◌>>=◌ pure
  Makes-create_channels [] made s base before =
      (record { ctx_is = refl; blocks = before }, omega arith)
  Makes-create_channels (config ∷ configs) made s base before =
      let whole = length made + suc (length configs) in
      Ensures-and_then {P = λ x t. Holds s (held s.world) (queue_owns x) t} (Makes s base whole)
        (queue_init os {A = Pkg} pkg_size channel_queue_length s) _
        (Holds-queue_init pkg_size channel_queue_length s)
        (λ x t h.
          Ensures-and_then {P = λ y u. Holds t (held t.world) (queue_owns y) u} (Makes s base whole)
            (queue_init os {A = Pkg} pkg_size channel_queue_length t) _
            (Holds-queue_init pkg_size channel_queue_length t)
            (λ y u k.
              next x y u (both_held s t u base made x y before h k)
                (λ ch. Makes-create_channels configs (made ++ ch ∷ []) u base)))
    where
      next :
          (x y : Option (Queue Pkg)) (u : St World)
          → Holds s base (λ a. queues_own made a + queue_owns x a + queue_owns y a) u
          → ((ch : Channel)
              → ((a : ℕ) → held u.world a ≡ base a + queues_own (made ++ ch ∷ []) a)
              → Ensures
                  (create_channels os configs (made ++ ch ∷ []) u)
                  (Makes u base (length (made ++ ch ∷ []) + length configs)))
          → Ensures
              ((elim (new_channel os config x y) as (λ _. M World (Option (List Channel))) [
                | some ch ↦ create_channels os configs (made ++ ch ∷ [])
                | none ↦ (do free_queues os made; queue_free os x; queue_free os y; pure none)
              ])
                u)
              (Makes s base (length made + suc (length configs)))
      next none y u h more = all_given_back s u base made none y _ h
      next (some x) none u h more = all_given_back s u base made (some x) none _ h
      next (some x) (some y) u h more =
          let ch : Channel = record {
            s_queue = x;
            r_queue = y;
            seq = 0;
            ack = 0;
            flags = config.flags;
            priority = config.priority;
          } in
          Ensures-weaken (create_channels os configs (made ++ ch ∷ []) u)
            (more ch (λ a. omega (arith, h.blocks a, queues_own-append made (ch ∷ []) a)))
            (λ o t.
              Makes-earlier s u base _ _ o t h.ctx_is (omega (arith, length-append made (ch ∷ []))))

  -- From the start of the loop.
  pub Makes-create_all :
      (configs : List ChanConfig) (s : St World) (base : ℕ → ℕ)
      → ((a : ℕ) → held s.world a ≡ base a)
      → Ensures (create_channels os configs [] s) (Makes s base (length configs))
  Makes-create_all configs s base before =
      Ensures-weaken (create_channels os configs [] s)
        (Makes-create_channels configs [] s base (λ a. omega (arith, before a)))
        (λ o t. Makes-earlier s s base _ _ o t refl (omega arith))
