-- ===== src/Invariant/Created.antt =====
-- The context that glbctx_create of src/libgilberta/context.c returns.
use libgilberta.Base.{
  ℕ, suc, ◌*◌, ◌+◌, zero, ◌^◌, ◌≤◌, ◌<◌, ◌≡◌, refl, subst, Option, some, none, Bool, true, false,
  arith, Bool-cases, inl, inr, length, length-take, replicate, All, length-replicate, ◌==◌,
  if◌then◌else◌,
}
use libgilberta.Queue.Slots
use libgilberta.Queue.Slots.Cases.{init-IsValid}
use libgilberta.State.{Ctx}
use libgilberta.Status.{success}
use libgilberta.Os.{Os}
use libgilberta.Context.Create.{
  Config, zero_conn, blank_ctx, is_server, connection_total, event_capacity, glbctx_create,
  add_eventqueue, sizeof_ctx, sizeof_conn, sizeof_chan, sizeof_event, add_binding, bind_socket,
  create_socket,
}
use libgilberta.Context.{sizeof_queue}
use libgilberta.Invariant.{Inv, ConnOk}

-- What the application owes: as many channels as it says, a connection at least, and an event queue
-- whose indices fit.
pub record Fits (config : Config) : Type 0 where
  pub channels : config.channel_count ≤ length config.channels
  pub connections : 0 < connection_total config
  pub events : event_capacity config ≤ 2 ^ 31

-- If there is a value, it has the property.
abbrev pub Each : {A : Type 0} → (A → Type 0) → Option A → Type 0
Each P none = Unit {0}
Each P (some a) = P a

Each-map :
    {A : Type 0} {P Q : A → Type 0} (o : Option A) → ((a : A) → P a → Q a) → Each P o → Each Q o
Each-map none f h = h
Each-map (some a) f h = f a h

module _ {A W : Type 0} (P : A → Type 0) where
  Each-if :
      (b : Bool) (r r' : Option A × W)
      → (b ≡ true → Each P r.0)
      → (b ≡ false → Each P r'.0)
      → Each P (if b then r else r').0
  Each-if true r r' h h' = h refl
  Each-if false r r' h h' = h' refl

  Each-option :
      {B : Type 0} (o : Option B) (r : Option A × W) (f : B → Option A × W)
      → Each P r.0
      → ((b : B) → Each P (f b).0)
      → Each P (elim o as (λ _. Option A × W) [ none ↦ r | some b ↦ f b ]).0
  Each-option none r f h k = h
  Each-option (some b) r f h k = k b

event_capacity_pos : (config : Config) → 0 < event_capacity config
event_capacity_pos config = elim (Bool-cases (config.eventqueue_length == 0)) [
  | inl default ↦ rw default (omega arith)
  | inr given ↦ rw given (ground arith)
]

zero_conns : (n k : ℕ) → All (ConnOk n) (replicate k zero_conn)
zero_conns n zero = tt
zero_conns n (suc k) =
    (record { live = λ used nothing. ground (arith, used); shape = tt }, zero_conns n k)

-- The context from which glbctx_create starts has everything but its event queue.
module _ {config : Config} (fits : Fits config) where
  abbrev IsCreated : Ctx → Type 0
  IsCreated ctx = Inv config.channel_count (connection_total config) ctx

  with_events :
      (block b : ℕ) (sock : Option ℕ)
      → IsCreated (record (blank_ctx config block (connection_total config)) {
        sock = sock;
        eventqueue = Slots.init b (event_capacity config);
        error = success;
      })
  with_events block b sock = record {
    channel_total = refl;
    connection_total = refl;
    connections_length = length-replicate (connection_total config) zero_conn;
    configs = omega (arith, length-take config.channel_count config.channels, fits.channels);
    events = init-IsValid b (event_capacity config) (event_capacity_pos config) fits.events;
    connections_ok = zero_conns config.channel_count (connection_total config);
  }

  module _ (os : Os) where
    open os use {World, malloc}

    abbrev blank : ℕ → Option ℕ → Ctx
    blank block sock = record (blank_ctx config block (connection_total config)) { sock = sock }

    Each-add_eventqueue :
        (block : ℕ) (sock : Option ℕ) (w : World)
        → Each IsCreated (add_eventqueue os config (blank block sock) w).0
    unfolding add_eventqueue
    Each-add_eventqueue block sock w =
        Each-option IsCreated (malloc w (sizeof_queue + event_capacity config * sizeof_event)).0 _ _
          tt (λ b. with_events block b sock)

    Each-add_binding :
        (block s : ℕ) (w : World)
        → Each IsCreated (add_binding os config (blank block (some s)) s w).0
    unfolding add_binding
    Each-add_binding block s w =
        Each-if IsCreated (is_server config.flags) _ _
          (λ _.
            Each-if IsCreated (bind_socket os (blank block (some s)) s w).0 _ _
              (λ _.
                Each-add_eventqueue block (some s) (bind_socket os (blank block (some s)) s w).1)
              (λ _. tt))
          (λ _. Each-add_eventqueue block (some s) w)

    Each-glbctx_create :
        (w : World)
        → Each
            (λ ctx. (0 < config.channel_count) × IsCreated ctx)
            (glbctx_create os (some config) w).0
    unfolding glbctx_create
    Each-glbctx_create w =
        Each-if Made (config.channel_count == 0) _ _ (λ _. tt)
          (λ channels. Each-option Made (malloc w size).0 _ _ tt (λ b.
            let made = create_socket os (malloc w size).1 in
            Each-option Made made.0 _ _ tt (λ s.
              Each-if Made made.1 _ _
                (λ _.
                  Each-map (add_binding os config (blank b (some s)) s made.2).0
                    (λ ctx v. (ground (arith, channels), v)) (Each-add_binding b s made.2))
                (λ _. tt))))
      where
        Made : Ctx → Type 0
        Made ctx = (0 < config.channel_count) × IsCreated ctx

        size : ℕ
        size =
            sizeof_ctx + sizeof_conn * connection_total config + sizeof_chan * config.channel_count

-- Whatever the outside answers, a context that glbctx_create returns satisfies the invariant, for a
-- configuration with as many channels as it says, at least one connection, and an event queue whose
-- indices fit; and it has a channel.
pub glbctx_create-Inv :
    (os : Os) (config : Config) (w : Os.World os) (ctx : Ctx)
    → Fits config
    → (glbctx_create os (some config) w).0 ≡ some ctx
    → (0 < config.channel_count) × Inv config.channel_count (connection_total config) ctx
glbctx_create-Inv os config w ctx fits e =
    subst
      (Each
        (λ c. (0 < config.channel_count) × Inv config.channel_count (connection_total config) c))
      e (Each-glbctx_create fits os w)
