-- ===== src/Invariant/Turn/Writes.antt =====
-- Writes of a connection (src/libgilberta/gilberta.c, context.c) as turns: of fields that the
-- invariant does not read, of its channels, and of its state when it is closed.
use libgilberta.Base.{
  ℕ, ◌<◌, ◌≡◌, ◌≢◌, refl, sym, ◌∙◌, subst, Option, some, none, Bool, true, false, arith,
}
use libgilberta.Status.{success, invalid_argument, DisconnectReason}
use libgilberta.State.{Ctx, Conn, closed, Channel, Channels, Event}
use libgilberta.Packet.{Pkg}
use libgilberta.Context.Lookup.{find_index-lt}
use libgilberta.Effect.{M, get_ctx, deref, put_conn, ◌>>=◌}
use libgilberta.Context.{
  find_index, same_id, glbctx_findconn, glbctx_freeconchannels, glbctx_writeack, acked,
}
use libgilberta.Tick.Common.{close_conn, modify_conn}
use libgilberta.Tick.Data.{with_channel}
use libgilberta.Invariant.{ChannelOk, ChannelsOk, ConnOk, is_live}
use libgilberta.Invariant.Access.{ConnOk-with_channel}
use libgilberta.Invariant.Stage.{Stage, plain, ready, opening, idle, StageOk, At, plain_of_idle}
use libgilberta.Invariant.Turn.{
  Setting, Turn, Turn->>=, Turn->>, Turn-option, Turn-get_ctx, Turn-get_conn, Turn-put_conn,
  Turn-modify_conn, Turn-pure, Turn-tell, Turn-after,
}
use libgilberta.Invariant.Turn.Calls.{Turn-free_queues, Turn-push_event}
use libgilberta.Invariant.Turn.Channels.{acked-ChannelsOk, some≢none}

-- The invariant reads only the state and the channels of a connection.
pub ConnOk-same :
    {n : ℕ} (c d : Conn) → d.state ≡ c.state → d.channels ≡ c.channels → ConnOk n c → ConnOk n d
ConnOk-same {n = n} c d state channels v = record {
  live = λ used nothing. v.live (subst (λ x. is_live x ≡ true) state used) (sym channels ∙ nothing);
  shape = subst (ChannelsOk n) (sym channels) v.shape;
}

pub StageOk-same :
    (n : ℕ) (st : Stage) (j : ℕ) (c d : Conn)
    → d.state ≡ c.state
    → d.channels ≡ c.channels
    → StageOk n st j c
    → StageOk n st j d
StageOk-same n plain j c d state channels v = ConnOk-same c d state channels v
StageOk-same n (ready i) j c d state channels v =
    (ConnOk-same c d state channels v.0, λ same nothing. v.1 same (sym channels ∙ nothing))
StageOk-same n (opening i) j c d state channels v =
    (subst (ChannelsOk n) (sym channels) v.0, λ other. ConnOk-same c d state channels (v.1 other))
StageOk-same n (idle i) j c d state channels v = (
  ConnOk-same c d state channels v.0,
  λ same. subst (λ x. is_live x ≡ false) (sym state) (v.1 same),
)

-- A state that does not use the channels, whatever they are.
pub ConnOk-of_dead :
    {n : ℕ} (c : Conn) → is_live c.state ≡ false → ChannelsOk n c.channels → ConnOk n c
ConnOk-of_dead c dead shape = record { live = λ used. ground (arith, used, dead); shape = shape }

with_channel≢none :
    (con : Conn) (ch : ℕ) (c : Channel)
    → con.channels ≢ none
    → (with_channel ch c con).channels ≢ none
with_channel≢none con ch c has = go con.channels has
  where
    go :
        (o : Option Channels)
        → o ≢ none
        → (with_channel ch c (record con { channels = o })).channels ≢ none
    go none has = has
    go (some chans) has = some≢none

-- A channel written back to a connection that has them.
pub StageOk-with_channel :
    {n : ℕ} {i : ℕ} (con : Conn) (ch : ℕ) (c : Channel)
    → StageOk n (ready i) i con
    → ChannelOk c
    → StageOk n (ready i) i (with_channel ch c con)
StageOk-with_channel con ch c v well =
    (ConnOk-with_channel con ch c v.0 well, λ same. with_channel≢none con ch c (v.1 same))

module _ {e : Setting} {st : Stage} where
  open e use {os, n, k}

  pub Turn-put_same :
      (i : ℕ) (c d : Conn)
      → d.state ≡ c.state
      → d.channels ≡ c.channels
      → StageOk n st i c
      → Turn e st st (put_conn i d)
  Turn-put_same i c d state channels v =
      Turn-put_conn i d (StageOk-same n st i c d state channels v) (λ j x other w. w)

  pub Turn-modify_same :
      (i : ℕ) (f : Conn → Conn)
      → i < k
      → ((c : Conn) → (f c).state ≡ c.state)
      → ((c : Conn) → (f c).channels ≡ c.channels)
      → Turn e st st (modify_conn i f)
  Turn-modify_same i f lt state channels =
      Turn-modify_conn i f lt (λ c v. StageOk-same n st i c (f c) (state c) (channels c) v)
        (λ j x other w. w)

-- A search finds a connection of the context.
pub found_lt :
    {n k : ℕ} {st : Stage} (ctx : Ctx) (test : Conn → Bool) (i : ℕ)
    → At n k st ctx
    → find_index test ctx.connections ≡ some i
    → i < k
found_lt ctx test i at e =
    omega (arith, find_index-lt test ctx.connections e, at.connections_length)

module _ {e : Setting} where
  open e use {os, n, k, benign}

  -- A branch of `glb_tick` that looks for the connection of a packet.
  pub Turn-glbctx_findconn :
      {A : Type 0} {st st' : Stage} (pkg : Pkg) (m : M (os.World) A) (f : Ctx → ℕ → M (os.World) A)
      → Turn e st st' m
      → ((ctx : Ctx) → At n k st ctx → (i : ℕ) → i < k → Turn e st st' (f ctx i))
      → Turn e st st' (
          get_ctx >>= λ ctx.
          elim (glbctx_findconn ctx.connections pkg.header.client_gen pkg.header.client_id) [
            | none ↦ m
            | some i ↦ f ctx i
          ])
  unfolding glbctx_findconn
  Turn-glbctx_findconn pkg m f absent found = Turn-get_ctx _ (λ ctx at.
      Turn-option (find_index (same_id pkg.header.client_gen pkg.header.client_id) ctx.connections)
        m (f ctx) (λ _. absent)
        (λ i hit.
          found ctx at i
            (found_lt ctx (same_id pkg.header.client_gen pkg.header.client_id) i at hit)))

  pub Turn-put_channel :
      (i : ℕ) (con : Conn) (ch : ℕ) (c : Channel)
      → StageOk n (ready i) i con
      → ChannelOk c
      → Turn e (ready i) (ready i) (put_conn i (with_channel ch c con))
  Turn-put_channel i con ch c v well =
      Turn-put_conn i _ (StageOk-with_channel con ch c v well) (λ j x other w. w)

  -- A connection is put into a state that does not use its channels.
  pub Turn-put_dead :
      (i : ℕ) (d : Conn)
      → is_live d.state ≡ false
      → ChannelsOk n d.channels
      → Turn e plain plain (put_conn i d)
  Turn-put_dead i d dead shape = Turn-put_conn i d (ConnOk-of_dead d dead shape) (λ j x other w. w)

  pub Turn-glbctx_writeack :
      (i ack : ℕ) → i < k → Turn e (ready i) (ready i) (glbctx_writeack os i ack)
  unfolding glbctx_writeack ◌>>=◌ deref
  Turn-glbctx_writeack i ack lt =
      Turn-get_conn i _ lt (λ con v. go con con.channels v.0.shape (v.1 refl))
    where
      go :
          (con : Conn) (o : Option Channels)
          → ChannelsOk n o
          → o ≢ none
          → Turn e (ready i) (ready i) (
              deref o >>= λ chans.
              put_conn i (record con { channels = some (acked con ack chans) }))
      go con none shape has = absurd (has refl)
      go con (some chans) shape has =
          Turn-put_conn i _
            (
              record { live = λ _. some≢none; shape = acked-ChannelsOk con ack chans shape },
              λ _. some≢none,
            )
            (λ j x other w. w)

  -- The channels go; what is then known of the connection depends on its state.
  pub Turn-glbctx_freeconchannels :
      {st st' : Stage} (i : ℕ)
      → i < k
      → ((j : ℕ) (c : Conn) → StageOk n st j c → StageOk n st' j c)
      → ((c : Conn) → StageOk n st i c → StageOk n st' i (record c { channels = none }))
      → Turn e st st' (glbctx_freeconchannels os i)
  unfolding glbctx_freeconchannels
  Turn-glbctx_freeconchannels {st} {st'} i lt less gone = Turn-get_conn i _ lt (λ con v.
      Turn-option con.channels _ _ (λ _. Turn-after st _ less (Turn-pure invalid_argument))
        (λ chans _. Turn->> _ _ (Turn-free_queues chans.items) (
          Turn->> _ _ (Turn-tell _ (λ w. benign.on_free w chans.block)) (
            Turn->> _ _ (Turn-put_conn i _ (gone con v) (λ j d other w. less j d w))
              (Turn-pure success)))))

  -- A connection is marked as closed.
  pub Turn-closed :
      (i : ℕ) → i < k → Turn e plain (idle i) (modify_conn i (λ con. record con { state = closed }))
  Turn-closed i lt =
      Turn-modify_conn i _ lt
        (λ c v. (ConnOk-of_dead (record c { state = closed }) refl v.shape, λ same. refl))
        (λ j d other v. (v, λ same. absurd (other same)))

  pub Turn-close_conn :
      (i : ℕ) (reason : DisconnectReason) → i < k → Turn e plain plain (close_conn os i reason)
  unfolding close_conn
  Turn-close_conn i reason lt = Turn->> _ _ (Turn-closed i lt) (
      Turn->>= _ _
        (Turn-glbctx_freeconchannels i lt (λ j c v. v)
          (λ c v. (ConnOk-of_dead (record c { channels = none }) (v.1 refl) tt, v.1)))
        (λ status.
          Turn-after (idle i) _ plain_of_idle (Turn-push_event (Event.disconnect i reason))))
