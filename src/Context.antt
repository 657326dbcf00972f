-- ===== src/Context.antt =====
-- src/libgilberta/context.c: the context's connections, channels and client identifiers.
-- Context/Create has `glbctx_create` and `glbctx_destroy`.
pub mod Create
pub mod ClientId
pub mod Lookup
pub mod Settled
pub mod Opened
pub mod Balance
pub mod Freed
pub mod Owned
pub mod Closing
use libgilberta.Base.{
  ℕ, zero, suc, ◌+◌, ◌*◌, ◌%◌, List, [], ◌∷◌, ◌++◌, Option, none, some, Bool, true, false, ◌&&◌,
  bit_xor, length, map, set, take, ◌==◌, if◌then◌else◌,
}
use libgilberta.Base.Words.{u16, u32}
use libgilberta.Status.{ErrorCode, success, invalid_argument, out_of_memory}
use libgilberta.Packet.{ConId, Pkg, pkg_size}
use libgilberta.Queue.Slots.{Queue}
use libgilberta.Queue.Slots
use libgilberta.State.{
  Addr, ConnState, closed, established, syn_sent, syn_rcvd, fin_sent, ChanConfig, Channel, Channels,
  Conn, Ctx,
}
use libgilberta.Os.{Os, LogLevel, no_memory_for_queue}
use libgilberta.Effect.{
  M, St, Run, ok, pure, get_ctx, put_ctx, deref, get_conn, put_conn, ask, tell, ◌>>=◌, ◌>>◌,
}

-- Sizes on a 64-bit POSIX platform.
abbrev pub sizeof_queue : ℕ
sizeof_queue = 32

abbrev pub sizeof_channel : ℕ
sizeof_channel = 32

abbrev pub channel_queue_length : ℕ
channel_queue_length = 32

-- `glbctx_generateclientid`: the context afterwards, and what is stored through `dst`.
unfoldable pub glbctx_generateclientid : Ctx → Ctx × ConId
glbctx_generateclientid ctx =
    let next = u16 (ctx.client_id + 1) in
    if next == 0xffff
    then (
      record ctx { client_id = 0 },
      record { id = ctx.client_id; generation = u16 (ctx.client_gen + 1) },
    )
    else (
      record ctx { client_id = next },
      record { id = ctx.client_id; generation = ctx.client_gen },
    )

-- The index of the first connection that passes a test: the loops of the three searches.
unfoldable pub find_index : (Conn → Bool) → List Conn → Option ℕ
find_index test [] = none
find_index test (c ∷ cs) =
    let rest = find_index test cs in
    if test c then some 0 else elim rest [ none ↦ none | some i ↦ some (suc i) ]

abbrev pub is_closed : ConnState → Bool
is_closed closed = true
is_closed _ = false

abbrev pub is_established : ConnState → Bool
is_established established = true
is_established _ = false

abbrev pub same_id : ℕ → ℕ → Conn → Bool
same_id gen id c = c.conn_id.generation == gen && c.conn_id.id == id

abbrev pub same_addr : Addr → Conn → Bool
same_addr addr c = c.peer_addr.s_addr == addr.s_addr && c.peer_addr.sin_port == addr.sin_port

-- `glbctx_findconn` and `glbctx_findconnbyaddr`, over the context's connections.
unfoldable pub glbctx_findconn : List Conn → ℕ → ℕ → Option ℕ
unfolding find_index
glbctx_findconn connections gen id = find_index (same_id gen id) connections

unfoldable pub glbctx_findconnbyaddr : List Conn → Addr → Option ℕ
unfolding find_index
glbctx_findconnbyaddr connections addr = find_index (same_addr addr) connections

-- What `glbctx_findemptyconn` resets in the slot that it returns.
abbrev pub emptied : Conn → Conn
emptied c = record c {
  conn_id = record { id = 0; generation = 0 };
  retry = 0;
  channels = none;
  time = 0;
}

-- `glbctx_findemptyconn`: the connections afterwards, and the slot.
unfoldable pub glbctx_findemptyconn : List Conn → List Conn × Option ℕ
glbctx_findemptyconn [] = ([], none)
glbctx_findemptyconn (c ∷ cs) =
    let (cs', found) = glbctx_findemptyconn cs in
    if is_closed c.state
    then (emptied c ∷ cs, some 0)
    else (c ∷ cs', elim found [ none ↦ none | some i ↦ some (suc i) ])

-- `glbctx_addrequal` of two addresses that are not NULL.
unfoldable pub glbctx_addrequal : Addr → Addr → ErrorCode
glbctx_addrequal a b =
    if a.s_addr == b.s_addr && a.sin_port == b.sin_port then success else ErrorCode.unknown

-- `glbctx_generateseq`: `block` is the context's address.
unfoldable pub glbctx_generateseq : Ctx → Conn → ℕ → Conn
glbctx_generateseq ctx con ack = record con { seq = bit_xor (u32 ctx.block) 0xa5a5a5a5; ack = ack }

-- The channels after `glbctx_writeack`.
abbrev pub acked : Conn → ℕ → Channels → Channels
acked con ack chans = record chans {
  items = map (λ (ch : Channel). record ch { seq = con.seq; ack = ack }) chans.items;
}

module _ (os : Os) where
  open os use {World, malloc, free, log}

  -- `glbqueue_init` of a queue of elements; its two numbers are never 0 at the calls.
  unfoldable pub queue_init : {A : Type 0} → ℕ → ℕ → M World (Option (Queue A))
  queue_init element_size capacity = do
    block ← ask (λ w. malloc w (sizeof_queue + capacity * element_size))
    elim block [
      | none ↦ (do tell (λ w. log w LogLevel.error no_memory_for_queue); pure none)
      | some b ↦ pure (some (Slots.init b capacity))
    ]

  -- `glbqueue_free`.
  unfoldable pub queue_free : {A : Type 0} → Option (Queue A) → M World (Unit {0})
  queue_free none = pure tt
  queue_free (some q) = tell (λ w. free w q.block)

  -- The loop that frees the queues of channels.
  unfoldable pub free_queues : List Channel → M World (Unit {0})
  unfolding queue_free
  free_queues [] = pure tt
  free_queues (ch ∷ chs) = do
    queue_free (some ch.s_queue)
    queue_free (some ch.r_queue)
    free_queues chs

  -- The channel for a configuration, if both of its queues could be allocated.
  abbrev pub new_channel : ChanConfig → Option (Queue Pkg) → Option (Queue Pkg) → Option Channel
  new_channel config none r = none
  new_channel config (some s) none = none
  new_channel config (some s) (some r) = some (record {
    s_queue = s;
    r_queue = r;
    seq = 0;
    ack = 0;
    flags = config.flags;
    priority = config.priority;
  })

  -- The loop of `glbctx_createconchannels` over the configurations that are left, after the
  -- channels `made`; `none` if an allocation failed, when all queues are freed again. `seq` and
  -- `ack` are 0 here where C leaves them unset until `glbctx_writeack`.
  unfoldable pub create_channels : List ChanConfig → List Channel → M World (Option (List Channel))
  unfolding queue_init queue_free free_queues
  create_channels [] made = pure (some made)
  create_channels (config ∷ configs) made = do
    s ← queue_init pkg_size channel_queue_length
    r ← queue_init pkg_size channel_queue_length
    elim (new_channel config s r) [
      | some ch ↦ create_channels configs (made ++ ch ∷ [])
      | none ↦ (do free_queues made; queue_free s; queue_free r; pure none)
    ]

  -- `glbctx_createconchannels` on connection `i`.
  unfoldable pub glbctx_createconchannels : ℕ → M World ErrorCode
  unfolding create_channels
  glbctx_createconchannels i = do
    ctx ← get_ctx
    block ← ask (λ w. malloc w (sizeof_channel * ctx.channel_count))
    con ← get_conn i
    elim block [
      | none ↦ (do put_conn i (record con { channels = none }); pure out_of_memory)
      | some b ↦ (do
        made ← create_channels (take ctx.channel_count ctx.channel_configs) []
        elim made [
          | some items ↦ (do
            put_conn i (record con { channels = some (record { block = b; items = items }) })
            pure success)
          | none ↦ (do
            tell (λ w. free w b)
            put_conn i (record con { channels = none })
            pure out_of_memory)
        ])
    ]

  -- `glbctx_freeconchannels` on connection `i`.
  unfoldable pub glbctx_freeconchannels : ℕ → M World ErrorCode
  unfolding free_queues
  glbctx_freeconchannels i = do
    con ← get_conn i
    elim con.channels [
      | none ↦ pure invalid_argument
      | some chans ↦ (do
        free_queues chans.items
        tell (λ w. free w chans.block)
        put_conn i (record con { channels = none })
        pure success)
    ]

  -- `glbctx_writeack` on connection `i`; channels that are NULL are dereferenced.
  unfoldable pub glbctx_writeack : ℕ → ℕ → M World (Unit {0})
  glbctx_writeack i ack = do
    con ← get_conn i
    chans ← deref con.channels
    put_conn i (record con { channels = some (acked con ack chans) })
