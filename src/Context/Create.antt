-- ===== src/Context/Create.antt =====
-- `glbctx_create` and `glbctx_destroy` of src/libgilberta/context.c on POSIX.
use libgilberta.Base.{
  ℕ, zero, suc, ◌+◌, ◌*◌, List, [], ◌∷◌, Option, none, some, Bool, true, false, take, replicate,
  bit_and, ◌==◌, if◌then◌else◌,
}
use libgilberta.Status.{ErrorCode, success}
use libgilberta.Queue.Slots
use libgilberta.Queue.Slots.{Queue}
use libgilberta.State.{Addr, closed, ChanConfig, Conn, Ctx, flag_bind_port}
use libgilberta.Os.{
  Os, LogLevel, no_socket, no_nonblocking_mode, binding, no_binding, context_created,
  context_destroyed, no_memory_for_queue,
}
use libgilberta.Effect.{M, pure, get_ctx, tell, ◌>>=◌, ◌>>◌}
use libgilberta.Context.{sizeof_queue, queue_free, glbctx_freeconchannels}

-- `glbcfg_t`. An allocator or a logger of its own is part of the outside world.
pub record Config : Type 0 where
  pub ip : Option (List ℕ)
  pub port : ℕ
  pub flags : ℕ
  pub channel_count : ℕ
  pub eventqueue_length : ℕ
  pub max_connections : ℕ
  pub channels : List ChanConfig

abbrev pub sizeof_ctx : ℕ
sizeof_ctx = 216

abbrev pub sizeof_conn : ℕ
sizeof_conn = 80

abbrev pub sizeof_chan : ℕ
sizeof_chan = 2

abbrev pub sizeof_event : ℕ
sizeof_event = 64

-- A connection of the array after `memset`.
abbrev pub zero_conn : Conn
zero_conn = record {
  peer_addr = record { sin_family = 0; sin_port = 0; s_addr = 0 };
  conn_id = record { id = 0; generation = 0 };
  state = closed;
  retry = 0;
  keepalive_retry = 0;
  loss_count = 0;
  desync_count = 0;
  rtt = 0;
  seq = 0;
  ack = 0;
  channels = none;
  time = 0;
  keepalive = 0;
}

abbrev pub is_server : ℕ → Bool
is_server flags = elim (bit_and flags flag_bind_port == 0) [ true ↦ false | false ↦ true ]

-- "0.0.0.0".
abbrev any_ip : List ℕ
any_ip = 48 ∷ 46 ∷ 48 ∷ 46 ∷ 48 ∷ 46 ∷ 48 ∷ []

abbrev ip_text : Option (List ℕ) → List ℕ
ip_text none = any_ip
ip_text (some text) = text

-- The context before its socket and its event queue are there. `snprintf` keeps 127 characters.
abbrev pub blank_ctx : Config → ℕ → ℕ → Ctx
blank_ctx config block conns = record {
  block = block;
  sock = none;
  eventqueue = Slots.init 0 0;
  connections = replicate conns zero_conn;
  connection_count = conns;
  error = success;
  flags = config.flags;
  channel_count = config.channel_count;
  client_gen = 0;
  client_id = 1;
  recv_limit = 0;
  send_limit = 0;
  inet_port = config.port;
  inet_addr = take 127 (ip_text config.ip);
  channel_configs = take config.channel_count config.channels;
}

abbrev pub connection_total : Config → ℕ
connection_total config = if is_server config.flags then config.max_connections else 1

abbrev pub event_capacity : Config → ℕ
event_capacity config = if config.eventqueue_length == 0 then 1024 else config.eventqueue_length

module _ (os : Os) where
  open os use {World, malloc, free, log, socket, set_nonblocking, bind, close, inet_pton, htons}

  -- `GLB_CreateSocket`: the socket, if there is one now, and whether all went well. A socket whose
  -- mode cannot be set stays open.
  unfoldable pub create_socket : World → Option ℕ × Bool × World
  create_socket w =
      let (sock, w₁) = socket w in
      elim sock [
        | none ↦ (none, false, log w₁ LogLevel.error no_socket)
        | some s ↦
            let (done, w₂) = set_nonblocking w₁ s in
            if done
            then (some s, true, w₂)
            else (some s, false, log w₂ LogLevel.error no_nonblocking_mode)
      ]

  -- The address that `GLB_BindSocket` binds to; the address part stays 0 if the text is none.
  abbrev pub server_addr : Ctx → Addr
  server_addr ctx = record {
    sin_family = 2;
    sin_port = htons ctx.inet_port;
    s_addr = elim (inet_pton ctx.inet_addr) [ none ↦ 0 | some ip ↦ ip ];
  }

  -- `GLB_BindSocket`.
  unfoldable pub bind_socket : Ctx → ℕ → World → Bool × World
  bind_socket ctx s w =
      let (done, w₁) = bind (log w LogLevel.info binding) s (server_addr ctx) in
      if done then (true, w₁) else (false, log w₁ LogLevel.error no_binding)

  -- `GLB_CloseSocket`.
  unfoldable pub close_socket : Option ℕ → World → World
  close_socket none w = w
  close_socket (some s) w = close w s

  -- The last part of `glbctx_create`: the event queue.
  unfoldable pub add_eventqueue : Config → Ctx → World → Option Ctx × World
  unfolding close_socket
  add_eventqueue config ctx w =
      let (block, w₁) = malloc w (sizeof_queue + event_capacity config * sizeof_event) in
      elim block [
        | none ↦
            let logged = log w₁ LogLevel.error no_memory_for_queue in
            (none, free (close_socket ctx.sock logged) ctx.block)
        | some b ↦ (
          some (record ctx { eventqueue = Slots.init b (event_capacity config); error = success }),
          log w₁ LogLevel.info context_created,
        )
      ]

  -- The part after the socket is there.
  unfoldable pub add_binding : Config → Ctx → ℕ → World → Option Ctx × World
  unfolding bind_socket add_eventqueue close_socket
  add_binding config ctx s w =
      if is_server config.flags
      then (let (done, w₁) = bind_socket ctx s w in
          if done
          then add_eventqueue config ctx w₁
          else (none, free (close_socket (some s) w₁) ctx.block))
      else add_eventqueue config ctx w

  -- `glbctx_create`; `none` for NULL, as argument and as result.
  unfoldable pub glbctx_create : Option Config → World → Option Ctx × World
  unfolding create_socket add_binding
  glbctx_create none w = (none, w)
  glbctx_create (some config) w =
      let conns = connection_total config in
      let size = sizeof_ctx + sizeof_conn * conns + sizeof_chan * config.channel_count in
      if config.channel_count == 0
      then (none, w)
      else (let (block, w₁) = malloc w size in
          elim block [
            | none ↦ (none, w₁)
            | some b ↦
                let (sock, done, w₂) = create_socket w₁ in
                elim sock [
                  | none ↦ (none, free w₂ b)
                  | some s ↦
                      if done
                      then add_binding config (record (blank_ctx config b conns) { sock = some s })
                          s w₂
                      else (none, free w₂ b)
                ]
          ])

  -- The loop of `glbctx_destroy` over the connections.
  unfoldable pub free_all_channels : ℕ → ℕ → M World (Unit {0})
  free_all_channels zero i = pure tt
  free_all_channels (suc left) i = do
    status ← glbctx_freeconchannels os i
    free_all_channels left (i + 1)

  -- `glbctx_destroy`. The state's context is gone afterwards.
  unfoldable pub glbctx_destroy : M World ErrorCode
  unfolding free_all_channels close_socket
  glbctx_destroy = do
    ctx ← get_ctx
    queue_free os (some ctx.eventqueue)
    free_all_channels ctx.connection_count 0
    tell (close_socket ctx.sock)
    tell (λ w. log w LogLevel.info context_destroyed)
    tell (λ w. free w ctx.block)
    pure success
