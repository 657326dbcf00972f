-- ===== src/Api.antt =====
-- The public functions of src/libgilberta/gilberta.c other than `glb_tick` and `glb_getstring`; Api/Lifetime
-- has `glb_create` and `glb_destroy`.
-- A pointer argument that may be NULL is an option; the context is that of the state.
pub mod Events
pub mod Messages
pub mod Sending
pub mod Lifetime
use libgilberta.Base.{
  ℕ, ◌+◌, List, Option, none, some, Bool, true, false, not, ◌||◌, length, take, ltb, leb, ◌==◌,
  if◌then◌else◌,
}
use libgilberta.Base.Memory.{load, patch}
use libgilberta.Base.Words.{u16, u32}
use libgilberta.Status.{
  ErrorCode, success, invalid_argument, queue_full, queue_empty, message_too_long,
  connection_closed,
}
use libgilberta.Queue.Slots
use libgilberta.Packet.{Pkg, glbpkg_init, flag_data, mtu}
use libgilberta.State.{Ctx, Conn, ConnState, syn_sent, fin_sent, Channel, Event}
use libgilberta.Os.{Os, LogLevel, invalid_address}
use libgilberta.Effect.{M, pure, get_ctx, put_ctx, deref, get_conn, put_conn, tell, ◌>>=◌, ◌>>◌}
use libgilberta.Timer.{glbtime_start}
use libgilberta.Context.{is_established, glbctx_generateseq}
use libgilberta.Tick.Common.{get_channel}
use libgilberta.Tick.Data.{with_channel}

-- `glbsendinfo_t` and `glbrecvinfo_t`; of the receive buffer only whether there is one.
pub record SendInfo : Type 0 where
  pub bytes : Option (List ℕ)
  pub con : Option ℕ
  pub len : ℕ
  pub channel_id : ℕ

pub record RecvInfo : Type 0 where
  pub has_buffer : Bool
  pub con : Option ℕ
  pub buflen : ℕ
  pub channel_id : ℕ

-- `glbconinfo_t`.
pub record ConInfo : Type 0 where
  pub inet_addr : List ℕ
  pub inet_port : ℕ
  pub state : ConnState
  pub channel_count : ℕ
  pub rtt : ℕ
  pub loss : ℕ
  pub desync : ℕ

-- The first check of `glb_send`: the connection and the data, if nothing is missing.
unfoldable pub send_args : Ctx → SendInfo → Option (ℕ × List ℕ)
send_args ctx info = elim info.con [
  | none ↦ none
  | some i ↦ elim info.bytes [
    | none ↦ none
    | some bytes ↦
        if info.len == 0 || leb ctx.channel_count info.channel_id then none else some (i, bytes)
  ]
]

-- The packet that `glb_send` builds in the uninitialised `local`, before its timestamp.
unfoldable pub data_packet : Pkg → Conn → Channel → ℕ → List ℕ → Pkg
data_packet local con c channel_id bytes =
    let blank = glbpkg_init local con.conn_id flag_data channel_id in
    record blank {
      header = record (blank.header) { seq = c.seq; ack = c.ack; payload_len = u16 (length bytes) };
      payload = patch bytes local.payload;
      retransmit_count = 0;
    }

abbrev pub is_queue_full : ErrorCode → Bool
is_queue_full queue_full = true
is_queue_full _ = false

-- The end of `glb_send`: into the send queue, and the next number unless it was full.
unfoldable pub enqueue : Channel → Pkg → ErrorCode × Channel
enqueue c pkg =
    let (status, q) = Slots.push c.s_queue pkg in
    if is_queue_full status
    then (queue_full, record c { s_queue = q })
    else (success, record c { s_queue = q; seq = u32 (c.seq + 1) })

module _ {W : Type 0} where
  unfoldable pub glb_geterror : M W ErrorCode
  glb_geterror = do ctx ← get_ctx; pure ctx.error

  -- `glb_pollevent`; the event is what is stored through `event`.
  unfoldable pub glb_pollevent : M W (ErrorCode × Option Event)
  glb_pollevent = do
    ctx ← get_ctx
    let (status, event, q) = Slots.pop ctx.eventqueue
    if Slots.size ctx.eventqueue == 0
        then pure (queue_empty, none)
        else (do put_ctx (record ctx { eventqueue = q }); pure (success, event))

  -- `glb_popdata`; the bytes are what is copied into the buffer, and their number is `datalen`.
  unfoldable pub glb_popdata : Option RecvInfo → M W (ErrorCode × Option (List ℕ))
  unfolding get_channel
  glb_popdata none = pure (invalid_argument, none)
  glb_popdata (some info) = do
    ctx ← get_ctx
    elim info.con [
      | none ↦ pure (invalid_argument, none)
      | some i ↦
          if not info.has_buffer || (info.buflen == 0) || leb ctx.channel_count info.channel_id
          then pure (invalid_argument, none)
          else (do
            con ← get_conn i
            c ← get_channel i info.channel_id
            elim (Slots.peek c.r_queue) [
              | none ↦ pure (queue_empty, none)
              | some p ↦
                  if ltb info.buflen p.header.payload_len
                  then pure (invalid_argument, none)
                  else (do
                    put_conn i (
                        with_channel info.channel_id
                          (record c { r_queue = (Slots.pop c.r_queue).2 }) con)
                    pure (success, some (take p.header.payload_len p.payload)))
            ])
    ]

module _ (os : Os) where
  open os use {World, inet_pton, htons, ntohs, inet_ntop, log}

  -- `glb_connect`.
  unfoldable pub glb_connect : M World ErrorCode
  glb_connect = do
    ctx ← get_ctx
    con ← get_conn 0
    let numbered = glbctx_generateseq ctx con 0
    let addr = record (con.peer_addr) { sin_family = 2; sin_port = htons ctx.inet_port }
    let fresh = record numbered {
      conn_id = record { id = 0xffff; generation = 0 };
      loss_count = 0;
      rtt = 0;
    }
    elim (inet_pton ctx.inet_addr) [
      | none ↦ (do
        put_conn 0 (record fresh { peer_addr = addr })
        tell (λ w. log w LogLevel.error invalid_address)
        pure invalid_argument)
      | some ip ↦ (do
        time ← glbtime_start os 0
        put_conn 0 (record fresh {
          peer_addr = record addr { s_addr = ip };
          state = syn_sent;
          retry = 0;
          time = time;
        })
        pure success)
    ]

  -- `glb_close`.
  unfoldable pub glb_close : Option ℕ → M World ErrorCode
  glb_close none = pure invalid_argument
  glb_close (some i) = do
    con ← get_conn i
    if is_established con.state
        then (do
          time ← glbtime_start os 0
          put_conn i (record con { state = fin_sent; retry = 0; time = time })
          pure success)
        else pure connection_closed

  -- `glb_send` after its first check, with what that check found.
  unfoldable pub send_checked : Pkg → SendInfo → Option (ℕ × List ℕ) → M World ErrorCode
  send_checked local info none = pure invalid_argument
  send_checked local info (some (i, source)) =
      if ltb mtu info.len
      then (do
        ctx ← get_ctx
        put_ctx (record ctx { error = message_too_long })
        pure message_too_long)
      else (do
        con ← get_conn i
        if is_established con.state
            then (do
              c ← get_channel i info.channel_id
              bytes ← deref (load source 0 info.len)
              stamp ← glbtime_start os 0
              let pkg = data_packet local con c info.channel_id bytes
              let (status, c') = enqueue c (record pkg { timestamp = stamp })
              put_conn i (with_channel info.channel_id c' con)
              pure status)
            else pure connection_closed)

  -- `glb_send`.
  unfoldable pub glb_send : Pkg → Option SendInfo → M World ErrorCode
  glb_send local none = pure invalid_argument
  glb_send local (some info) = do ctx ← get_ctx; send_checked local info (send_args ctx info)

  -- `glb_getconinfo`: what is stored through `info`.
  unfoldable pub glb_getconinfo : Option ℕ → M World (ErrorCode × Option ConInfo)
  glb_getconinfo none = pure (invalid_argument, none)
  glb_getconinfo (some i) = do
    ctx ← get_ctx
    con ← get_conn i
    pure (
      success,
      some (record {
        inet_addr = inet_ntop con.peer_addr.s_addr;
        inet_port = ntohs con.peer_addr.sin_port;
        state = con.state;
        channel_count = ctx.channel_count;
        rtt = con.rtt;
        loss = con.loss_count;
        desync = con.desync_count;
      }),
    )
