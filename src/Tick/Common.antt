-- ===== src/Tick/Common.antt =====
-- What several branches of `glb_tick` (src/libgilberta/gilberta.c) do.
use libgilberta.Base.{ℕ, Bool, true, false, not, bit_and, get_elem?, ◌==◌}
use libgilberta.Status.{ErrorCode, success, DisconnectReason}
use libgilberta.Queue.Slots
use libgilberta.State.{Conn, closed, Channel, Event, channel_flag_reliable}
use libgilberta.Os.{Os}
use libgilberta.Effect.{M, get_ctx, put_ctx, deref, get_conn, put_conn, ◌>>=◌, ◌>>◌}
use libgilberta.Context.{glbctx_freeconchannels}

-- `GLB_MAX_RETRY`, `GLB_RETRY_TIMEOUT`, `GLB_RECV_LIMIT_PER_TICK`, `GLB_RETRANSMISSION_TIMEOUT`,
-- `GLB_KEEPALIVE_RETRY`, `GLB_KEEPALIVE_TIME`.
abbrev pub max_retry : ℕ
max_retry = 5

abbrev pub retry_timeout : ℕ
retry_timeout = 100

abbrev pub recv_limit_per_tick : ℕ
recv_limit_per_tick = 16

abbrev pub retransmission_timeout : ℕ
retransmission_timeout = 100

abbrev pub keepalive_retry_limit : ℕ
keepalive_retry_limit = 8

abbrev pub keepalive_time : ℕ
keepalive_time = 200

abbrev pub is_success : ErrorCode → Bool
is_success success = true
is_success _ = false

abbrev pub is_reliable : Channel → Bool
is_reliable ch = not (bit_and ch.flags channel_flag_reliable == 0)

module _ {W : Type 0} where
  -- `con->field = …` through the pointer to connection `i`.
  unfoldable pub modify_conn : ℕ → (Conn → Conn) → M W (Unit {0})
  modify_conn i f = do con ← get_conn i; put_conn i (f con)

  -- `glbqueue_push(ctx->eventqueue, &event)`, whose status is ignored.
  unfoldable pub push_event : Event → M W (Unit {0})
  push_event e = do
    ctx ← get_ctx
    put_ctx (record ctx { eventqueue = (Slots.push ctx.eventqueue e).1 })

  -- `con->channels[ch]`.
  unfoldable pub get_channel : ℕ → ℕ → M W Channel
  get_channel i ch = do
    con ← get_conn i
    chans ← deref con.channels
    deref (get_elem? chans.items ch)

module _ (os : Os) where
  open os use {World}

  -- The end of a connection that is not closed yet, with the event for the application.
  unfoldable pub close_conn : ℕ → DisconnectReason → M World (Unit {0})
  unfolding push_event
  close_conn i reason = do
    modify_conn i (λ con. record con { state = closed })
    status ← glbctx_freeconchannels os i
    push_event (Event.disconnect i reason)
