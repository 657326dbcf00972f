-- ===== src/Invariant/Turn/Calls.antt =====
-- The functions of src/libgilberta/timer.c, glbio.c and context.c that glb_tick calls, as turns.
use libgilberta.Base.{ℕ, List, [], ◌∷◌, Option, some, none}
use libgilberta.Status.{ErrorCode}
use libgilberta.Queue.Slots.{Queue}
use libgilberta.Queue.Slots.Laws.{push-IsValid}
use libgilberta.Packet.{Pkg}
use libgilberta.State.{Addr, Ctx, Channel, Event}
use libgilberta.Os.{LogLevel, Message}
use libgilberta.Effect.{ask, tell}
use libgilberta.Timer.{timer_get_current_ms, current_ms, glbtime_start, glbtime_isexpired}
use libgilberta.Io.{glbio_send, wire_bytes, with_checksum}
use libgilberta.Context.{queue_free, free_queues}
use libgilberta.Tick.Common.{push_event}
use libgilberta.Invariant.Stage.{Stage, At}
use libgilberta.Invariant.Turn.{
  Setting, Turn, Turn->>=, Turn->>, Turn-get_ctx, Turn-put_ctx, Turn-pure, Turn-ask, Turn-tell,
  turn_rules,
}

-- Only the error code of the context is new.
pub At-error :
    {n k : ℕ} {st : Stage} (ctx : Ctx) (code : ErrorCode)
    → At n k st ctx
    → At n k st (record ctx { error = code })
At-error ctx code v = record {
  channel_total = v.channel_total;
  connection_total = v.connection_total;
  connections_length = v.connections_length;
  configs = v.configs;
  events = v.events;
  each = v.each;
}

module _ {e : Setting} {st : Stage} where
  open e use {os, n, k, benign}

  pub Turn-timer_get_current_ms : Turn e st st (timer_get_current_ms os)
  unfolding timer_get_current_ms
  Turn-timer_get_current_ms =
      Turn->>= (ask os.clock_gettime) _ (Turn-ask os.clock_gettime benign.on_clock_gettime)
        (λ ts. Turn-pure (current_ms ts))

  pub Turn-glbtime_start : (interval : ℕ) → Turn e st st (glbtime_start os interval)
  unfolding glbtime_start
  Turn-glbtime_start interval =
      Turn->>= (timer_get_current_ms os) _ Turn-timer_get_current_ms (λ now. Turn-pure _)

  pub Turn-glbtime_isexpired : (ts : ℕ) → Turn e st st (glbtime_isexpired os ts)
  unfolding glbtime_isexpired
  Turn-glbtime_isexpired ts = search (turn_rules, Turn-timer_get_current_ms)

  pub Turn-log :
      (level : LogLevel) (message : Message) → Turn e st st (tell (λ w. os.log w level message))
  Turn-log level message = Turn-tell _ (λ w. benign.on_log w level message)

  pub Turn-glbio_send : (pkg : Pkg) (to_addr : Addr) → Turn e st st (glbio_send os pkg to_addr)
  unfolding glbio_send
  Turn-glbio_send pkg to_addr =
      Turn->>= (ask (λ w. os.sendto w (wire_bytes (with_checksum pkg)) to_addr)) _
        (Turn-ask _ (λ w. benign.on_sendto w (wire_bytes (with_checksum pkg)) to_addr))
        (λ sent. Turn-get_ctx _ (λ ctx v. search (turn_rules, Turn-put_ctx, At-error)))

  pub Turn-push_event : (event : Event) → Turn e st st (push_event event)
  unfolding push_event
  Turn-push_event event = Turn-get_ctx _ (λ ctx v. Turn-put_ctx _ (record {
    channel_total = v.channel_total;
    connection_total = v.connection_total;
    connections_length = v.connections_length;
    configs = v.configs;
    events = push-IsValid ctx.eventqueue v.events event;
    each = v.each;
  }))

  pub Turn-queue_free : {A : Type 0} (q : Option (Queue A)) → Turn e st st (queue_free os q)
  unfolding queue_free
  Turn-queue_free none = Turn-pure tt
  Turn-queue_free (some q) = Turn-tell _ (λ w. benign.on_free w q.block)

  pub Turn-free_queues : (chs : List Channel) → Turn e st st (free_queues os chs)
  unfolding free_queues
  Turn-free_queues [] = Turn-pure tt
  Turn-free_queues (ch ∷ chs) =
      Turn->> _ _ (Turn-queue_free (some ch.s_queue))
        (Turn->> _ _ (Turn-queue_free (some ch.r_queue)) (Turn-free_queues chs))
