-- ===== src/Tick/Timers.antt =====
-- The second part of `glb_tick` (src/libgilberta/gilberta.c): what each connection does when its
-- timers have run out. The packet buffer is passed along as in the code.
pub mod Repeat
use libgilberta.Base.{ℕ, zero, suc, ◌+◌, ◌*◌, none, some, ltb, leb, if◌then◌else◌}
use libgilberta.Base.Words.{u8, u32, u64}
use libgilberta.Status.{timeout}
use libgilberta.Queue.Slots
use libgilberta.Packet.{Pkg, glbpkg_init, flag_syn, flag_syn_ack, flag_fin, flag_ping}
use libgilberta.State.{closed, established, syn_sent, syn_rcvd, fin_sent, Event}
use libgilberta.Os.{Os}
use libgilberta.Effect.{M, pure, get_ctx, get_conn, put_conn, ◌>>=◌, ◌>>◌}
use libgilberta.Timer.{glbtime_start, glbtime_isexpired}
use libgilberta.Io.{glbio_send}
use libgilberta.Tick.Common.{
  push_event, get_channel, close_conn, is_reliable, max_retry, retry_timeout,
  retransmission_timeout, keepalive_retry_limit, keepalive_time,
}
use libgilberta.Tick.Data.{with_channel}
use libgilberta.Tick.Keepalive.{stamp_high, stamp_low}

-- The packets of the handshake and of PING, with the two numbers that they carry.
abbrev pub numbered : Pkg → ℕ → ℕ → Pkg
numbered blank seq ack = record blank { header = record (blank.header) { seq = seq; ack = ack } }

module _ (os : Os) where
  open os use {World}

  -- Send a handshake packet once more and wait longer for the answer.
  unfoldable pub send_and_wait : ℕ → Pkg → M World Pkg
  send_and_wait i pkg = do
    con ← get_conn i
    (status, sent) ← glbio_send os pkg con.peer_addr
    time ← glbtime_start os (retry_timeout * (con.retry + 1))
    put_conn i (record con { time = time; retry = u8 (con.retry + 1) })
    pure sent

  -- SYN_SENT: repeat the SYN, or give up with an event.
  unfoldable pub syn_sent_expired : ℕ → Pkg → M World Pkg
  unfolding send_and_wait push_event
  syn_sent_expired i pkg = do
    con ← get_conn i
    if leb max_retry con.retry
        then (do
          put_conn i (record con { state = closed })
          push_event (Event.disconnect i timeout)
          pure pkg)
        else send_and_wait i (numbered (glbpkg_init pkg con.conn_id flag_syn 0) con.seq con.ack)

  -- SYN_RCVD: repeat the SYN ACK, or forget the connection.
  unfoldable pub syn_rcvd_expired : ℕ → Pkg → M World Pkg
  unfolding send_and_wait
  syn_rcvd_expired i pkg = do
    con ← get_conn i
    if leb max_retry con.retry
        then (do put_conn i (record con { state = closed }); pure pkg)
        else send_and_wait i (numbered (glbpkg_init pkg con.conn_id flag_syn_ack 0) con.seq con.ack)

  -- FIN_SENT: repeat the FIN, or close the connection.
  unfoldable pub fin_sent_expired : ℕ → Pkg → M World Pkg
  unfolding send_and_wait close_conn
  fin_sent_expired i pkg = do
    con ← get_conn i
    if leb max_retry con.retry
        then (do close_conn os i timeout; pure pkg)
        else send_and_wait i (glbpkg_init pkg con.conn_id flag_fin 0)

  -- The packet at the head of the send queue of channel `ch`, after it was sent: an unreliable
  -- channel drops it; a reliable one keeps it, and counts.
  unfoldable pub after_send : ℕ → ℕ → Pkg → M World (Unit {0})
  unfolding push_event get_channel
  after_send i ch sent = do
    con ← get_conn i
    c ← get_channel i ch
    if is_reliable c
        then (do
          time ← glbtime_start os retransmission_timeout
          let count = u64 (sent.retransmit_count + 1)
          let again = record sent { timestamp = time; retransmit_count = count }
          if ltb max_retry count
              then (do
                put_conn i
                    (record (with_channel ch
                      (record c {
                        s_queue = Slots.poke c.s_queue (record again { retransmit_count = 0 });
                      })
                      con) { loss_count = u32 (con.loss_count + 1) })
                push_event (Event.stalled i sent.header.seq))
              else put_conn i
                  (with_channel ch (record c { s_queue = Slots.poke c.s_queue again }) con))
        else put_conn i
            (with_channel ch (record c { s_queue = (Slots.pop (Slots.poke c.s_queue sent)).2 }) con)

  -- The (re)transmission of channel `ch`.
  unfoldable pub transmit_channel : ℕ → ℕ → M World (Unit {0})
  unfolding after_send get_channel
  transmit_channel i ch = do
    con ← get_conn i
    c ← get_channel i ch
    elim (Slots.peek c.s_queue) [
      | none ↦ pure tt
      | some p ↦ (do
        expired ← glbtime_isexpired os p.timestamp
        if expired
            then (do (status, sent) ← glbio_send os p con.peer_addr; after_send i ch sent)
            else pure tt)
    ]

  -- The loop over the channels, `left` of them from `ch` on.
  unfoldable pub transmit_channels : ℕ → ℕ → ℕ → M World (Unit {0})
  unfolding transmit_channel
  transmit_channels i zero ch = pure tt
  transmit_channels i (suc left) ch = do transmit_channel i ch; transmit_channels i left (ch + 1)

  -- The keep-alive timer of an established connection has run out.
  unfoldable pub keepalive_expired : ℕ → Pkg → M World Pkg
  unfolding close_conn stamp_high stamp_low
  keepalive_expired i pkg = do
    con ← get_conn i
    if ltb keepalive_retry_limit con.keepalive_retry
        then (do close_conn os i timeout; pure pkg)
        else (do
          stamp ← glbtime_start os 0
          (status, sent) ←
              glbio_send os
                (numbered (glbpkg_init pkg con.conn_id flag_ping 0) (stamp_high stamp)
                  (stamp_low stamp))
                con.peer_addr
          keepalive ← glbtime_start os (keepalive_time * (con.keepalive_retry + 1))
          put_conn i
              (record con { keepalive = keepalive; keepalive_retry = u8 (con.keepalive_retry + 1) })
          pure sent)

  unfoldable pub established_step : ℕ → Pkg → M World Pkg
  unfolding transmit_channels keepalive_expired
  established_step i pkg = do
    ctx ← get_ctx
    transmit_channels i ctx.channel_count 0
    con ← get_conn i
    expired ← glbtime_isexpired os con.keepalive
    if expired then keepalive_expired i pkg else pure pkg

  -- A branch that is taken only when the connection's timer has run out.
  unfoldable pub when_expired : ℕ → (ℕ → Pkg → M World Pkg) → Pkg → M World Pkg
  when_expired i body pkg = do
    con ← get_conn i
    expired ← glbtime_isexpired os con.time
    if expired then body i pkg else pure pkg

  -- One round of the loop over the connections. The branches test for different states, and one
  -- that does not `continue` leaves the state as it is, so they are alternatives.
  unfoldable pub connection_step : ℕ → Pkg → M World Pkg
  unfolding syn_sent_expired syn_rcvd_expired fin_sent_expired established_step
  connection_step i pkg = do
    con ← get_conn i
    elim con.state [
      | syn_sent ↦ when_expired i syn_sent_expired pkg
      | syn_rcvd ↦ when_expired i syn_rcvd_expired pkg
      | fin_sent ↦ when_expired i fin_sent_expired pkg
      | established ↦ established_step i pkg
      | closed ↦ pure pkg
    ]

  -- The loop over the connections, `left` of them from `i` on.
  unfoldable pub connection_steps : ℕ → ℕ → Pkg → M World Pkg
  unfolding connection_step
  connection_steps zero i pkg = pure pkg
  connection_steps (suc left) i pkg = do
    sent ← connection_step i pkg
    connection_steps left (i + 1) sent
