-- ===== src/Invariant/Turn/Timers.antt =====
-- The second part of glb_tick (src/libgilberta/gilberta.c), the timers of the connections, as turns.
use libgilberta.Base.{ℕ, zero, suc, ◌+◌, ◌≤◌, ◌<◌, ◌≡◌, refl, true, false, arith, ltb}
use libgilberta.Base.Words.{u64}
use libgilberta.Status.{timeout}
use libgilberta.Queue.Slots
use libgilberta.Queue.Slots.Laws.{pop-IsValid}
use libgilberta.Queue.Slots.Cases.{poke_any-IsValid}
use libgilberta.Packet.{Pkg}
use libgilberta.State.{Conn, ConnState, closed, established, syn_sent, syn_rcvd, fin_sent, Channel}
use libgilberta.Effect.{M, pure, put_conn}
use libgilberta.Tick.Common.{is_reliable, max_retry, retransmission_timeout, keepalive_retry_limit}
use libgilberta.Tick.Data.{with_channel}
use libgilberta.Tick.Timers.{
  send_and_wait, syn_sent_expired, syn_rcvd_expired, fin_sent_expired, after_send, transmit_channel,
  transmit_channels, keepalive_expired, established_step, when_expired, connection_step,
  connection_steps,
}
use libgilberta.Invariant.{ChannelOk, is_live}
use libgilberta.Invariant.Stage.{plain, ready, StageOk, plain_of_ready}
use libgilberta.Invariant.Turn.{
  Setting, Turn, Turn->>=, Turn->>, Turn-if, Turn-option, Turn-get_ctx, Turn-get_conn, Turn-before,
  Turn-pure, turn_rules,
}
use libgilberta.Invariant.Turn.Live.{Turn-get_live, Turn-get_channel}
use libgilberta.Invariant.Turn.Calls.{
  Turn-glbtime_start, Turn-glbtime_isexpired, Turn-glbio_send, Turn-push_event,
}
use libgilberta.Invariant.Turn.Writes.{
  Turn-put_same, Turn-put_channel, Turn-put_dead, Turn-close_conn, StageOk-with_channel,
}

poke-ChannelOk :
    (c : Channel) (p : Pkg)
    → ChannelOk c
    → ChannelOk (record c { s_queue = Slots.poke c.s_queue p })
poke-ChannelOk c p v = record {
  s_valid = poke_any-IsValid c.s_queue p v.s_valid;
  r_valid = v.r_valid;
}

drop-ChannelOk :
    (c : Channel) (p : Pkg)
    → ChannelOk c
    → ChannelOk (record c { s_queue = (Slots.pop (Slots.poke c.s_queue p)).2 })
drop-ChannelOk c p v = record {
  s_valid = pop-IsValid (Slots.poke c.s_queue p) (poke_any-IsValid c.s_queue p v.s_valid);
  r_valid = v.r_valid;
}

module _ {e : Setting} where
  open e use {os, n, k}

  Turn-send_and_wait : (i : ℕ) (pkg : Pkg) → i < k → Turn e plain plain (send_and_wait os i pkg)
  unfolding send_and_wait
  Turn-send_and_wait i pkg lt = Turn-get_conn i _ lt (λ con v.
      Turn->>= _ _ (Turn-glbio_send pkg con.peer_addr) (λ sent.
        Turn->>= _ _ (Turn-glbtime_start _)
          (λ time. Turn->> _ _ (Turn-put_same i con _ refl refl v) (Turn-pure sent.1))))

module _ {e : Setting} where
  open e use {os, n, k}

  Turn-syn_sent_expired :
      (i : ℕ) (pkg : Pkg) → i < k → Turn e plain plain (syn_sent_expired os i pkg)
  unfolding syn_sent_expired
  Turn-syn_sent_expired i pkg lt =
      Turn-get_conn i _ lt
        (λ con v. search (turn_rules, Turn-put_dead, v.shape, Turn-push_event, Turn-send_and_wait))

  Turn-syn_rcvd_expired :
      (i : ℕ) (pkg : Pkg) → i < k → Turn e plain plain (syn_rcvd_expired os i pkg)
  unfolding syn_rcvd_expired
  Turn-syn_rcvd_expired i pkg lt =
      Turn-get_conn i _ lt
        (λ con v. search (turn_rules, Turn-put_dead, v.shape, Turn-send_and_wait))

  Turn-fin_sent_expired :
      (i : ℕ) (pkg : Pkg) → i < k → Turn e plain plain (fin_sent_expired os i pkg)
  unfolding fin_sent_expired
  Turn-fin_sent_expired i pkg lt =
      Turn-get_conn i _ lt (λ con v. search (turn_rules, Turn-close_conn, Turn-send_and_wait))

  -- The loss counter of the connection that the channel is written back to.
  put_loss :
      (i ch : ℕ) (con : Conn) (c : Channel) (count : ℕ)
      → StageOk n (ready i) i con
      → ChannelOk c
      → Turn e
          (ready i)
          (ready i)
          (put_conn i (record (with_channel ch c con) { loss_count = count }))
  put_loss i ch con c count v well =
      Turn-put_same i (with_channel ch c con) _ refl refl (StageOk-with_channel con ch c v well)

  Turn-after_send :
      (i ch : ℕ) (sent : Pkg)
      → i < k
      → ch < n
      → Turn e (ready i) (ready i) (after_send os i ch sent)
  unfolding after_send
  Turn-after_send i ch sent lt inside = Turn-get_conn i _ lt (λ con v.
      Turn-get_channel i ch _ lt inside (λ c well.
        Turn-if (is_reliable c) _ _
          (λ _. Turn->>= _ _ (Turn-glbtime_start retransmission_timeout) (λ time.
            Turn-if (ltb max_retry (u64 (sent.retransmit_count + 1))) _ _
              (λ _.
                Turn->> _ _ (put_loss i ch con _ _ v (poke-ChannelOk c _ well)) (Turn-push_event _))
              (λ _. Turn-put_channel i con ch _ v (poke-ChannelOk c _ well))))
          (λ _. Turn-put_channel i con ch _ v (drop-ChannelOk c sent well))))

module _ {e : Setting} where
  open e use {os, n, k}

  Turn-transmit_channel :
      (i ch : ℕ) → i < k → ch < n → Turn e (ready i) (ready i) (transmit_channel os i ch)
  unfolding transmit_channel
  Turn-transmit_channel i ch lt inside = Turn-get_conn i _ lt (λ con v.
      Turn-get_channel i ch _ lt inside (λ c well.
        Turn-option (Slots.peek c.s_queue) _ _ (λ _. Turn-pure tt)
          (λ p _. search (turn_rules, Turn-glbtime_isexpired, Turn-glbio_send, Turn-after_send))))

  Turn-transmit_channels :
      (i left ch : ℕ)
      → i < k
      → ch + left ≤ n
      → Turn e (ready i) (ready i) (transmit_channels os i left ch)
  unfolding transmit_channels
  Turn-transmit_channels i zero ch lt room = Turn-pure tt
  Turn-transmit_channels i (suc left) ch lt room =
      Turn->> _ _ (Turn-transmit_channel i ch lt (omega arith))
        (Turn-transmit_channels i left (ch + 1) lt (omega arith))

  Turn-keepalive_expired :
      (i : ℕ) (pkg : Pkg) → i < k → Turn e plain plain (keepalive_expired os i pkg)
  unfolding keepalive_expired
  Turn-keepalive_expired i pkg lt = Turn-get_conn i _ lt (λ con v.
      Turn-if (ltb keepalive_retry_limit con.keepalive_retry) _ _
        (λ _. Turn->> _ _ (Turn-close_conn i timeout lt) (Turn-pure pkg))
        (λ _. Turn->>= _ _ (Turn-glbtime_start 0) (λ stamp.
          Turn->>= _ _ (Turn-glbio_send _ con.peer_addr) (λ sent.
            Turn->>= _ _ (Turn-glbtime_start _)
              (λ keepalive. Turn->> _ _ (Turn-put_same i con _ refl refl v) (Turn-pure sent.1))))))

module _ {e : Setting} where
  open e use {os, n, k}

  Turn-established_step :
      (i : ℕ) (pkg : Pkg) → i < k → Turn e (ready i) plain (established_step os i pkg)
  unfolding established_step
  Turn-established_step i pkg lt = Turn-get_ctx _ (λ ctx at.
      Turn->> _ _
        (Turn-transmit_channels i ctx.channel_count 0 lt (omega (arith, at.channel_total)))
        (Turn-before plain _ plain_of_ready (
          Turn-get_conn i _ lt
            (λ con v. search (turn_rules, Turn-glbtime_isexpired, Turn-keepalive_expired)))))

  Turn-when_expired :
      (i : ℕ) (body : ℕ → Pkg → M (os.World) Pkg) (pkg : Pkg)
      → i < k
      → Turn e plain plain (body i pkg)
      → Turn e plain plain (when_expired os i body pkg)
  unfolding when_expired
  Turn-when_expired i body pkg lt then_ =
      Turn-get_conn i _ lt (λ con v. search (turn_rules, Turn-glbtime_isexpired))

  -- In each state, what the state asks for.
  Turn-connection_step : (i : ℕ) (pkg : Pkg) → i < k → Turn e plain plain (connection_step os i pkg)
  unfolding connection_step
  Turn-connection_step i pkg lt =
      Turn-get_live i _ lt (λ con v live. in_use con.state live)
        (λ con v dead. unused con.state dead)
    where
      step : ConnState → M (os.World) Pkg
      step state = elim state [
        | syn_sent ↦ when_expired os i (syn_sent_expired os) pkg
        | syn_rcvd ↦ when_expired os i (syn_rcvd_expired os) pkg
        | fin_sent ↦ when_expired os i (fin_sent_expired os) pkg
        | established ↦ established_step os i pkg
        | closed ↦ pure pkg
      ]

      unused : (state : ConnState) → is_live state ≡ false → Turn e plain plain (step state)
      unused syn_sent dead = Turn-when_expired i _ pkg lt (Turn-syn_sent_expired i pkg lt)
      unused syn_rcvd dead = Turn-when_expired i _ pkg lt (Turn-syn_rcvd_expired i pkg lt)
      unused closed dead = Turn-pure pkg
      unused established dead = ground arith
      unused fin_sent dead = ground arith

      in_use : (state : ConnState) → is_live state ≡ true → Turn e (ready i) plain (step state)
      in_use established live = Turn-established_step i pkg lt
      in_use fin_sent live =
          Turn-before plain _ plain_of_ready
            (Turn-when_expired i _ pkg lt (Turn-fin_sent_expired i pkg lt))
      in_use syn_sent live = ground arith
      in_use syn_rcvd live = ground arith
      in_use closed live = ground arith

  pub Turn-connection_steps :
      (left i : ℕ) (pkg : Pkg) → i + left ≤ k → Turn e plain plain (connection_steps os left i pkg)
  unfolding connection_steps
  Turn-connection_steps zero i pkg room = Turn-pure pkg
  Turn-connection_steps (suc left) i pkg room =
      Turn->>= _ _ (Turn-connection_step i pkg (omega arith))
        (λ sent. Turn-connection_steps left (i + 1) sent (omega arith))
