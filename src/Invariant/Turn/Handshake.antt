-- ===== src/Invariant/Turn/Handshake.antt =====
-- The ACK and SYN ACK branches of glb_tick (src/libgilberta/gilberta.c) as turns.
use libgilberta.Base.{
  ℕ, ◌==◌, not, ◌||◌, ◌<◌, ◌≡◌, refl, Bool, true, false, arith, Bool-cases, inl, inr,
}
use libgilberta.Packet.{Pkg}
use libgilberta.State.{Conn, established, Event}
use libgilberta.Effect.{pure, get_conn, ◌>>=◌, ◌>>◌}
use libgilberta.Context.{is_established}
use libgilberta.Tick.Common.{modify_conn, keepalive_time}
use libgilberta.Tick.Handshake.{
  note_desync, establish, on_ack, open_client, send_client_ack, adopt_id, on_syn_ack, is_syn_sent,
}
use libgilberta.Invariant.Access.{is_live_of_established}
use libgilberta.Invariant.Stage.{Stage, plain, ready, opening, plain_of_ready, opening_of_plain}
use libgilberta.Invariant.Turn.{
  Setting, Turn, Turn->>=, Turn->>, Turn-if, Turn-get_conn, Turn-modify_conn, Turn-after,
  Turn-before, Turn-pure, turn_rules,
}
use libgilberta.Invariant.Turn.Live.{Turn-get_live, Turn-get_channel}
use libgilberta.Invariant.Turn.Calls.{
  Turn-glbtime_start, Turn-log, Turn-glbio_send, Turn-push_event,
}
use libgilberta.Invariant.Turn.Channels.{Turn-glbctx_createconchannels}
use libgilberta.Invariant.Turn.Writes.{Turn-glbctx_findconn, Turn-modify_same, Turn-glbctx_writeack}

module _ {e : Setting} where
  open e use {os, n, k}

  Turn-note_desync : {st : Stage} (b : Bool) → Turn e st st (note_desync os b)
  unfolding note_desync
  Turn-note_desync false = Turn-pure tt
  Turn-note_desync true = Turn-log _ _

  -- The connection is established before it has channels.
  Turn-establish : (i : ℕ) (pkg : Pkg) → i < k → Turn e plain plain (establish os i pkg)
  unfolding establish
  Turn-establish i pkg lt =
      Turn->> _ _
        (Turn-modify_conn i _ lt (λ c v. (v.shape, λ other. absurd (other refl)))
          (λ j d other v. (v.shape, λ _. v)))
        (Turn->>= _ _ (Turn-glbctx_createconchannels i lt) (λ created.
          Turn-after (ready i) _ plain_of_ready (
            Turn->> _ _ (Turn-glbctx_writeack i pkg.header.seq lt) (
              Turn->> _ _ (Turn-push_event (Event.connect i)) (
                Turn-get_channel i 0 _ lt e.has_channels (λ c well.
                  Turn->> _ _ (Turn-modify_same i _ lt (λ _. refl) (λ _. refl)) (
                    Turn->>= _ _ (Turn-glbtime_start keepalive_time) (λ keepalive.
                      Turn->> _ _ (Turn-modify_same i _ lt (λ _. refl) (λ _. refl))
                        (Turn-pure pkg)))))))))

module _ {e : Setting} where
  open e use {os, n, k}

  pub Turn-on_ack : (pkg : Pkg) → Turn e plain plain (on_ack os pkg)
  unfolding on_ack
  Turn-on_ack pkg = Turn-glbctx_findconn pkg _ _ (Turn-pure pkg) (λ ctx at i lt.
      Turn-get_conn i _ lt (λ con v. search (turn_rules, Turn-note_desync, Turn-establish)))

  -- The first SYN ACK: the channels are created before the connection is marked as established.
  Turn-open_client : (pkg : Pkg) → Turn e plain (ready 0) (open_client os pkg)
  unfolding open_client
  Turn-open_client pkg =
      let lt = e.has_connections in
      Turn-before (opening 0) _ opening_of_plain (
        Turn->>= _ _ (Turn-glbctx_createconchannels 0 lt) (λ created.
          Turn->> _ _ (Turn-push_event (Event.connect 0)) (
            Turn->> _ _ (Turn-modify_same 0 _ lt (λ _. refl) (λ _. refl)) (
              Turn->>= _ _ (Turn-glbtime_start keepalive_time) (λ keepalive.
                Turn->> _ _ (Turn-modify_same 0 _ lt (λ _. refl) (λ _. refl)) (
                  Turn->> _ _ (Turn-glbctx_writeack 0 pkg.header.seq lt)
                    (Turn-get_channel 0 0 _ lt e.has_channels (λ c well. Turn-pure tt))))))))

  -- The connection is marked as established: it has channels by now.
  established_ready :
      Turn e (ready 0) (ready 0) (modify_conn 0 (λ c. record c { state = established }))
  established_ready =
      Turn-modify_conn 0 _ e.has_connections
        (λ c v. (record { live = λ _. v.1 refl; shape = v.0.shape }, v.1)) (λ j d other v. v)

module _ {e : Setting} where
  open e use {os, n, k}

  Turn-send_client_ack : (pkg : Pkg) → Turn e (ready 0) plain (send_client_ack os pkg)
  unfolding send_client_ack
  Turn-send_client_ack pkg =
      let lt = e.has_connections in
      Turn-get_conn 0 _ lt (λ con v. Turn-get_channel 0 0 _ lt e.has_channels (λ c well.
        Turn-after (ready 0) _ plain_of_ready
          (search (turn_rules, Turn-glbio_send, established_ready))))

  pub Turn-on_syn_ack : (pkg : Pkg) → Turn e plain plain (on_syn_ack os pkg)
  unfolding on_syn_ack
  Turn-on_syn_ack pkg =
      let lt = e.has_connections in
      Turn->> _ _ (adopted lt) (
        Turn-get_live 0 _ lt
          (λ con v live.
            Turn->> _ _
              (Turn-if (is_established con.state) (pure tt) (open_client os pkg) (λ _. Turn-pure tt)
                (λ _. Turn-before plain _ plain_of_ready (Turn-open_client pkg)))
              (answered lt))
          (λ con v dead.
            Turn->> _ _
              (Turn-if (is_established con.state) (pure tt) (open_client os pkg)
                (λ used. ground (arith, is_live_of_established con used, dead))
                (λ _. Turn-open_client pkg))
              (answered lt)))
    where
      adopted : 0 < k → Turn e plain plain (modify_conn 0 (adopt_id os pkg))
      adopted lt = Turn-modify_same 0 (adopt_id os pkg) lt state channels
        where
          state : (c : Conn) → (adopt_id os pkg c).state ≡ c.state
          state c = elim (Bool-cases (is_syn_sent c.state)) [
            | inl waits ↦ rw waits refl
            | inr other ↦ rw other refl
          ]

          channels : (c : Conn) → (adopt_id os pkg c).channels ≡ c.channels
          channels c = elim (Bool-cases (is_syn_sent c.state)) [
            | inl waits ↦ rw waits refl
            | inr other ↦ rw other refl
          ]

      answered :
          0 < k
          → Turn e (ready 0) plain (
              get_conn 0 >>= λ con'.
              note_desync os (not (con'.seq == pkg.header.ack) || not (con'.ack == pkg.header.seq))
              >> send_client_ack os pkg)
      answered lt =
          Turn-get_conn 0 _ lt
            (λ con v. Turn->> _ _ (Turn-note_desync _) (Turn-send_client_ack pkg))
