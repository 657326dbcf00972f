-- ===== src/Invariant/Turn/Teardown.antt =====
-- The branches of glb_tick (src/libgilberta/gilberta.c) for FIN, FIN ACK, RST, PING and PONG as turns.
use libgilberta.Base.{ℕ, ◌<◌, refl}
use libgilberta.Status.{reset}
use libgilberta.Packet.{Pkg}
use libgilberta.State.{Addr, closed, Event}
use libgilberta.Effect.{pure}
use libgilberta.Context.{is_established}
use libgilberta.Tick.Common.{modify_conn, keepalive_time}
use libgilberta.Tick.Teardown.{close_by_peer, on_fin, on_fin_ack, free_if_established, on_rst}
use libgilberta.Tick.Keepalive.{on_ping, on_pong}
use libgilberta.Invariant.Stage.{plain, opening, opening_of_plain}
use libgilberta.Invariant.Turn.{
  Setting, Turn, Turn->>=, Turn->>, Turn-if, Turn-get_conn, Turn-modify_conn, Turn-after, Turn-pure,
  turn_rules,
}
use libgilberta.Invariant.Turn.Calls.{Turn-glbtime_start, Turn-glbio_send, Turn-push_event}
use libgilberta.Invariant.Turn.Writes.{
  Turn-glbctx_findconn, Turn-modify_same, Turn-glbctx_freeconchannels, Turn-close_conn,
  ConnOk-of_dead,
}

module _ {e : Setting} where
  open e use {os, n, k}

  Turn-close_by_peer : (i : ℕ) → i < k → Turn e plain plain (close_by_peer os i)
  unfolding close_by_peer
  Turn-close_by_peer i lt = Turn-get_conn i _ lt (λ con v. search (turn_rules, Turn-close_conn))

  -- After an RST nothing is known of the channels of an established connection until it is closed.
  Turn-free_if_established : (i : ℕ) → i < k → Turn e plain (opening i) (free_if_established os i)
  unfolding free_if_established
  Turn-free_if_established i lt = Turn-get_conn i _ lt (λ con v.
      Turn-if (is_established con.state) _ (pure tt)
        (λ _.
          Turn->>= _ _
            (Turn-glbctx_freeconchannels i lt opening_of_plain
              (λ c w. (tt, λ other. absurd (other refl))))
            (λ status. Turn-pure tt))
        (λ _. Turn-after plain _ opening_of_plain (Turn-pure tt)))

  Turn-reset :
      (i : ℕ)
      → i < k
      → Turn e (opening i) plain (modify_conn i (λ con. record con { state = closed }))
  Turn-reset i lt =
      Turn-modify_conn i _ lt (λ c v. ConnOk-of_dead (record c { state = closed }) refl v.0)
        (λ j d other v. v.1 other)

module _ {e : Setting} where
  open e use {os, n, k}

  pub Turn-on_fin : (pkg : Pkg) → Turn e plain plain (on_fin os pkg)
  unfolding on_fin
  Turn-on_fin pkg = Turn-glbctx_findconn pkg _ _ (Turn-pure pkg) (λ ctx at i lt.
      Turn-get_conn i _ lt (λ con v. search (turn_rules, Turn-glbio_send, Turn-close_by_peer)))

  pub Turn-on_fin_ack : (pkg : Pkg) → Turn e plain plain (on_fin_ack os pkg)
  unfolding on_fin_ack
  Turn-on_fin_ack pkg =
      Turn-glbctx_findconn pkg _ _ (Turn-pure pkg)
        (λ ctx at i lt. Turn->> _ _ (Turn-close_by_peer i lt) (Turn-pure pkg))

  pub Turn-on_rst : (pkg : Pkg) → Turn e plain plain (on_rst os pkg)
  unfolding on_rst
  Turn-on_rst pkg = Turn-glbctx_findconn pkg _ _ (Turn-pure pkg) (λ ctx at i lt.
      Turn->> _ _ (Turn-free_if_established i lt) (
        Turn->> _ _ (Turn-reset i lt)
          (Turn->> _ _ (Turn-push_event (Event.disconnect i reset)) (Turn-pure pkg))))

  pub Turn-on_ping : (pkg : Pkg) (from_addr : Addr) → Turn e plain plain (on_ping os pkg from_addr)
  unfolding on_ping
  Turn-on_ping pkg from_addr = search (turn_rules, Turn-glbio_send)

  pub Turn-on_pong : (pkg : Pkg) → Turn e plain plain (on_pong os pkg)
  unfolding on_pong
  Turn-on_pong pkg = Turn-glbctx_findconn pkg _ _ (Turn-pure pkg) (λ ctx at i lt.
      Turn->> _ _ (Turn-modify_same i _ lt (λ _. refl) (λ _. refl)) (
        Turn->>= _ _ (Turn-glbtime_start 0) (λ now.
          Turn->> _ _ (Turn-modify_same i _ lt (λ _. refl) (λ _. refl)) (
            Turn->>= _ _ (Turn-glbtime_start keepalive_time) (λ keepalive.
              Turn->> _ _ (Turn-modify_same i _ lt (λ _. refl) (λ _. refl)) (Turn-pure pkg))))))
