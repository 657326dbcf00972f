-- ===== src/Invariant/Turn/Api.antt =====
-- The public functions of src/libgilberta/gilberta.c other than glb_tick as turns.
use libgilberta.Base.{
  ℕ, ◌+◌, ◌≤◌, ◌<◌, ◌≡◌, refl, List, Option, some, none, true, arith, leb, ltb, length, not, ◌||◌,
  ◌==◌,
}
use libgilberta.Base.Memory.{load, slice}
use libgilberta.Status.{message_too_long, success, connection_closed}
use libgilberta.Queue.Slots
use libgilberta.Queue.Slots.Laws.{pop-IsValid}
use libgilberta.Packet.{Pkg, mtu}
use libgilberta.State.{Ctx}
use libgilberta.Effect.{pure}
use libgilberta.Context.{is_established, glbctx_generateseq}
use libgilberta.Api.{
  SendInfo, RecvInfo, glb_connect, glb_close, glb_send, send_args, send_checked, glb_pollevent,
  glb_popdata, glb_getconinfo, glb_geterror,
}
use libgilberta.Invariant.Access.{is_live_of_established}
use libgilberta.Invariant.Send.{IsSendable, send_args_lem, enqueue-ChannelOk}
use libgilberta.Invariant.Stage.{plain, ready, At, plain_of_ready}
use libgilberta.Invariant.Turn.{
  Setting, Turn, Turn->>=, Turn->>, Turn-if, Turn-option, Turn-deref, Turn-get_ctx, Turn-put_ctx,
  Turn-get_conn, Turn-put_conn, Turn-after, Turn-before, Turn-pure, turn_rules,
}
use libgilberta.Invariant.Turn.Live.{Turn-get_live, Turn-get_channel}
use libgilberta.Invariant.Turn.Calls.{At-error, Turn-glbtime_start, Turn-log}
use libgilberta.Invariant.Turn.Writes.{Turn-put_same, Turn-put_dead, Turn-put_channel}

-- The caller's buffer is read inside its bounds.
load_lem :
    (info : SendInfo) (source : List ℕ)
    → info.len ≤ length source
    → load source 0 info.len ≡ some (slice 0 info.len source)
unfolding load
load_lem info source enough =
    let whole : leb (0 + info.len) (length source) ≡ true = ground arith in rw whole refl

module _ {e : Setting} where
  open e use {os, n, k}

  pub Turn-glb_connect : Turn e plain plain (glb_connect os)
  unfolding glb_connect glbctx_generateseq
  Turn-glb_connect = Turn-get_ctx _ (λ ctx at. Turn-get_conn 0 _ e.has_connections (λ con v.
      Turn-option (os.inet_pton ctx.inet_addr) _ _
        (λ _. Turn->> _ _ (Turn-put_same 0 con _ refl refl v) (search (turn_rules, Turn-log)))
        (λ ip _. search (turn_rules, Turn-glbtime_start, Turn-put_dead, v.shape))))

  -- A connection of which the application says that it ends keeps its channels until the answer.
  pub Turn-glb_close :
      (con : Option ℕ) → ((i : ℕ) → con ≡ some i → i < k) → Turn e plain plain (glb_close os con)
  unfolding glb_close
  Turn-glb_close none inside = Turn-pure _
  Turn-glb_close (some i) inside =
      let lt = inside i refl in
      Turn-get_conn i _ lt (λ con v.
        Turn-if (is_established con.state) _ (pure connection_closed)
          (λ open_. Turn->>= _ _ (Turn-glbtime_start 0) (λ time.
            Turn->> _ _
              (Turn-put_conn i _
                (record { live = λ _. v.live (is_live_of_established con open_); shape = v.shape })
                (λ j d other w. w))
              (Turn-pure success)))
          (λ _. Turn-pure connection_closed))

  pub Turn-glb_geterror : Turn e plain plain glb_geterror
  unfolding glb_geterror
  Turn-glb_geterror = Turn-get_ctx _ (λ ctx at. Turn-pure ctx.error)

  pub Turn-glb_pollevent : Turn e plain plain glb_pollevent
  unfolding glb_pollevent
  Turn-glb_pollevent = Turn-get_ctx _ (λ ctx at.
      Turn-if (Slots.size ctx.eventqueue == 0) _ _ (λ _. Turn-pure _)
        (λ _.
          Turn->> _ _
            (Turn-put_ctx _ (record {
              channel_total = at.channel_total;
              connection_total = at.connection_total;
              connections_length = at.connections_length;
              configs = at.configs;
              events = pop-IsValid ctx.eventqueue at.events;
              each = at.each;
            }))
            (Turn-pure _)))

  pub Turn-glb_getconinfo :
      (con : Option ℕ)
      → ((i : ℕ) → con ≡ some i → i < k)
      → Turn e plain plain (glb_getconinfo os con)
  unfolding glb_getconinfo
  Turn-glb_getconinfo none inside = Turn-pure _
  Turn-glb_getconinfo (some i) inside =
      Turn-get_ctx _ (λ ctx at. Turn-get_conn i _ (inside i refl) (λ con v. Turn-pure _))

  pub Turn-glb_popdata_null : Turn e plain plain (glb_popdata none)
  unfolding glb_popdata
  Turn-glb_popdata_null = Turn-pure _

  pub Turn-glb_popdata-none :
      (info : RecvInfo) → Turn e plain plain (glb_popdata (some (record info { con = none })))
  unfolding glb_popdata
  Turn-glb_popdata-none info = Turn-get_ctx _ (λ ctx at. Turn-pure _)

  -- On a connection whose channels are there.
  pub Turn-glb_popdata-some :
      (info : RecvInfo) (i : ℕ)
      → i < k
      → Turn e (ready i) (ready i) (glb_popdata (some (record info { con = some i })))
  unfolding glb_popdata
  Turn-glb_popdata-some info i lt = Turn-get_ctx _ (λ ctx at.
      Turn-if (not info.has_buffer || (info.buflen == 0) || leb ctx.channel_count info.channel_id) _
        _ (λ _. Turn-pure _)
        (λ past. Turn-get_conn i _ lt (λ con v.
          Turn-get_channel i info.channel_id _ lt (ground (arith, past, at.channel_total))
            (λ c well.
              Turn-option (Slots.peek c.r_queue) _ _ (λ _. Turn-pure _)
                (λ p _.
                  Turn-if (ltb info.buflen p.header.payload_len) _ _ (λ _. Turn-pure _)
                    (λ _.
                      Turn->> _ _
                        (Turn-put_channel i con info.channel_id _ v (record {
                          s_valid = well.s_valid;
                          r_valid = pop-IsValid c.r_queue well.r_valid;
                        }))
                        (Turn-pure _)))))))

  pub Turn-glb_send-none : (local : Pkg) → Turn e plain plain (glb_send os local none)
  unfolding glb_send
  Turn-glb_send-none local = Turn-pure _

  pub Turn-glb_send :
      (local : Pkg) (info : SendInfo)
      → IsSendable k info
      → Turn e plain plain (glb_send os local (some info))
  unfolding glb_send send_checked
  Turn-glb_send local info caller =
      Turn-get_ctx _ (λ ctx at. checked ctx at (send_args ctx info) refl)
    where
      checked :
          (ctx : Ctx)
          → At n k plain ctx
          → (found : Option (ℕ × List ℕ)) → send_args ctx info ≡ found
          → Turn e plain plain (send_checked os local info found)
      checked ctx at none args = Turn-pure _
      checked ctx at (some (i, source)) args =
          let (con_is, data_is, ch_lt) = send_args_lem ctx info i source args in
          let lt = caller.con_in i con_is in
          Turn-if (ltb mtu info.len) _ _
            (λ _. Turn-get_ctx _ (λ ctx' at'.
              Turn->> _ _ (Turn-put_ctx _ (At-error ctx' message_too_long at')) (Turn-pure _)))
            (λ _.
              Turn-get_live i _ lt
                (λ con v live.
                  Turn-if (is_established con.state) _ (pure connection_closed)
                    (λ _.
                      Turn-get_channel i info.channel_id _ lt
                        (omega (arith, ch_lt, at.channel_total))
                        (λ c well.
                          Turn-deref (load source 0 info.len) _ (slice 0 info.len source)
                            (load_lem info source (caller.enough source data_is))
                            (Turn->>= _ _ (Turn-glbtime_start 0) (λ stamp.
                              Turn-after (ready i) _ plain_of_ready (
                                Turn->> _ _
                                  (Turn-put_channel i con info.channel_id _ (v, λ _. v.live live)
                                    (enqueue-ChannelOk c _ well))
                                  (Turn-pure _))))))
                    (λ _. Turn-before plain _ plain_of_ready (Turn-pure connection_closed)))
                (λ con v dead.
                  Turn-if (is_established con.state) _ (pure connection_closed)
                    (λ open_. ground (arith, is_live_of_established con open_, dead))
                    (λ _. Turn-pure connection_closed)))
