-- ===== src/Invariant/Turn/Data.antt =====
-- The branches of glb_tick (src/libgilberta/gilberta.c) for DATA and DATA ACK as turns: the channel
-- that the packet names is inside the array, and its queues stay well formed.
use libgilberta.Base.{
  ℕ, ◌<◌, ◌≡◌, refl, if◌then◌else◌, Option, some, none, Bool, true, false, arith, leb, not, ◌||◌,
  ◌&&◌, ◌==◌, Bool-cases, inl, inr,
}
use libgilberta.Queue.Slots
use libgilberta.Queue.Slots.Laws.{push-IsValid, pop-IsValid}
use libgilberta.Packet.{Pkg}
use libgilberta.State.{Addr, Conn, Channel, Event}
use libgilberta.Effect.{M, pure, get_conn, ◌>>=◌}
use libgilberta.Context.{is_established, glbctx_addrequal}
use libgilberta.Tick.Common.{is_success, is_reliable}
use libgilberta.Tick.Data.{
  Verdict, judge, old, future, deliver, take_in, deliver_data, migrate_data, on_data, acknowledge,
  on_data_ack,
}
use libgilberta.Invariant.{ChannelOk, is_live}
use libgilberta.Invariant.Access.{is_live_of_established}
use libgilberta.Invariant.Stage.{Stage, plain, ready, StageOk, plain_of_ready}
use libgilberta.Invariant.Turn.{
  Setting, Turn, Turn->>, Turn-if, Turn-get_conn, Turn-after, Turn-before, Turn-pure, turn_rules,
}
use libgilberta.Invariant.Turn.Live.{Turn-get_live, Turn-get_channel}
use libgilberta.Invariant.Turn.Calls.{Turn-log, Turn-glbio_send, Turn-push_event}
use libgilberta.Invariant.Turn.Writes.{
  Turn-glbctx_findconn, Turn-modify_same, Turn-put_same, Turn-put_channel,
}

take_in-ChannelOk : (c : Channel) (pkg : Pkg) → ChannelOk c → ChannelOk (take_in c pkg)
unfolding take_in
take_in-ChannelOk c pkg v = record {
  s_valid = v.s_valid;
  r_valid = push-IsValid c.r_queue v.r_valid pkg;
}

acknowledge-ChannelOk : (c : Channel) (ack : ℕ) → ChannelOk c → ChannelOk (acknowledge c ack)
unfolding acknowledge
acknowledge-ChannelOk c ack v = go (Slots.peek c.s_queue)
  where
    go :
        (o : Option Pkg)
        → ChannelOk (elim o [
          | none ↦ c
          | some p ↦
              if p.header.seq == ack then record c { s_queue = (Slots.pop c.s_queue).2 } else c
        ])
    go none = v
    go (some p) = elim (Bool-cases (p.header.seq == ack)) [
      | inl named ↦
          rw named (record { s_valid = pop-IsValid c.s_queue v.s_valid; r_valid = v.r_valid })
      | inr other ↦ rw other v
    ]

-- What the guard of both branches leaves.
past_guard :
    (con : Conn) (n ch : ℕ)
    → (not (is_established con.state) || leb n ch) ≡ false
    → (is_live con.state ≡ true) × (ch < n)
past_guard con n ch e = (is_live_of_established con (ground (arith, e)), ground (arith, e))

module _ {e : Setting} {st st' : Stage} where
  open e use {os}

  Turn-verdict :
      {A : Type 0} (verdict : Verdict) (m m' m'' : M (os.World) A)
      → Turn e st st' m
      → Turn e st st' m'
      → Turn e st st' m''
      → Turn e st st' (elim verdict [ old ↦ m | future ↦ m' | deliver ↦ m'' ])
  Turn-verdict old m m' m'' p p' p'' = p
  Turn-verdict future m m' m'' p p' p'' = p'
  Turn-verdict deliver m m' m'' p p' p'' = p''

module _ {e : Setting} where
  open e use {os, n, k}

  -- A branch that goes on with an established connection only.
  Turn-guarded :
      {A : Type 0} {st' : Stage} (i : ℕ) (guard : Conn → Bool) (m r : Conn → M (os.World) A)
      → i < k
      → ((c : Conn) → guard c ≡ false → is_live c.state ≡ true)
      → ((c : Conn) → Turn e plain st' (m c))
      → ((c : Conn) → StageOk n (ready i) i c → guard c ≡ false → Turn e (ready i) st' (r c))
      → Turn e plain st' (get_conn i >>= λ c. if guard c then m c else r c)
  Turn-guarded {A} {st'} i guard m r lt only early late =
      Turn-get_live i _ lt
        (λ c v live.
          Turn-if (guard c) (m c) (r c) (λ _. Turn-before plain (m c) plain_of_ready (early c))
            (λ past. late c (v, λ _. v.live live) past))
        (λ c v dead.
          Turn-if (guard c) (m c) (r c) (λ _. early c) (λ past. ground (arith, only c past, dead)))

  Turn-deliver_data :
      (i : ℕ) (pkg : Pkg)
      → i < k
      → pkg.header.channel_id < n
      → Turn e (ready i) (ready i) (deliver_data os i pkg)
  unfolding deliver_data
  Turn-deliver_data i pkg lt inside = Turn-get_conn i _ lt (λ con v.
      Turn-get_channel i pkg.header.channel_id _ lt inside (λ c well.
        Turn-verdict (judge c pkg.header.seq) _ _ _ (search (turn_rules, Turn-log, Turn-glbio_send))
          (Turn->> _ _ (Turn-put_same i con _ refl refl v) (search (turn_rules, Turn-log)))
          (Turn->> _ _
            (Turn-put_channel i con pkg.header.channel_id _ v (take_in-ChannelOk c pkg well))
            (search (turn_rules, Turn-glbio_send, Turn-push_event)))))

module _ {e : Setting} where
  open e use {os, n, k}

  Turn-migrate_data :
      (i : ℕ) (pkg : Pkg) (from_addr : Addr)
      → i < k
      → pkg.header.channel_id < n
      → Turn e (ready i) (ready i) (migrate_data os i pkg from_addr)
  unfolding migrate_data
  Turn-migrate_data i pkg from_addr lt inside =
      Turn-get_channel i pkg.header.channel_id _ lt inside (λ c well.
        Turn-if (is_reliable c && (pkg.header.seq == c.ack)) _ (pure pkg)
          (λ _. Turn->> _ _ (Turn-log _ _) (
            Turn->> _ _ (Turn-modify_same i _ lt (λ _. refl) (λ _. refl)) (
              Turn->> _ _ (Turn-push_event (Event.migration i))
                (Turn-deliver_data i pkg lt inside))))
          (λ _. Turn-pure pkg))

module _ {e : Setting} where
  open e use {os, n, k}

  pub Turn-on_data : (pkg : Pkg) (from_addr : Addr) → Turn e plain plain (on_data os pkg from_addr)
  unfolding on_data
  Turn-on_data pkg from_addr = Turn-glbctx_findconn pkg _ _ (Turn-pure pkg) (λ ctx at i lt.
      Turn-guarded i
        (λ con. not (is_established con.state) || leb ctx.channel_count pkg.header.channel_id) _ _
        lt (λ con past. (past_guard con ctx.channel_count pkg.header.channel_id past).0)
        (λ con. Turn-pure pkg)
        (λ con v past.
          let inside : pkg.header.channel_id < n = omega (
            arith,
            (past_guard con ctx.channel_count pkg.header.channel_id past).1,
            at.channel_total,
          ) in
          Turn-after (ready i) _ plain_of_ready (
            Turn-if (is_success (glbctx_addrequal con.peer_addr from_addr)) _ _
              (λ _. Turn-deliver_data i pkg lt inside)
              (λ _. Turn-migrate_data i pkg from_addr lt inside))))

  pub Turn-on_data_ack : (pkg : Pkg) → Turn e plain plain (on_data_ack pkg)
  unfolding on_data_ack
  Turn-on_data_ack pkg = Turn-glbctx_findconn pkg _ _ (Turn-pure pkg) (λ ctx at i lt.
      Turn-guarded i
        (λ con. not (is_established con.state) || leb ctx.channel_count pkg.header.channel_id) _ _
        lt (λ con past. (past_guard con ctx.channel_count pkg.header.channel_id past).0)
        (λ con. Turn-pure pkg)
        (λ con v past.
          Turn-get_channel i pkg.header.channel_id _ lt
            (omega (
              arith,
              (past_guard con ctx.channel_count pkg.header.channel_id past).1,
              at.channel_total,
            ))
            (λ c well. Turn-after (ready i) _ plain_of_ready (
              Turn->> _ _
                (Turn-put_channel i con pkg.header.channel_id _ v
                  (acknowledge-ChannelOk c pkg.header.ack well))
                (Turn-pure pkg)))))
