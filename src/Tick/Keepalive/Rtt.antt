-- ===== src/Tick/Keepalive/Rtt.antt =====
-- The round-trip time that PING and PONG of glb_tick (src/libgilberta/gilberta.c) measure.
use libgilberta.Base.{
  ℕ, ◌+◌, ltb, get_elem?, get_elem?-set_self, lt_of_get_elem?, set, refl, sym, subst, some, false,
  ◌-◌, ◌*◌, ◌/◌, ◌%◌, ◌^◌, ◌≤◌, ◌<◌, ◌≡◌, ap, ◌∙◌, arith, bit_or,
}
use libgilberta.Base.Bits.Or.{bit_or_fields}
use libgilberta.Base.Words.{u32, u64, shl}
use libgilberta.Packet.{Pkg, glbpkg_init, flag_ping}
use libgilberta.Tick.Keepalive.{
  stamp_high, stamp_low, stamp_of, sample_rtt, mean_rtt, pong_of, on_ping, on_pong,
}
use libgilberta.Tick.Timers.{numbered, keepalive_expired}
use libgilberta.Tick.Common.{keepalive_retry_limit, modify_conn}
use libgilberta.State.{Conn, Addr}
use libgilberta.Os.{Os}
use libgilberta.Effect.{
  St, ok, and_then, pure, ask, get_ctx, get_conn, put_conn, deref, ◌>>=◌, ◌>>◌,
}
use libgilberta.Timer.{current_ms, glbtime_start, timer_get_current_ms}
use libgilberta.Io.{glbio_send, with_checksum}
use libgilberta.Io.Sent.{glbio_send-Ensures}
use libgilberta.Context.{glbctx_findconn}
use libgilberta.Invariant.{Ensures}
use libgilberta.Invariant.Rules.{Ensures-and_then, Ensures-weaken}
use libgilberta.View.{Seen}

-- A timestamp survives the two 32-bit fields.
stamp_of-stamp_high :
    (time : ℕ) → time < 2 ^ 64 → stamp_of (stamp_high time) (stamp_low time) ≡ time
unfolding stamp_of stamp_high stamp_low
stamp_of-stamp_high time h =
    let high : u64 (shl (u32 (time / 2 ^ 32)) 32) ≡ time / 2 ^ 32 * 2 ^ 32 = omega arith in
    let low : u32 (time % 2 ^ 32) ≡ time % 2 ^ 32 = omega arith in
    let fields = bit_or_fields 32 (time / 2 ^ 32) (time % 2 ^ 32) (omega arith) in
    ap (λ x. bit_or x (u32 (time % 2 ^ 32))) high
    ∙ ap (λ x. bit_or (time / 2 ^ 32 * 2 ^ 32) x) low
    ∙ omega (fields, arith)

-- The sample is the time that has passed, if it fits 32 bits and the clock has not gone back.
sample_rtt-stamps :
    (sent now : ℕ)
    → sent ≤ now
    → now < 2 ^ 64
    → now - sent < 2 ^ 32
    → sample_rtt now (stamp_of (stamp_high sent) (stamp_low sent)) ≡ now - sent
unfolding sample_rtt
sample_rtt-stamps sent now le fits small =
    ap (sample_rtt now) (stamp_of-stamp_high sent (omega (le, fits, arith))) ∙ omega arith

-- A connection after its PONG: the mean of the old round-trip time and of the new one, and no PING
-- without an answer.
pub record Measured (d : Conn) (sample : ℕ) (after : Conn) : Type 0 where
  pub rtt_is : after.rtt ≡ u32 (d.rtt + sample) / 2
  pub retry_is : after.keepalive_retry ≡ 0

-- What a PING carries: the identifier, and the two halves of its time.
record Stamped (c : Conn) (time : ℕ) (ping : Pkg) : Type 0 where
  generation_is : ping.header.client_gen ≡ c.conn_id.generation
  id_is : ping.header.client_id ≡ c.conn_id.id
  high_is : ping.header.seq ≡ stamp_high time
  low_is : ping.header.ack ≡ stamp_low time

module _ (os : Os) where
  open os use {World, clock_gettime}

  -- The time that the clock shows.
  abbrev pub clock_of : World → ℕ
  clock_of w = current_ms (clock_gettime w).0

  abbrev ping_of : Conn → Pkg → ℕ → Pkg
  ping_of c buffer time =
      numbered (glbpkg_init buffer (c.conn_id) flag_ping 0) (stamp_high time) (stamp_low time)

  Stamped-sealed :
      (c : Conn) (buffer ping : Pkg) (time : ℕ)
      → ping ≡ with_checksum (ping_of c buffer time)
      → Stamped c time ping
  unfolding glbpkg_init
  Stamped-sealed c buffer ping time e =
      subst (Stamped c time) (sym e)
        (record { generation_is = refl; id_is = refl; high_is = refl; low_is = refl })

  abbrev started : St World → St World
  started s = record s { world = (clock_gettime s.world).1 }

  start_now : (s : St World) → glbtime_start os 0 s ≡ ok (u64 (clock_of s.world + 0)) (started s)
  unfolding glbtime_start timer_get_current_ms ◌>>=◌ ask pure
  start_now s = refl

  keepalive_expired-Stamped :
      (i : ℕ) (c : Conn) (buffer : Pkg) (s : St World)
      → get_elem? s.ctx.connections i ≡ some c
      → ltb keepalive_retry_limit c.keepalive_retry ≡ false
      → Ensures
          (keepalive_expired os i buffer s)
          (λ ping _. Stamped c (u64 (clock_of s.world + 0)) ping)
  unfolding keepalive_expired ◌>>=◌ ◌>>◌ get_conn put_conn deref glbtime_start timer_get_current_ms
      ask pure
  keepalive_expired-Stamped i c buffer s at more =
      let time = u64 (clock_of s.world + 0) in
      rw (at, and_then)
        (rw more (
          Ensures-and_then (λ ping _. Stamped c time ping)
            (glbio_send os (ping_of c buffer time) c.peer_addr (started s)) _
            (glbio_send-Ensures os (ping_of c buffer time) c.peer_addr (started s))
            (λ r t h. Stamped-sealed c buffer r.1 time h.0)))

  clock_fits : (w : World) → clock_of w < 2 ^ 64
  unfolding current_ms
  clock_fits w = omega arith

  now_is : (w : World) → u64 (clock_of w + 0) ≡ clock_of w
  unfolding current_ms
  now_is w = omega arith

  -- PONG answers with the same identifier and the same numbers.
  on_ping-Stamped :
      (c : Conn) (time : ℕ) (ping : Pkg) (from_addr : Addr) (s : St World)
      → Stamped c time ping
      → Ensures (on_ping os ping from_addr s) (λ pong _. Stamped c time pong)
  unfolding on_ping pong_of glbpkg_init ◌>>=◌ pure
  on_ping-Stamped c time ping from_addr s stamped =
      Ensures-and_then (λ pong _. Stamped c time pong) (glbio_send os (pong_of ping) from_addr s) _
        (glbio_send-Ensures os (pong_of ping) from_addr s)
        (λ r t h. subst (Stamped c time) (sym h.0) (record {
          generation_is = stamped.generation_is;
          id_is = stamped.id_is;
          high_is = stamped.high_is;
          low_is = stamped.low_is;
        }))

  on_pong-Measured :
      (j : ℕ) (c d : Conn) (time : ℕ) (pong : Pkg) (s : St World)
      → Stamped c time pong
      → get_elem? s.ctx.connections j ≡ some d
      → glbctx_findconn s.ctx.connections c.conn_id.generation c.conn_id.id ≡ some j
      → time ≤ clock_of s.world
      → clock_of s.world - time < 2 ^ 32
      → Ensures (on_pong os pong s) (λ _ t. Seen j (Measured d (clock_of s.world - time)) t)
  unfolding on_pong modify_conn mean_rtt ◌>>=◌ ◌>>◌ get_ctx get_conn put_conn deref glbtime_start
      timer_get_current_ms ask pure
  on_pong-Measured j c d time pong s stamped at found le small =
      let cs = s.ctx.connections in
      let d₁ : Conn = record d { keepalive_retry = 0 } in
      let sample =
        sample_rtt (u64 (clock_of s.world + 0)) (stamp_of pong.header.seq pong.header.ack) in
      let d₂ : Conn = record d₁ { rtt = u32 (d.rtt + sample) / 2 } in
      let here₁ = get_elem?-set_self cs j d₁ (lt_of_get_elem? cs j at) in
      let here₂ = get_elem?-set_self (set cs j d₁) j d₂ (lt_of_get_elem? (set cs j d₁) j here₁) in
      let same : sample ≡ clock_of s.world - time =
        ap (λ now. sample_rtt now (stamp_of pong.header.seq pong.header.ack)) (now_is s.world)
        ∙ ap (λ x. sample_rtt (clock_of s.world) (stamp_of x pong.header.ack)) stamped.high_is
        ∙ ap (λ x. sample_rtt (clock_of s.world) (stamp_of (stamp_high time) x)) stamped.low_is
        ∙ sample_rtt-stamps time (clock_of s.world) le (clock_fits s.world) small in
      let found' : glbctx_findconn cs pong.header.client_gen pong.header.client_id ≡ some j =
        ap (λ g. glbctx_findconn cs g pong.header.client_id) stamped.generation_is
        ∙ ap (λ n. glbctx_findconn cs c.conn_id.generation n) stamped.id_is
        ∙ found in
      rw (found', and_then)
        (rw at (
          rw here₁ (
            rw here₂ (record {
              con = record d₂ { keepalive = _ };
              at =
                  get_elem?-set_self (set (set cs j d₁) j d₂) j _
                    (lt_of_get_elem? (set (set cs j d₁) j d₂) j here₂);
              holds = record { rtt_is = ap (λ x. u32 (d.rtt + x) / 2) same; retry_is = refl };
            }))))

-- The keep-alive timer of connection `i` runs out, and it has not given up: it sends a PING, without a
-- fault. A peer that handles this PING answers with a PONG, without a fault. When the connection, found
-- under its identifier at some index then, handles this PONG, it does so without a fault, and its
-- round-trip time becomes the mean of the old one and of the milliseconds between the two readings of
-- the clock, and no PING counts as unanswered, if these milliseconds fit 32 bits and the clock has not
-- gone back.
pub ping-pong :
    (os on_peer : Os) (i j : ℕ) (c d : Conn) (buffer : Pkg) (from_addr : Addr)
    (s u : St (Os.World os)) (t : St (Os.World on_peer))
    → get_elem? s.ctx.connections i ≡ some c
    → ltb keepalive_retry_limit c.keepalive_retry ≡ false
    → get_elem? u.ctx.connections j ≡ some d
    → glbctx_findconn u.ctx.connections c.conn_id.generation c.conn_id.id ≡ some j
    → clock_of os s.world ≤ clock_of os u.world
    → clock_of os u.world - clock_of os s.world < 2 ^ 32
    → Ensures (keepalive_expired os i buffer s) (λ ping _.
      Ensures (on_ping on_peer ping from_addr t) (λ pong _.
        Ensures
          (on_pong os pong u)
          (λ _ u'. Seen j (Measured d (clock_of os u.world - clock_of os s.world)) u')))
ping-pong os on_peer i j c d buffer from_addr s u t at more later_at found le small =
    let time = clock_of os s.world in
    Ensures-weaken {P = λ ping _. Stamped c (u64 (time + 0)) ping}
      {Q = λ ping _. Ensures (on_ping on_peer ping from_addr t) (λ pong _.
        Ensures (on_pong os pong u) (λ _ u'. Seen j (Measured d (clock_of os u.world - time)) u'))}
      (keepalive_expired os i buffer s) (keepalive_expired-Stamped os i c buffer s at more)
      (λ ping _ stamped.
        Ensures-weaken {P = λ pong _. Stamped c time pong}
          {Q = λ pong _.
            Ensures (on_pong os pong u)
              (λ _ u'. Seen j (Measured d (clock_of os u.world - time)) u')}
          (on_ping on_peer ping from_addr t)
          (on_ping-Stamped on_peer c time ping from_addr t
            (subst (λ x. Stamped c x ping) (now_is os s.world) stamped))
          (λ pong _ answered.
            on_pong-Measured os j c d time pong u answered later_at found le small))
