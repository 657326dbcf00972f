-- ===== src/Tick/Timers/Repeat.antt =====
-- The retransmission of glb_tick (src/libgilberta/gilberta.c): the head of a reliable channel's send queue
-- is sent each time its timer has run out.
use libgilberta.Base.{
  ℕ, ◌+◌, ◌^◌, ◌≤◌, ◌<◌, ◌≡◌, ◌≢◌, refl, ap, ◌∙◌, subst, some, true, false, leb, ltb, ◌==◌, arith,
  get_elem?, get_elem?-set_self, lt_of_get_elem?, Bool-cases, inl, inr, if◌then◌else◌,
}
use libgilberta.Base.Words.{u64}
use libgilberta.Queue.Slots
use libgilberta.Queue.Slots.Laws.{contents, IsValid}
use libgilberta.Queue.Slots.Cases.{live_of_peek, peek-poke, pop-poke, poke-IsValid}
use libgilberta.Packet.{Pkg}
use libgilberta.State.{Conn, Channel}
use libgilberta.Os.{Os}
use libgilberta.Effect.{
  St, ok, and_then, pure, ask, get_ctx, put_ctx, get_conn, put_conn, deref, ◌>>=◌, ◌>>◌,
}
use libgilberta.Timer.{glbtime_start, glbtime_isexpired, timer_get_current_ms}
use libgilberta.Io.{glbio_send, with_checksum, wire_bytes}
use libgilberta.Io.Sent.{glbio_send-Ensures}
use libgilberta.Tick.Common.{is_reliable, push_event, max_retry, retransmission_timeout}
use libgilberta.Tick.Keepalive.Rtt.{clock_of}
use libgilberta.Tick.Timers.{after_send, transmit_channel}
use libgilberta.Api.Messages.{Reaches, found-channel}
use libgilberta.Invariant.{Ensures}
use libgilberta.Invariant.Rules.{Ensures-and_then, Ensures-weaken}
use libgilberta.View.{Seen}
use libgilberta.View.Slot.{HasChannel, HasChannel-same, HasChannel-with_channel}

-- How often the packet was sent: after more than `max_retry` times the count starts again.
abbrev pub next_count : ℕ → ℕ
next_count count = if ltb max_retry (u64 (count + 1)) then 0 else u64 (count + 1)

-- The send queue of a channel, with the packet at its head rewritten.
abbrev rewritten : Channel → Pkg → ℕ → Channel
rewritten x sent time = record x {
  s_queue =
      Slots.poke x.s_queue
        (record sent { timestamp = time; retransmit_count = next_count sent.retransmit_count });
}

-- The timer that is started when the outside is in this state.
abbrev timer : (os : Os) → Os.World os → ℕ
timer os w = u64 (clock_of os w + retransmission_timeout)

module _ (os : Os) (i ch : ℕ) (con : Conn) (x : Channel) (reliable : is_reliable x ≡ true) where
  open os use {World, clock_gettime, sendto}

  after_send-Ensures :
      (sent : Pkg) (s : St World)
      → Reaches s i ch con x
      → Ensures (after_send os i ch sent s) (λ _ t.
        (t.world ≡ (clock_gettime s.world).1)
        × Seen i (λ d. HasChannel d ch (rewritten x sent (timer os s.world))) t)
  unfolding after_send push_event glbtime_start timer_get_current_ms ask get_ctx put_ctx get_conn
      put_conn deref pure ◌>>=◌ ◌>>◌
  after_send-Ensures sent s r =
      let has : HasChannel con ch x = record { chans = r.chans; has = r.has; at = r.here } in
      let inside = lt_of_get_elem? s.ctx.connections i r.at in
      rw (r.at, and_then, found-channel r)
        (rw reliable (elim (Bool-cases (ltb max_retry (u64 (sent.retransmit_count + 1)))) [
          | inl many ↦ rw many (
            refl,
            record {
              con = _;
              at = get_elem?-set_self s.ctx.connections i _ inside;
              holds = HasChannel-same _ _ ch _ refl (HasChannel-with_channel con ch x _ has);
            },
          )
          | inr few ↦ rw few (
            refl,
            record {
              con = _;
              at = get_elem?-set_self s.ctx.connections i _ inside;
              holds = HasChannel-with_channel con ch x _ has;
            },
          )
        ]))

-- The head `p` of channel `x` was sent: the sealed packet is what `sendto` got, after one reading of the
-- clock, and before another. It stays at the head, the rest of the queue stays, and its timer runs out
-- `retransmission_timeout` milliseconds after the second reading.
pub record Repeated (os : Os) (s t : St (Os.World os)) (i ch : ℕ) (con : Conn) (x : Channel)
    (p : Pkg) : Type 0 where
  pub sent_world : Os.World os
  pub handed :
      sent_world
      ≡ (os.sendto (os.clock_gettime s.world).1 (wire_bytes (with_checksum p)) con.peer_addr).1
  pub world_is : t.world ≡ (os.clock_gettime sent_world).1
  pub y : Channel
  pub q : Pkg
  pub holds : Seen i (λ d. HasChannel d ch y) t
  pub head : Slots.peek y.s_queue ≡ some q
  pub header_is : q.header ≡ (with_checksum p).header
  pub payload_is : q.payload ≡ p.payload
  pub timer_is : q.timestamp ≡ clock_of os sent_world + retransmission_timeout
  pub count_is : q.retransmit_count ≡ next_count p.retransmit_count
  pub rest : contents (Slots.pop y.s_queue).2 ≡ contents (Slots.pop x.s_queue).2
  pub valid : IsValid y.s_queue
  pub still_reliable : is_reliable y ≡ true

module _ (os : Os) (s : St (Os.World os)) (i ch : ℕ) (con : Conn) (x : Channel) (p : Pkg)
    (r : Reaches s i ch con x) (reliable : is_reliable x ≡ true) (v : IsValid x.s_queue)
    (at_head : Slots.peek x.s_queue ≡ some p) where
  open os use {World, clock_gettime, sendto}

  abbrev after_handing : World
  after_handing = (sendto (clock_gettime s.world).1 (wire_bytes (with_checksum p)) con.peer_addr).1

  abbrev clock_read : St World
  clock_read = record s { world = (clock_gettime s.world).1 }

  isexpired_lem :
      p.timestamp ≢ 0
      → p.timestamp ≤ clock_of os s.world
      → glbtime_isexpired os p.timestamp s ≡ ok true clock_read
  unfolding glbtime_isexpired timer_get_current_ms ask pure ◌>>=◌
  isexpired_lem started late =
      let running : (p.timestamp == 0) ≡ false = ground (arith, started) in
      let over : leb p.timestamp (clock_of os s.world) ≡ true = ground (arith, late) in
      rw running (rw over refl)

  Repeated-after_send :
      (sent : Pkg) (t : St World)
      → sent ≡ with_checksum p
      → clock_of os after_handing + retransmission_timeout < 2 ^ 64
      → (t.world ≡ (clock_gettime after_handing).1)
        × Seen i (λ d. HasChannel d ch (rewritten x sent (timer os after_handing))) t
      → Repeated os s t i ch con x p
  Repeated-after_send sent t sealed fits (world_is, seen) =
      let live = live_of_peek v at_head in
      let q : Pkg = record sent {
        timestamp = timer os after_handing;
        retransmit_count = next_count sent.retransmit_count;
      } in
      record {
        sent_world = after_handing;
        handed = refl;
        world_is = world_is;
        y = rewritten x sent (timer os after_handing);
        q = q;
        holds = seen;
        head = peek-poke v live q;
        header_is = ap (λ (z : Pkg). z.header) sealed;
        payload_is = ap (λ (z : Pkg). z.payload) sealed;
        timer_is = omega (arith, fits);
        count_is = ap (λ (z : Pkg). next_count z.retransmit_count) sealed;
        rest = pop-poke v live q;
        valid = poke-IsValid v live q;
        still_reliable = reliable;
      }

-- The retransmission of a reliable channel with a valid send queue, when the timer of the packet at its
-- head has run out: it does not fault. The packet, sealed with its checksum, is handed to `sendto`. It
-- stays at the head with the same header and payload, the rest of the queue stays behind it, its count
-- goes on, and its timer is started again, to run out `retransmission_timeout` milliseconds after the
-- sending, if that time fits 64 bits. The queue is still valid and the channel still reliable.
pub transmit_channel-Repeated :
    (os : Os) (s : St (Os.World os)) (i ch : ℕ) (con : Conn) (x : Channel) (p : Pkg)
    → Reaches s i ch con x
    → is_reliable x ≡ true
    → IsValid x.s_queue
    → Slots.peek x.s_queue ≡ some p
    → p.timestamp ≢ 0
    → p.timestamp ≤ clock_of os s.world
    → clock_of os
          (os.sendto (os.clock_gettime s.world).1 (wire_bytes (with_checksum p)) con.peer_addr).1
        + retransmission_timeout
      < 2 ^ 64
    → Ensures (transmit_channel os i ch s) (λ _ t. Repeated os s t i ch con x p)
unfolding transmit_channel get_conn deref pure ◌>>=◌ ◌>>◌
transmit_channel-Repeated os s i ch con x p r reliable v at_head started late fits =
    let t₁ = clock_read os s i ch con x p r reliable v at_head in
    let expired = isexpired_lem os s i ch con x p r reliable v at_head started late in
    rw (r.at, and_then, found-channel r)
      (rw at_head (
        rw expired (
          Ensures-and_then (λ _ t. Repeated os s t i ch con x p) (glbio_send os p con.peer_addr t₁)
            _ (glbio_send-Ensures os p con.peer_addr t₁)
            (λ a t h.
              Ensures-weaken (after_send os i ch a.1 t)
                (after_send-Ensures os i ch con x reliable a.1 t (record {
                  chans = r.chans;
                  at = ap (λ cs. get_elem? cs i) h.2 ∙ r.at;
                  has = r.has;
                  here = r.here;
                }))
                (λ _ u g.
                  Repeated-after_send os s i ch con x p r reliable v at_head a.1 u h.0 fits (
                    subst
                      (λ w.
                        (u.world ≡ (os.clock_gettime w).1)
                        × Seen i (λ d. HasChannel d ch (rewritten x a.1 (timer os w))) u)
                      h.1 g))))))
