-- ===== src/Protocol/Loss.antt =====
-- What the DATA branch of glb_tick (src/libgilberta/gilberta.c) does when the receive queue is full:
-- the status of glbqueue_push is not looked at.
use libgilberta.Base.{
  ℕ, ◌+◌, ◌^◌, ◌≤◌, ◌<◌, ◌≡◌, refl, sym, ap, ◌∙◌, subst, set, some, true, false, not, ◌||◌, leb,
  arith, get_elem?, get_elem?-set_self, lt_of_get_elem?,
}
use libgilberta.Queue.Slots.Laws.{contents, IsValid, push-full}
use libgilberta.Packet.{Pkg, glbpkg_init}
use libgilberta.State.{Addr, Conn, Channel, Event}
use libgilberta.Os.{Os}
use libgilberta.Effect.{
  M, St, ok, and_then, pure, get_ctx, put_ctx, get_conn, put_conn, deref, ◌>>=◌, ◌>>◌,
}
use libgilberta.Io.{glbio_send, with_checksum, wire_bytes}
use libgilberta.Io.Sent.{glbio_send-Ensures}
use libgilberta.Context.{is_established, glbctx_addrequal, glbctx_findconn}
use libgilberta.Tick.Common.{is_reliable, is_success, push_event}
use libgilberta.Tick.Data.{
  old, deliver, judge, take_in, with_channel, data_ack_of, deliver_data, on_data,
}
use libgilberta.Invariant.{Ensures}
use libgilberta.Invariant.Rules.{Ensures-and_then, Ensures-weaken}
use libgilberta.Api.Messages.{Reaches, found-channel}
use libgilberta.View.{Seen}
use libgilberta.View.Slot.{HasChannel, HasChannel-with_channel}
use libgilberta.View.Data.{Acks}
use libgilberta.Protocol.Receiver.{judge_old, judge_next}

-- A packet was acknowledged and not stored. Channel `y` has the elements that `x` had, and expects the
-- next number.
pub record Lost (os : Os) (s t : St (Os.World os)) (i : ℕ) (con : Conn) (x : Channel)
    (pkg answer : Pkg) : Type 0 where
  pub acks : Acks pkg.header.seq answer
  pub sent : t.world ≡ (os.sendto s.world (wire_bytes answer) con.peer_addr).1
  pub y : Channel
  pub holds : Seen i (λ d. HasChannel d pkg.header.channel_id y) t
  pub not_stored : contents y.r_queue ≡ contents x.r_queue
  pub advanced : y.ack ≡ x.ack + 1
  pub repeated : (z : Channel) → is_reliable z ≡ true → y.ack ≤ z.ack → judge z pkg.header.seq ≡ old

module _ (os : Os) where
  open os use {World}

  module _ (s : St World) (i : ℕ) (con : Conn) (x : Channel) (pkg : Pkg)
      (r : Reaches s i pkg.header.channel_id con x) where
    abbrev stored : St World
    stored = record s {
      ctx = record (s.ctx) {
        connections =
            set s.ctx.connections i (with_channel pkg.header.channel_id (take_in x pkg) con);
      };
    }

    abbrev acknowledging : M World Pkg
    acknowledging = do
      answer ← (do (status, sent) ← glbio_send os (data_ack_of con x pkg) con.peer_addr; pure sent)
      push_event (Event.receive i pkg.header.channel_id)
      pure answer

    deliver_data_lem :
        is_reliable x ≡ true
        → judge x pkg.header.seq ≡ deliver
        → deliver_data os i pkg s ≡ acknowledging stored
    unfolding deliver_data ◌>>=◌ ◌>>◌ get_conn put_conn deref
    deliver_data_lem reliable next =
        rw (r.at, and_then, found-channel r) (rw next (rw reliable refl))

    abbrev Sealed : Pkg → St World → Type 0
    Sealed answer t =
        (answer ≡ with_checksum (data_ack_of con x pkg))
        × (t.world
            ≡ (os.sendto s.world (wire_bytes (with_checksum (data_ack_of con x pkg)))
                con.peer_addr).1)
        × (t.ctx.connections ≡ stored.ctx.connections)

    acknowledging-Ensures : Ensures (acknowledging stored) Sealed
    unfolding ◌>>=◌ ◌>>◌ push_event get_ctx put_ctx pure
    acknowledging-Ensures =
        let sending = glbio_send os (data_ack_of con x pkg) con.peer_addr stored in
        Ensures-and_then {P = Sealed} Sealed (and_then sending (λ p t. ok p.1 t)) _
          (Ensures-and_then Sealed sending (λ p t. ok p.1 t)
            (glbio_send-Ensures os (data_ack_of con x pkg) con.peer_addr stored) (λ p t h. h))
          (λ answer t h. h)

    module _ (v : IsValid x.r_queue) (full : ¬ (x.r_queue.length < x.r_queue.capacity))
        (reliable : is_reliable x ≡ true) (next : pkg.header.seq ≡ x.ack)
        (fits : x.ack + 1 < 2 ^ 32) where
      Lost-Sealed : (answer : Pkg) (t : St World) → Sealed answer t → Lost os s t i con x pkg answer
      unfolding take_in data_ack_of glbpkg_init
      Lost-Sealed answer t (sealed, world_is, connections_are) = record {
        acks =
            subst (Acks pkg.header.seq) (sym sealed) (record { flags_are = refl; ack_is = refl });
        sent = world_is ∙ ap (λ p. (os.sendto s.world (wire_bytes p) con.peer_addr).1) (sym sealed);
        y = take_in x pkg;
        holds = record {
          con = with_channel pkg.header.channel_id (take_in x pkg) con;
          at =
              ap (λ cs. get_elem? cs i) connections_are
              ∙ get_elem?-set_self s.ctx.connections i _ (lt_of_get_elem? s.ctx.connections i r.at);
          holds =
              HasChannel-with_channel con pkg.header.channel_id x (take_in x pkg)
                (record { chans = r.chans; has = r.has; at = r.here });
        };
        not_stored = ap (λ q. contents q.1) (push-full v pkg full);
        advanced = omega (arith, fits);
        repeated = λ z z_reliable later.
            judge_old z pkg.header.seq z_reliable (omega (arith, next, later, fits));
      }

      deliver_data-Lost :
          Ensures (deliver_data os i pkg s) (λ answer t. Lost os s t i con x pkg answer)
      deliver_data-Lost =
          subst (λ run. Ensures run (λ answer t. Lost os s t i con x pkg answer))
            (sym (deliver_data_lem reliable (judge_next x pkg.header.seq next)))
            (Ensures-weaken (acknowledging stored) acknowledging-Ensures Lost-Sealed)

-- A DATA packet with the next number comes from the peer's address to an established connection, for a
-- reliable channel whose receive queue is full, while the number does not wrap. Then the branch does not
-- fault; its acknowledgment of that number is handed to `sendto`; the receive queue keeps its elements;
-- the channel expects the next number, and as long as that does not go back every repetition of the
-- packet is judged as already delivered, so that it is never stored.
pub on_data-Lost :
    (os : Os) (s : St (Os.World os)) (i : ℕ) (con : Conn) (x : Channel) (pkg : Pkg)
    (from_addr : Addr)
    → Reaches s i pkg.header.channel_id con x
    → glbctx_findconn s.ctx.connections pkg.header.client_gen pkg.header.client_id ≡ some i
    → is_established con.state ≡ true
    → pkg.header.channel_id < s.ctx.channel_count
    → is_success (glbctx_addrequal con.peer_addr from_addr) ≡ true
    → IsValid x.r_queue
    → ¬ (x.r_queue.length < x.r_queue.capacity)
    → is_reliable x ≡ true
    → pkg.header.seq ≡ x.ack
    → x.ack + 1 < 2 ^ 32
    → Ensures (on_data os pkg from_addr s) (λ answer t. Lost os s t i con x pkg answer)
unfolding on_data ◌>>=◌ get_ctx get_conn deref
on_data-Lost os s i con x pkg from_addr r found open_ inside same v full reliable next fits =
    let past : (not (is_established con.state) || leb s.ctx.channel_count pkg.header.channel_id)
        ≡ false =
      ground (arith, open_, inside) in
    rw (found, and_then)
      (rw r.at (rw past (rw same (deliver_data-Lost os s i con x pkg r v full reliable next fits))))
