-- ===== src/Protocol/Network/Delivers.antt =====
-- What the calls on both contexts (src/libgilberta/gilberta.c) deliver across the network.
use libgilberta.Base.{
  ℕ, ◌+◌, ◌^◌, ◌≤◌, ◌<◌, ◌≡◌, refl, sym, ap, ◌∙◌, subst, ◌++◌, map, take, drop, length, true, arith,
}
use libgilberta.Base.Segments.{map-append, map-map, map-take, map-drop, length-map}
use libgilberta.Queue.Slots.Laws.{contents}
use libgilberta.State.{Channel}
use libgilberta.Os.{Os}
use libgilberta.Effect.{St}
use libgilberta.Tick.Common.{is_reliable}
use libgilberta.Api.Messages.{carried}
use libgilberta.View.{Seen}
use libgilberta.View.Slot.{HasChannel}
use libgilberta.View.Data.{Acknowledged, Received, Ends-on_data, Ends-on_data_ack}
use libgilberta.View.Transmit.{handed, Ends-transmit_channel}
use libgilberta.View.Messages.{Offered, Polled, Ends-glb_send, Ends-glb_popdata}
use libgilberta.Protocol.{Link, message, Reach, here}
use libgilberta.Protocol.Delivery.{IsFresh, Guarantee, delivers_in_order}
use libgilberta.Protocol.Handshake.{direction}
use libgilberta.Protocol.Network.{
  Net, Watched, Move, send, transmit, arrive, ack_arrive, take_message, else_sender, else_receiver,
  Moves, still, further, quiet, add_datagram,
}
use libgilberta.Protocol.Network.Simulates.{bytes_of, Simulates, Watched-unique, outcome}
use libgilberta.Protocol.Network.Follows.{
  Follows, Follows-send, Follows-transmit, Follows-arrive, Follows-ack_arrive, Follows-take_message,
  Follows-else_sender, Follows-else_receiver,
}

module _ {A B : Os} (i j ch : ℕ) where
  Follows-Move :
      (n m : Net A B) (l₀ l : Link)
      → Reach l₀ l
      → Simulates i j ch n l
      → Move i j ch n m
      → Follows i j ch l₀ m
  Follows-Move n _ l₀ l r sim (send _ local info source status s whole con_is bytes_are ch_is run) =
      let at = sim.at_sender in
      Follows-send i j ch n l₀ l r sim status (take info.len source) s (
        subst (λ c. Seen i (Offered c l.sender (take info.len source) status) s) ch_is
          (outcome _ _ status s run (
            Ends-glb_send A local whole n.sender i at.con l.sender info source at.at
              (subst (λ c. HasChannel at.con c l.sender) (sym ch_is) at.has) con_is bytes_are)))
  Follows-Move n _ l₀ l r sim (transmit _ x s before run) =
      let at = sim.at_sender in
      let same = sym (Watched-unique before at) in
      subst
        (λ y.
          Follows i j ch l₀
            (record n { sender = s; datagrams = add_datagram (handed A y n.sender) n.datagrams }))
        same
        (Follows-transmit i j ch n l₀ l r sim (handed A l.sender n.sender) s (
          outcome _ _ tt s run (
            Ends-transmit_channel A n.sender i ch at.con l.sender at.at at.has
              sim.sender_reliable)))
  Follows-Move n _ l₀ l r sim
        (arrive _ k p q answer from_addr x t there carries is_data ch_is found before room run) =
      let at = sim.at_receiver in
      Follows-arrive i j ch n l₀ l r sim k p q answer t there carries is_data
        (subst (λ (y : Channel). y.r_queue.length < y.r_queue.capacity) (Watched-unique before at)
          room)
        (subst (λ c. Seen j (Received c l.receiver q answer) t) ch_is
          (outcome _ _ answer t run (
            Ends-on_data B n.receiver j at.con l.receiver q from_addr at.at
              (subst (λ c. HasChannel at.con c l.receiver) (sym ch_is) at.has) sim.receiver_reliable
              found)))
  Follows-Move n _ l₀ l r sim (ack_arrive _ k q answer s there ch_is found run) =
      let at = sim.at_sender in
      Follows-ack_arrive i j ch n l₀ l r sim k q.header.ack s there (
        subst (λ c. Seen i (Acknowledged c l.sender q) s) ch_is
          (outcome _ _ answer s run (
            Ends-on_data_ack n.sender i at.con l.sender q at.at
              (subst (λ c. HasChannel at.con c l.sender) (sym ch_is) at.has) found)))
  Follows-Move n _ l₀ l r sim (take_message _ info answer t con_is ch_is run) =
      let at = sim.at_receiver in
      Follows-take_message i j ch n l₀ l r sim answer t (
        subst (λ c. Seen j (Polled c l.receiver answer) t) ch_is
          (outcome _ _ answer t run (
            Ends-glb_popdata n.receiver j at.con l.receiver info at.at
              (subst (λ c. HasChannel at.con c l.receiver) (sym ch_is) at.has) con_is)))
  Follows-Move n _ l₀ l r sim (else_sender _ x y s before same after) =
      Follows-else_sender i j ch n l₀ l r sim x y s before same after
  Follows-Move n _ l₀ l r sim (else_receiver _ x y t before same after) =
      Follows-else_receiver i j ch n l₀ l r sim x y t before same after

  Follows-Moves :
      (n m : Net A B) (l : Link) → Simulates i j ch n l → Moves i j ch n m → Follows i j ch l m
  Follows-Moves n _ l sim (still _) = record { now = l; reached = here l; simulates = sim }
  Follows-Moves n m l sim (further _ k _ before move) =
      let f = Follows-Moves n k l sim before in Follows-Move k m l f.now f.reached f.simulates move

  Simulates-quiet :
      (s : St (Os.World A)) (t : St (Os.World B)) (x y : Channel)
      → Watched s i ch x
      → Watched t j ch y
      → is_reliable x ≡ true
      → is_reliable y ≡ true
      → Simulates i j ch (quiet A B s t) (direction x y)
  Simulates-quiet s t x y at_s at_t reliable_x reliable_y = record {
    at_sender = at_s;
    at_receiver = at_t;
    sender_reliable = reliable_x;
    receiver_reliable = reliable_y;
    datagrams_are = refl;
    acks_are = refl;
    sent_is = refl;
    taken_is = refl;
  }

-- What the two ends hold of the messages, in bytes.
pub record Delivered {A B : Os} (i j ch : ℕ) (n : Net A B) : Type 0 where
  pub x : Channel
  pub y : Channel
  pub at_sender : Watched n.sender i ch x
  pub at_receiver : Watched n.receiver j ch y
  pub received : ℕ
  pub acked : ℕ
  pub in_order : n.taken ++ map carried (contents y.r_queue) ≡ take received n.sent
  pub kept : map carried (contents x.s_queue) ≡ drop acked n.sent
  pub acked_le : acked ≤ received
  pub one_ahead : received ≤ acked + 1
  pub received_le : received ≤ length n.sent

module _ {A B : Os} (i j ch : ℕ) where
  -- The guarantee of the link, in bytes.
  Delivered-Guarantee :
      (n : Net A B) (l : Link) → Simulates i j ch n l → Guarantee l → Delivered i j ch n
  Delivered-Guarantee n l sim g = record {
    x = l.sender;
    y = l.receiver;
    at_sender = sim.at_sender;
    at_receiver = sim.at_receiver;
    received = g.received;
    acked = g.acked;
    in_order =
        ap (λ xs. n.taken ++ xs) (sym (map-map bytes_of message (contents l.receiver.r_queue)))
        ∙ ap (λ xs. xs ++ map bytes_of (map message (contents l.receiver.r_queue))) sim.taken_is
        ∙ sym (map-append bytes_of l.taken (map message (contents l.receiver.r_queue)))
        ∙ ap (map bytes_of) g.in_order
        ∙ map-take bytes_of g.received l.sent
        ∙ ap (take g.received) (sym sim.sent_is);
    kept =
        sym (map-map bytes_of message (contents l.sender.s_queue))
        ∙ ap (map bytes_of) g.kept
        ∙ map-drop bytes_of g.acked l.sent
        ∙ ap (drop g.acked) (sym sim.sent_is);
    acked_le = g.acked_le;
    one_ahead = g.one_ahead;
    received_le = omega (arith, g.received_le, ap length sim.sent_is, length-map bytes_of l.sent);
  }

  -- Two programs run glb_send, glb_popdata and the branches of glb_tick on their own contexts. Channel
  -- `ch` of connection `i` at one and of `j` at the other is reliable, and fresh: valid empty queues, and
  -- the receiver expects the sender's next number. After any sequence of calls of glb_send,
  -- retransmissions, arrivals of DATA packets and acknowledgments that the network may lose, repeat and
  -- reorder, calls of glb_popdata, and anything else that leaves the sending half of the one channel and
  -- the receiving half of the other alone, where the receive
  -- queue has room when a DATA packet arrives and the sequence numbers do not wrap: what glb_popdata gave
  -- followed by what the receive queue holds is the first `received` of the byte strings that glb_send
  -- accepted, in order and without repetition; the send queue holds those from number `acked` on; and
  -- `received` is `acked` or one more.
  pub network_delivers :
      (s : St (Os.World A)) (t : St (Os.World B)) (x y : Channel) (n : Net A B)
      → Watched s i ch x
      → Watched t j ch y
      → IsFresh (direction x y)
      → is_reliable x ≡ true
      → Moves i j ch (quiet A B s t) n
      → x.seq + length n.sent < 2 ^ 32
      → Delivered i j ch n
  network_delivers s t x y n at_s at_t fresh reliable moves fits =
      let sim = Simulates-quiet i j ch s t x y at_s at_t reliable fresh.reliable in
      let f = Follows-Moves i j ch (quiet A B s t) n (direction x y) sim moves in
      let same : length n.sent ≡ length (f.now).sent =
        ap length (f.simulates).sent_is ∙ length-map bytes_of (f.now).sent in
      Delivered-Guarantee n f.now f.simulates (
        delivers_in_order (direction x y) f.now fresh f.reached
          (subst (λ k. x.seq + k < 2 ^ 32) same fits))
