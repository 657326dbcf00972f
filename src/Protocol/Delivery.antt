-- ===== src/Protocol/Delivery.antt =====
-- What a reliable channel of src/libgilberta promises: delivery in order, exactly once.
use libgilberta.Base.{
  ℕ, ◌+◌, ◌^◌, ◌≤◌, ◌<◌, ◌≡◌, ◌≢◌, refl, sym, ap, ◌∙◌, List, [], ◌∷◌, ◌++◌, map, true, arith,
  length, take, drop, get_elem?, Option, some, Bool, false, length-append, take-length, length-drop,
}
use libgilberta.Queue.Slots.Laws.{contents, IsValid}
use libgilberta.Packet.{Pkg}
use libgilberta.Tick.Common.{is_reliable, is_success}
use libgilberta.Tick.Data.{Verdict, old, future, deliver, judge}
use libgilberta.Api.{enqueue}
use libgilberta.Protocol.{
  Link, Message, message, after_data, with_sent, Step, send, transmit, arrive, ack_arrives, popdata,
  other_half_sender, other_half_receiver, Reach, here, then_step,
}
use libgilberta.Protocol.Window.{Holds}
use libgilberta.Protocol.Sender.{
  Holds-send, Holds-transmit, Holds-acknowledge, Holds-other_half_sender,
}
use libgilberta.Protocol.Receiver.{Holds-arrive, Holds-popdata, Holds-other_half_receiver}

-- Two ends right after the handshake: the receiver expects the sender's next number.
pub record IsFresh (l : Link) : Type 0 where
  pub s_valid : IsValid l.sender.s_queue
  pub r_valid : IsValid l.receiver.r_queue
  pub s_empty : contents l.sender.s_queue ≡ []
  pub r_empty : contents l.receiver.r_queue ≡ []
  pub reliable : is_reliable l.receiver ≡ true
  pub in_step : l.receiver.ack ≡ l.sender.seq
  pub no_datagrams : l.datagrams ≡ []
  pub no_acks : l.acks ≡ []
  pub none_sent : l.sent ≡ []
  pub none_taken : l.taken ≡ []

-- All that a reliable channel promises of the messages sent so far.
pub record Guarantee (l : Link) : Type 0 where
  pub received : ℕ
  pub acked : ℕ
  pub in_order : l.taken ++ map message (contents l.receiver.r_queue) ≡ take received l.sent
  pub kept : map message (contents l.sender.s_queue) ≡ drop acked l.sent
  pub acked_le : acked ≤ received
  pub one_ahead : received ≤ acked + 1
  pub received_le : received ≤ length l.sent

sent-after_data : (l : Link) (p : Pkg) (v : Verdict) → (after_data l p v).sent ≡ l.sent
sent-after_data l p old = refl
sent-after_data l p future = refl
sent-after_data l p deliver = refl

with_sent-longer :
    (b : Bool) (m : Message) (sent : List Message) → length sent ≤ length (with_sent b m sent)
with_sent-longer true m sent = omega (arith, length-append sent (m ∷ []))
with_sent-longer false m sent = omega arith

-- Messages are only added.
sent_mono : (l m : Link) → Step l m → length l.sent ≤ length m.sent
sent_mono l _ (send _ p own) =
    with_sent-longer (is_success (enqueue l.sender p).0) (message p) l.sent
sent_mono l _ (transmit _ p time count head) = omega arith
sent_mono l _ (arrive _ i p q e same room) =
    omega (arith, ap length (sent-after_data l q (judge l.receiver q.header.seq)))
sent_mono l _ (ack_arrives _ i a e) = omega arith
sent_mono l _ (popdata _ p head) = omega arith
sent_mono l _ (other_half_sender _ y same) = omega arith
sent_mono l _ (other_half_receiver _ y same) = omega arith

module _ (base : ℕ) where
  pub Holds-fresh : (l : Link) → base ≡ l.sender.seq → IsFresh l → Holds base l
  Holds-fresh l at f = record {
    acked = 0;
    received = 0;
    acked_le = omega arith;
    one_ahead = omega arith;
    received_le = omega arith;
    s_valid = f.s_valid;
    r_valid = f.r_valid;
    reliable = f.reliable;
    next = omega (arith, ap length f.none_sent);
    expected = omega (arith, f.in_step);
    numbered = λ i m e. absurd (nothing i m (ap (λ xs. get_elem? xs i) (sym f.none_sent) ∙ e));
    waiting = ap (map message) f.s_empty ∙ sym f.none_sent;
    delivered = rw (f.none_taken, f.r_empty) refl;
    wire = rw f.no_datagrams tt;
    answers = rw f.no_acks tt;
  }
    where
      nothing : (i : ℕ) (m : Message) → ◌≢◌ {A = Option Message} (get_elem? [] i) (some m)
      nothing i m e = ground arith

  Holds-Step : (l m : Link) → Step l m → base + length m.sent < 2 ^ 32 → Holds base l → Holds base m
  Holds-Step l _ (send _ p own) fits h = Holds-send base l h p own fits
  Holds-Step l _ (transmit _ p time count head) fits h = Holds-transmit base l h p head time count
  Holds-Step l _ (arrive _ i p q e same room) fits h =
      Holds-arrive base l h i p q e same room
        (omega (arith, ap length (sent-after_data l q (judge l.receiver q.header.seq)), fits))
  Holds-Step l _ (ack_arrives _ i a e) fits h = Holds-acknowledge base l h i a e
  Holds-Step l _ (popdata _ p head) fits h = Holds-popdata base l h p head
  Holds-Step l _ (other_half_sender _ y same) fits h = Holds-other_half_sender base l h y same
  Holds-Step l _ (other_half_receiver _ y same) fits h = Holds-other_half_receiver base l h y same

  pub Holds-Reach :
      (l m : Link) → Reach l m → base + length m.sent < 2 ^ 32 → Holds base l → Holds base m
  Holds-Reach l _ (here _) fits h = h
  Holds-Reach l m (then_step _ k _ before step) fits h =
      Holds-Step k m step fits (Holds-Reach l k before (omega (arith, sent_mono k m step, fits)) h)

-- From two fresh ends, after any sending, retransmission, loss, repetition and reordering of
-- datagrams and acknowledgments, any reading by an application that leaves room in the receive
-- queue, and any change of the halves of both ends that serve the other direction, while the sequence
-- numbers do not wrap: the messages taken by the application followed by
-- those in the receive queue are the first `received` messages sent, in order and without
-- repetition; the send queue holds exactly the messages from number `acked` on; and `received` is
-- `acked` or one more.
pub delivers_in_order :
    (l m : Link) → IsFresh l → Reach l m → l.sender.seq + length m.sent < 2 ^ 32 → Guarantee m
delivers_in_order l m f r fits =
    let h = Holds-Reach l.sender.seq l m r fits (Holds-fresh l.sender.seq l refl f) in
    record {
      received = h.received;
      acked = h.acked;
      in_order = h.delivered;
      kept = h.waiting;
      acked_le = h.acked_le;
      one_ahead = h.one_ahead;
      received_le = h.received_le;
    }

-- From two fresh ends, after any such steps in which the application leaves room in the receive
-- queue, while the sequence numbers do not wrap: when the send queue has run empty, the messages
-- taken by the application followed by those in the receive queue are all the messages sent.
pub all_delivered :
    (l m : Link)
    → IsFresh l
    → Reach l m
    → l.sender.seq + length m.sent < 2 ^ 32
    → contents m.sender.s_queue ≡ []
    → m.taken ++ map message (contents m.receiver.r_queue) ≡ m.sent
all_delivered l m f r fits empty =
    let d = delivers_in_order l m f r fits in
    let rest : drop d.acked m.sent ≡ [] = sym d.kept ∙ ap (map message) empty in
    d.in_order
    ∙ take-length m.sent d.received
        (omega (arith, length-drop d.acked m.sent, ap length rest, d.acked_le))
