-- ===== src/Protocol/Receiver.antt =====
-- The steps of the receiver's end of a channel (src/libgilberta/gilberta.c: the DATA branch of
-- glb_tick, glb_popdata) keep the invariant.
use libgilberta.Base.{
  ℕ, suc, ◌+◌, ◌^◌, ◌≤◌, ◌<◌, ◌≡◌, refl, sym, ap, ◌∙◌, subst, List, [], ◌∷◌, ◌++◌, some, true,
  false, map, arith, length, get_elem?, All-get_elem?, lt_of_get_elem?, ltb, dec_lt,
}
use libgilberta.Base.Segments.{append_assoc, take-suc, map-append, All-imp}
use libgilberta.Queue.Slots
use libgilberta.Queue.Slots.Laws.{contents, IsValid, push-IsValid, pop-IsValid}
use libgilberta.Queue.Slots.Cases.{contents-peek, contents-push-room}
use libgilberta.Packet.{Pkg}
use libgilberta.State.{Channel}
use libgilberta.Tick.Common.{is_reliable}
use libgilberta.Tick.Data.{old, deliver, judge, take_in}
use libgilberta.Protocol.{Link, Message, message, SameReceiving, after_data, after_popdata}
use libgilberta.Protocol.Window.{OnWire, Named, Holds, is_reliable_of_flags}

-- Appending is associative: the message moves from the queue to the application.
append_cons :
    (xs : List Message) (m : Message) (ys : List Message) → xs ++ m ∷ ys ≡ (xs ++ m ∷ []) ++ ys
append_cons [] m ys = refl
append_cons (x ∷ xs) m ys = ap (λ t. x ∷ t) (append_cons xs m ys)

-- On a reliable channel the verdict is the comparison of the two numbers.
pub judge_old : (c : Channel) (seq : ℕ) → is_reliable c ≡ true → seq < c.ack → judge c seq ≡ old
unfolding judge
judge_old c seq r lt = let e : ltb seq c.ack ≡ true = ground arith in rw (e, r)

pub judge_next : (c : Channel) (seq : ℕ) → seq ≡ c.ack → judge c seq ≡ deliver
unfolding judge
judge_next c seq e =
    let not_old : ltb seq c.ack ≡ false = ground arith in
    let not_future : ltb c.ack seq ≡ false = ground arith in rw (not_old, not_future)

module _ (base : ℕ) (l : Link) (h : Holds base l) where
  module _ (p : Pkg) where
    Holds-old : (j : ℕ) → j < h.received → p.header.seq ≡ base + j → Holds base (after_data l p old)
    Holds-old j lt e = record {
      acked = h.acked;
      received = h.received;
      acked_le = h.acked_le;
      one_ahead = h.one_ahead;
      received_le = h.received_le;
      s_valid = h.s_valid;
      r_valid = h.r_valid;
      reliable = h.reliable;
      next = h.next;
      expected = h.expected;
      numbered = h.numbered;
      waiting = h.waiting;
      delivered = h.delivered;
      wire = h.wire;
      answers = ((j, lt, e), h.answers);
    }

    Holds-deliver :
        base + length l.sent < 2 ^ 32
        → l.receiver.r_queue.length < l.receiver.r_queue.capacity
        → h.received ≤ h.acked
        → get_elem? l.sent h.received ≡ some (message p)
        → Holds base (after_data l p deliver)
    unfolding take_in
    Holds-deliver fits room level here =
        let inside = lt_of_get_elem? l.sent h.received here in
        record {
          acked = h.acked;
          received = suc h.received;
          acked_le = omega (arith, h.acked_le);
          one_ahead = omega arith;
          received_le = omega arith;
          s_valid = h.s_valid;
          r_valid = push-IsValid l.receiver.r_queue h.r_valid p;
          reliable = h.reliable;
          next = h.next;
          expected = omega (arith, h.expected, inside);
          numbered = h.numbered;
          waiting = h.waiting;
          delivered =
              ap (λ c. l.taken ++ map message c) (contents-push-room h.r_valid p room)
              ∙ ap (λ c. l.taken ++ c) (map-append message (contents l.receiver.r_queue) (p ∷ []))
              ∙ append_assoc l.taken (map message (contents l.receiver.r_queue)) (message p ∷ [])
              ∙ ap (λ c. c ++ message p ∷ []) h.delivered
              ∙ sym (take-suc l.sent h.received here);
          wire = h.wire;
          answers = (
            (h.received, omega arith, h.numbered h.received (message p) here),
            All-imp (Named base h.received) (Named base (suc h.received)) l.acks
                (λ a (j, lt, e). (j, omega (arith, lt), e)) h.answers,
          );
        }

  -- What arrives was sent before: it is the next message or an old one, never one from the future.
  pub Holds-arrive :
      (i : ℕ) (sent p : Pkg)
      → get_elem? l.datagrams i ≡ some sent
      → message p ≡ message sent
      → l.receiver.r_queue.length < l.receiver.r_queue.capacity
      → base + length l.sent < 2 ^ 32
      → Holds base (after_data l p (judge l.receiver p.header.seq))
  Holds-arrive i sent p e same room fits =
      let (j, le, found) = All-get_elem? (OnWire l.sent h.acked) l.datagrams i h.wire e in
      let from : get_elem? l.sent j ≡ some (message p) = found ∙ ap some (sym same) in
      let number = h.numbered j (message p) from in
      elim (dec_lt j h.received) [
        | yes lt ↦
            rw
              (judge_old l.receiver p.header.seq h.reliable (omega (arith, number, h.expected, lt)))
              (Holds-old p j lt number)
        | no ge ↦
            let at : j ≡ h.received = omega (arith, le, h.acked_le) in
            rw (judge_next l.receiver p.header.seq (omega (arith, number, h.expected, at))) (
              Holds-deliver p fits room (omega (arith, le, at))
                (subst (λ k. get_elem? l.sent k ≡ some (message p)) at from))
      ]

  pub Holds-popdata :
      (p : Pkg) → Slots.peek l.receiver.r_queue ≡ some p → Holds base (after_popdata l p)
  Holds-popdata p head = record {
    acked = h.acked;
    received = h.received;
    acked_le = h.acked_le;
    one_ahead = h.one_ahead;
    received_le = h.received_le;
    s_valid = h.s_valid;
    r_valid = pop-IsValid l.receiver.r_queue h.r_valid;
    reliable = h.reliable;
    next = h.next;
    expected = h.expected;
    numbered = h.numbered;
    waiting = h.waiting;
    delivered =
        sym (
          append_cons l.taken (message p) (map message (contents (Slots.pop l.receiver.r_queue).2)))
        ∙ sym (ap (λ c. l.taken ++ map message c) (contents-peek h.r_valid head))
        ∙ h.delivered;
    wire = h.wire;
    answers = h.answers;
  }

module _ (base : ℕ) (l : Link) (h : Holds base l) (y : Channel) where
  pub Holds-other_half_receiver :
      SameReceiving l.receiver y → Holds base (record l { receiver = y })
  Holds-other_half_receiver same = record {
    acked = h.acked;
    received = h.received;
    acked_le = h.acked_le;
    one_ahead = h.one_ahead;
    received_le = h.received_le;
    s_valid = h.s_valid;
    r_valid = subst IsValid (sym same.r_queue) h.r_valid;
    reliable = is_reliable_of_flags l.receiver y same.flags ∙ h.reliable;
    next = h.next;
    expected = same.ack ∙ h.expected;
    numbered = h.numbered;
    waiting = h.waiting;
    delivered = ap (λ q. l.taken ++ map message (contents q)) same.r_queue ∙ h.delivered;
    wire = h.wire;
    answers = h.answers;
  }
