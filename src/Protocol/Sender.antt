-- ===== src/Protocol/Sender.antt =====
-- The steps of the sender's end of a channel (src/libgilberta/gilberta.c: glb_send, the
-- retransmission loop, DATA ACK) keep the invariant.
use libgilberta.Base.{
  ℕ, suc, ◌+◌, ◌^◌, ◌<◌, ◌≡◌, sym, ap, subst, ◌∙◌, [], ◌∷◌, ◌++◌, some, map, arith, length,
  get_elem?, drop, All-get_elem?, length-append, ◌==◌, inl, inr, dec_lt, Option-cases, Bool-cases,
  ==_iff,
}
use libgilberta.Base.Segments.{
  get_elem?-append_left, get_elem?-append_last, drop-append_short, take-append_short, drop-cons,
  map-append, All-imp,
}
use libgilberta.Base.Words.{u32}
use libgilberta.Queue.Slots
use libgilberta.Queue.Slots.Laws.{
  contents, IsValid, pushed, pop-IsValid, push-room, push-full, pushed-IsValid, contents-pushed,
}
use libgilberta.Queue.Slots.Cases.{live_of_peek, contents-peek, contents-poke, poke-IsValid}
use libgilberta.Packet.{Pkg}
use libgilberta.State.{Channel}
use libgilberta.Io.{with_checksum}
use libgilberta.Tick.Data.{acknowledge}
use libgilberta.Api.{enqueue}
use libgilberta.Protocol.{Link, Message, message, SameSending, after_enqueue, after_transmit}
use libgilberta.Protocol.Window.{OnWire, Named, Holds}

module _ (base : ℕ) (l : Link) (h : Holds base l) where
  -- The link after an accepted message.
  abbrev accepted : Pkg → Link
  accepted p = record l {
    sender = record (l.sender) {
      s_queue = pushed l.sender.s_queue p;
      seq = u32 (l.sender.seq + 1);
    };
    sent = l.sent ++ message p ∷ [];
  }

  module _ (p : Pkg) (own : p.header.seq ≡ l.sender.seq) where
    numbered_more :
        (i : ℕ) (m : Message) → get_elem? (l.sent ++ message p ∷ []) i ≡ some m → m.0 ≡ base + i
    numbered_more i m e = elim (get_elem?-append_last l.sent (message p) i e) [
      | inl before ↦ h.numbered i m before
      | inr (at, same) ↦ ap (λ (t : Message). t.0) same ∙ own ∙ h.next ∙ ap (λ n. base + n) (sym at)
    ]

    wire_more : (d : Pkg) → OnWire l.sent h.acked d → OnWire (l.sent ++ message p ∷ []) h.acked d
    wire_more d (i, le, e) = (i, le, get_elem?-append_left l.sent (message p ∷ []) i e)

    Holds-accepted :
        base + length l.sent + 1 < 2 ^ 32
        → l.sender.s_queue.length < l.sender.s_queue.capacity
        → Holds base (accepted p)
    Holds-accepted fits room =
        let longer = length-append l.sent (message p ∷ []) in
        record {
          acked = h.acked;
          received = h.received;
          acked_le = h.acked_le;
          one_ahead = h.one_ahead;
          received_le = omega (arith, longer, h.received_le);
          s_valid = pushed-IsValid h.s_valid room p;
          r_valid = h.r_valid;
          reliable = h.reliable;
          next = omega (arith, longer, h.next);
          expected = h.expected;
          numbered = numbered_more;
          waiting =
              ap (map message) (contents-pushed h.s_valid room p)
              ∙ map-append message (contents l.sender.s_queue) (p ∷ [])
              ∙ ap (λ t. t ++ message p ∷ []) h.waiting
              ∙ sym (
                  drop-append_short l.sent (message p ∷ []) h.acked
                    (omega (arith, h.acked_le, h.received_le)));
          delivered =
              h.delivered
              ∙ sym (take-append_short l.sent (message p ∷ []) h.received h.received_le);
          wire =
              All-imp (OnWire l.sent h.acked) (OnWire (l.sent ++ message p ∷ []) h.acked)
                l.datagrams wire_more h.wire;
          answers = h.answers;
        }

    pub Holds-send :
        base + length (after_enqueue l p (enqueue l.sender p)).sent < 2 ^ 32
        → Holds base (after_enqueue l p (enqueue l.sender p))
    unfolding enqueue
    Holds-send fits = elim (dec_lt l.sender.s_queue.length l.sender.s_queue.capacity) [
      | yes room ↦
          let e = push-room h.s_valid room p in
          rw e (
            Holds-accepted (omega (arith, length-append l.sent (message p ∷ []), rw e at fits))
              room)
      | no full ↦ rw (push-full h.s_valid p full) h
    ]

  module _ (p : Pkg) (head : Slots.peek l.sender.s_queue ≡ some p) where
    split : contents l.sender.s_queue ≡ p ∷ contents (Slots.pop l.sender.s_queue).2
    split = contents-peek h.s_valid head

    -- The packet at the head is the first that is not acknowledged.
    at_head :
        (get_elem? l.sent h.acked ≡ some (message p))
        × (drop (suc h.acked) l.sent ≡ map message (contents (Slots.pop l.sender.s_queue).2))
    at_head = drop-cons l.sent h.acked (sym h.waiting ∙ ap (map message) split)

    pub Holds-transmit : (time count : ℕ) → Holds base (after_transmit l p time count)
    Holds-transmit time count =
        let live = live_of_peek h.s_valid head in
        let again = record (with_checksum p) { timestamp = time; retransmit_count = count } in
        record {
          acked = h.acked;
          received = h.received;
          acked_le = h.acked_le;
          one_ahead = h.one_ahead;
          received_le = h.received_le;
          s_valid = poke-IsValid h.s_valid live again;
          r_valid = h.r_valid;
          reliable = h.reliable;
          next = h.next;
          expected = h.expected;
          numbered = h.numbered;
          waiting =
              ap (map message) (contents-poke h.s_valid live again)
              ∙ sym (ap (map message) split)
              ∙ h.waiting;
          delivered = h.delivered;
          wire = ((h.acked, omega arith, at_head.0), h.wire);
          answers = h.answers;
        }

  -- The link when the acknowledged packet has left the send queue.
  abbrev shifted : Link
  shifted = record l { sender = record (l.sender) { s_queue = (Slots.pop l.sender.s_queue).2 } }

  module _ (p : Pkg) (head : Slots.peek l.sender.s_queue ≡ some p) where
    Holds-shifted : h.acked < h.received → Holds base shifted
    Holds-shifted lt = record {
      acked = suc h.acked;
      received = h.received;
      acked_le = omega arith;
      one_ahead = omega (arith, h.one_ahead);
      received_le = h.received_le;
      s_valid = pop-IsValid l.sender.s_queue h.s_valid;
      r_valid = h.r_valid;
      reliable = h.reliable;
      next = h.next;
      expected = h.expected;
      numbered = h.numbered;
      waiting = sym (at_head p head).1;
      delivered = h.delivered;
      wire =
          All-imp (OnWire l.sent h.acked) (OnWire l.sent (suc h.acked)) l.datagrams
            (λ d (i, le, e). (i, omega (arith, le), e)) h.wire;
      answers = h.answers;
    }

  pub Holds-acknowledge :
      (i a : ℕ)
      → get_elem? l.acks i ≡ some a
      → Holds base (record l { sender = acknowledge l.sender a })
  unfolding acknowledge
  Holds-acknowledge i a e = elim (Option-cases (Slots.peek l.sender.s_queue)) [
    | inl empty ↦ rw (acknowledge, empty) h
    | inr (p, head) ↦ elim (Bool-cases (p.header.seq == a)) [
      | inr other ↦ rw (acknowledge, head, other) h
      | inl named ↦
          let (j, lt, is) = All-get_elem? (Named base h.received) l.acks i h.answers e in
          let number = h.numbered h.acked (message p) (at_head p head).0 in
          let same = (==_iff p.header.seq a).0 named in
          rw (acknowledge, head, named) (Holds-shifted p head (omega (arith, number, same, is, lt)))
    ]
  ]

module _ (base : ℕ) (l : Link) (h : Holds base l) (y : Channel) where
  pub Holds-other_half_sender : SameSending l.sender y → Holds base (record l { sender = y })
  Holds-other_half_sender same = record {
    acked = h.acked;
    received = h.received;
    acked_le = h.acked_le;
    one_ahead = h.one_ahead;
    received_le = h.received_le;
    s_valid = subst IsValid (sym same.s_queue) h.s_valid;
    r_valid = h.r_valid;
    reliable = h.reliable;
    next = same.seq ∙ h.next;
    expected = h.expected;
    numbered = h.numbered;
    waiting = ap (λ q. map message (contents q)) same.s_queue ∙ h.waiting;
    delivered = h.delivered;
    wire = h.wire;
    answers = h.answers;
  }
