-- ===== src/Protocol/Network/Follows.antt =====
-- Each step of the net (src/libgilberta/gilberta.c at both ends) is a step of the link, or none.
use libgilberta.Base.{
  ℕ, ◌<◌, ◌≡◌, refl, sym, ap, ◌∙◌, subst, List, ◌∷◌, Option, some, none, true, ◌⊎◌, inl, inr,
  get_elem?,
}
use libgilberta.Status.{ErrorCode}
use libgilberta.Packet.{Pkg, flag_data}
use libgilberta.State.{Channel}
use libgilberta.Os.{Os}
use libgilberta.Effect.{St}
use libgilberta.Io.{with_checksum}
use libgilberta.Tick.Common.{is_success}
use libgilberta.Tick.Data.{Verdict, old, future, deliver, judge, take_in, acknowledge}
use libgilberta.Api.{enqueue}
use libgilberta.View.{Seen}
use libgilberta.View.Slot.{HasChannel}
use libgilberta.View.Data.{Judged, Received}
use libgilberta.View.Transmit.{Handed}
use libgilberta.View.Messages.{Offered, Polled}
use libgilberta.Protocol.Window.{is_reliable_of_flags}
use libgilberta.Protocol.{
  SameSending, SameReceiving, Link, Message, message, Step, Reach, here, then_step, after_data,
  after_enqueue, after_transmit, after_popdata, with_sent,
}
use libgilberta.Protocol
use libgilberta.Protocol.Network.{Net, Watched, add_datagram, add_ack, add_sent, add_taken}
use libgilberta.Protocol.Network.Simulates.{
  bytes_of, Simulates, Watched-unique, enqueue-is_reliable, acknowledge-is_reliable,
  take_in-is_reliable, add_sent-with_sent, add_taken-nothing, add_ack-Acks, add_ack-data,
  Simulates-sender, Simulates-receiver,
}

-- A link that steps from `l` lead to, and that is what the net has come to.
pub record Follows {A B : Os} (i j ch : ℕ) (l : Link) (n : Net A B) : Type 0 where
  pub now : Link
  pub reached : Reach l now
  pub simulates : Simulates i j ch n now

module _ {A B : Os} (i j ch : ℕ) (n : Net A B) (l₀ l : Link) (r : Reach l₀ l)
    (sim : Simulates i j ch n l) where
  -- The sender's end changes and its channel does not.
  same_sender :
      (s : St (Os.World A))
      → Seen i (λ d. HasChannel d ch l.sender) s
      → Follows i j ch l₀ (record n { sender = s })
  same_sender s seen = record {
    now = l;
    reached = r;
    simulates =
        Simulates-sender sim s l.sender n.datagrams l.datagrams n.sent l.sent seen
          sim.sender_reliable sim.datagrams_are sim.sent_is;
  }

  same_receiver :
      (t : St (Os.World B))
      → Seen j (λ d. HasChannel d ch l.receiver) t
      → Follows i j ch l₀ (record n { receiver = t })
  same_receiver t seen = record {
    now = l;
    reached = r;
    simulates =
        Simulates-receiver sim t l.receiver n.acks l.acks n.taken l.taken seen sim.receiver_reliable
          sim.acks_are sim.taken_is;
  }

  pub Follows-else_sender :
      (x y : Channel) (s : St (Os.World A))
      → Watched n.sender i ch x
      → SameSending x y
      → Watched s i ch y
      → Follows i j ch l₀ (record n { sender = s })
  Follows-else_sender x y s before same after =
      let half : SameSending l.sender y =
        subst (λ z. SameSending z y) (Watched-unique before sim.at_sender) same in
      record {
        now = record l { sender = y };
        reached = then_step _ _ _ r (Protocol.other_half_sender l y half);
        simulates =
            Simulates-sender sim s y n.datagrams l.datagrams n.sent l.sent
              (record { con = after.con; at = after.at; holds = after.has })
              (is_reliable_of_flags l.sender y half.flags ∙ sim.sender_reliable) sim.datagrams_are
              sim.sent_is;
      }

  pub Follows-else_receiver :
      (x y : Channel) (t : St (Os.World B))
      → Watched n.receiver j ch x
      → SameReceiving x y
      → Watched t j ch y
      → Follows i j ch l₀ (record n { receiver = t })
  Follows-else_receiver x y t before same after =
      let half : SameReceiving l.receiver y =
        subst (λ z. SameReceiving z y) (Watched-unique before sim.at_receiver) same in
      record {
        now = record l { receiver = y };
        reached = then_step _ _ _ r (Protocol.other_half_receiver l y half);
        simulates =
            Simulates-receiver sim t y n.acks l.acks n.taken l.taken
              (record { con = after.con; at = after.at; holds = after.has })
              (is_reliable_of_flags l.receiver y half.flags ∙ sim.receiver_reliable) sim.acks_are
              sim.taken_is;
      }

  pub Follows-send :
      (status : ErrorCode) (bytes : List ℕ) (s : St (Os.World A))
      → Seen i (Offered ch l.sender bytes status) s
      → Follows i j ch l₀ (record n { sender = s; sent = add_sent status bytes n.sent })
  Follows-send status bytes s seen = elim seen.holds [
    | inl (h, refused) ↦
        rw refused (same_sender s (record { con = seen.con; at = seen.at; holds = h }))
    | inr e ↦ record {
      now = after_enqueue l e.pkg (enqueue l.sender e.pkg);
      reached = then_step _ _ _ r (Protocol.send l e.pkg e.seq_is);
      simulates =
          Simulates-sender sim s (enqueue l.sender e.pkg).1 n.datagrams l.datagrams
            (add_sent status bytes n.sent) _
            (record { con = seen.con; at = seen.at; holds = e.holds })
            (enqueue-is_reliable l.sender e.pkg ∙ sim.sender_reliable) sim.datagrams_are
            (ap (λ st. add_sent st bytes n.sent) e.status_is
              ∙ add_sent-with_sent (is_success (enqueue l.sender e.pkg).0) bytes (message e.pkg)
                  n.sent l.sent e.carries sim.sent_is);
    }
  ]

  pub Follows-transmit :
      (o : Option Pkg) (s : St (Os.World A))
      → Seen i (Handed o ch l.sender) s
      → Follows i j ch l₀ (record n { sender = s; datagrams = add_datagram o n.datagrams })
  Follows-transmit none s seen = same_sender s seen
  Follows-transmit (some sealed) s seen =
      let (p, head, sealed_is, again) = seen.holds in
      record {
        now = after_transmit l p again.time again.count;
        reached = then_step _ _ _ r (Protocol.transmit l p again.time again.count head);
        simulates =
            Simulates-sender sim s _ (sealed ∷ n.datagrams) (with_checksum p ∷ l.datagrams) n.sent
              l.sent (record { con = seen.con; at = seen.at; holds = again.holds })
              sim.sender_reliable (rw (sealed_is, sim.datagrams_are) refl) sim.sent_is;
      }

  pub Follows-ack_arrive :
      (k a : ℕ) (s : St (Os.World A))
      → get_elem? n.acks k ≡ some a
      → Seen i (λ d. HasChannel d ch l.sender ⊎ HasChannel d ch (acknowledge l.sender a)) s
      → Follows i j ch l₀ (record n { sender = s })
  Follows-ack_arrive k a s there seen = elim seen.holds [
    | inl h ↦ same_sender s (record { con = seen.con; at = seen.at; holds = h })
    | inr h ↦ record {
      now = record l { sender = acknowledge l.sender a };
      reached =
          then_step _ _ _ r
            (Protocol.ack_arrives l k a (ap (λ xs. get_elem? xs k) (sym sim.acks_are) ∙ there));
      simulates =
          Simulates-sender sim s (acknowledge l.sender a) n.datagrams l.datagrams n.sent l.sent
            (record { con = seen.con; at = seen.at; holds = h })
            (acknowledge-is_reliable l.sender a ∙ sim.sender_reliable) sim.datagrams_are
            sim.sent_is;
    }
  ]

  pub Follows-take_message :
      (answer : ErrorCode × Option (List ℕ)) (t : St (Os.World B))
      → Seen j (Polled ch l.receiver answer) t
      → Follows i j ch l₀ (record n { receiver = t; taken = add_taken answer n.taken })
  Follows-take_message answer t seen = elim seen.holds [
    | inl (h, nothing) ↦
        rw (add_taken-nothing answer n.taken nothing)
          (same_receiver t (record { con = seen.con; at = seen.at; holds = h }))
    | inr e ↦ record {
      now = after_popdata l e.pkg;
      reached = then_step _ _ _ r (Protocol.popdata l e.pkg e.head);
      simulates =
          Simulates-receiver sim t _ n.acks l.acks (add_taken answer n.taken) _
            (record { con = seen.con; at = seen.at; holds = e.holds }) sim.receiver_reliable
            sim.acks_are
            (ap (λ a. add_taken a n.taken) e.answer_is
              ∙ add_sent-with_sent true (bytes_of (message e.pkg)) (message e.pkg) n.taken l.taken
                  refl sim.taken_is);
    }
  ]

  -- What the verdict makes of the receiver's channel and of the acknowledgments.
  Follows-Judged :
      (v : Verdict) (q answer : Pkg) (t : St (Os.World B))
      → Protocol.Step l (after_data l q v)
      → q.header.ctrl_flags ≡ flag_data
      → Seen j (Judged v ch l.receiver q answer) t
      → Follows i j ch l₀ (record n { receiver = t; acks = add_ack answer n.acks })
  Follows-Judged old q answer t step is_data seen = record {
    now = after_data l q old;
    reached = then_step _ _ _ r step;
    simulates =
        Simulates-receiver sim t l.receiver (add_ack answer n.acks) (q.header.seq ∷ l.acks) n.taken
          l.taken (record { con = seen.con; at = seen.at; holds = (seen.holds).0 })
          sim.receiver_reliable
          (add_ack-Acks q.header.seq answer n.acks (seen.holds).1
            ∙ ap (λ xs. q.header.seq ∷ xs) sim.acks_are)
          sim.taken_is;
  }
  Follows-Judged future q answer t step is_data seen =
      rw (add_ack-data q answer n.acks is_data (seen.holds).1)
        (same_receiver t (record { con = seen.con; at = seen.at; holds = (seen.holds).0 }))
  Follows-Judged deliver q answer t step is_data seen = record {
    now = after_data l q deliver;
    reached = then_step _ _ _ r step;
    simulates =
        Simulates-receiver sim t (take_in l.receiver q) (add_ack answer n.acks)
          (q.header.seq ∷ l.acks) n.taken l.taken
          (record { con = seen.con; at = seen.at; holds = (seen.holds).0 })
          (take_in-is_reliable l.receiver q ∙ sim.receiver_reliable)
          (add_ack-Acks q.header.seq answer n.acks (seen.holds).1
            ∙ ap (λ xs. q.header.seq ∷ xs) sim.acks_are)
          sim.taken_is;
  }

  pub Follows-arrive :
      (k : ℕ) (p q answer : Pkg) (t : St (Os.World B))
      → get_elem? n.datagrams k ≡ some p
      → message q ≡ message p
      → q.header.ctrl_flags ≡ flag_data
      → l.receiver.r_queue.length < l.receiver.r_queue.capacity
      → Seen j (Received ch l.receiver q answer) t
      → Follows i j ch l₀ (record n { receiver = t; acks = add_ack answer n.acks })
  Follows-arrive k p q answer t there same is_data room seen = elim seen.holds [
    | inl (h, untouched) ↦
        rw (add_ack-data q answer n.acks is_data untouched)
          (same_receiver t (record { con = seen.con; at = seen.at; holds = h }))
    | inr judged ↦
        Follows-Judged (judge l.receiver q.header.seq) q answer t
          (Protocol.arrive l k p q (ap (λ ds. get_elem? ds k) (sym sim.datagrams_are) ∙ there) same
            room)
          is_data (record { con = seen.con; at = seen.at; holds = judged })
  ]
