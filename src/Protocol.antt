-- ===== src/Protocol.antt =====
-- A reliable channel between two peers: the sender's end, the receiver's end and the datagrams that
-- were ever sent. The steps are those of src/libgilberta/gilberta.c on one channel: glb_send, the
-- retransmission loop, the DATA and DATA ACK branches of glb_tick, and glb_popdata. The network may
-- lose, repeat and reorder: a datagram that was sent stays, and arrives any number of times or never.
pub mod Window
pub mod Sender
pub mod Receiver
pub mod Delivery
pub mod Loss
pub mod Handshake
pub mod Teardown
pub mod Network
use libgilberta.Base.{
  ℕ, ◌<◌, ◌≡◌, List, [], ◌∷◌, ◌++◌, Option, none, some, take, get_elem?, Bool, true, false,
}
use libgilberta.Status.{ErrorCode, success}
use libgilberta.Queue.Slots
use libgilberta.Packet.{Pkg}
use libgilberta.State.{Channel}
use libgilberta.Io.{with_checksum}
use libgilberta.Tick.Common.{is_success}
use libgilberta.Tick.Data.{Verdict, old, future, deliver, judge, take_in, acknowledge}
use libgilberta.Api.{enqueue}

-- What the application gave: the sequence number it got, and the bytes.
abbrev pub Message : Type 0
Message = ℕ × List ℕ

abbrev pub message : Pkg → Message
message p = (p.header.seq, take p.header.payload_len p.payload)

-- `sent` and `taken` are the messages accepted by glb_send and those returned by glb_popdata.
pub record Link : Type 0 where
  pub sender : Channel
  pub receiver : Channel
  pub datagrams : List Pkg
  pub acks : List ℕ
  pub sent : List Message
  pub taken : List Message

-- glb_send: what is refused is not counted as sent.
abbrev pub with_sent : Bool → Message → List Message → List Message
with_sent true m sent = sent ++ m ∷ []
with_sent false m sent = sent

abbrev pub after_enqueue : Link → Pkg → ErrorCode × Channel → Link
after_enqueue l p (status, c) = record l {
  sender = c;
  sent = with_sent (is_success status) (message p) l.sent;
}

-- The DATA branch. A packet that is delivered or old is acknowledged with its own number.
abbrev pub after_data : Link → Pkg → Verdict → Link
after_data l p old = record l { acks = p.header.seq ∷ l.acks }
after_data l p future = l
after_data l p deliver = record l { receiver = take_in l.receiver p; acks = p.header.seq ∷ l.acks }

-- The retransmission of the packet at the head of the send queue, which is sealed with its checksum
-- and rewritten in place with its new timer and count.
abbrev pub after_transmit : Link → Pkg → ℕ → ℕ → Link
after_transmit l p time count =
    let sealed = with_checksum p in
    record l {
      sender = record (l.sender) {
        s_queue =
            Slots.poke l.sender.s_queue
              (record sealed { timestamp = time; retransmit_count = count });
      };
      datagrams = sealed ∷ l.datagrams;
    }

abbrev pub after_popdata : Link → Pkg → Link
after_popdata l p = record l {
  receiver = record (l.receiver) { r_queue = (Slots.pop l.receiver.r_queue).2 };
  taken = l.taken ++ message p ∷ [];
}

-- The halves of a channel that sends and that receives.
pub record SameSending (x y : Channel) : Type 0 where
  pub s_queue : y.s_queue ≡ x.s_queue
  pub seq : y.seq ≡ x.seq
  pub flags : y.flags ≡ x.flags

pub record SameReceiving (x y : Channel) : Type 0 where
  pub r_queue : y.r_queue ≡ x.r_queue
  pub ack : y.ack ≡ x.ack
  pub flags : y.flags ≡ x.flags

-- The receive queue has room whenever a datagram arrives: the application keeps up. What the receiver's
-- buffer holds besides the message may be anything. The other direction of the channel changes the
-- other half of an end.
pub data Step : Link → Link → Type 0 where
  send :
      (l : Link) (p : Pkg)
      → p.header.seq ≡ l.sender.seq
      → Step l (after_enqueue l p (enqueue l.sender p))
  transmit :
      (l : Link) (p : Pkg) (time count : ℕ)
      → Slots.peek l.sender.s_queue ≡ some p
      → Step l (after_transmit l p time count)
  arrive :
      (l : Link) (i : ℕ) (p q : Pkg)
      → get_elem? l.datagrams i ≡ some p
      → message q ≡ message p
      → l.receiver.r_queue.length < l.receiver.r_queue.capacity
      → Step l (after_data l q (judge l.receiver q.header.seq))
  ack_arrives :
      (l : Link) (i a : ℕ)
      → get_elem? l.acks i ≡ some a
      → Step l (record l { sender = acknowledge l.sender a })
  popdata :
      (l : Link) (p : Pkg) → Slots.peek l.receiver.r_queue ≡ some p → Step l (after_popdata l p)
  other_half_sender :
      (l : Link) (y : Channel) → SameSending l.sender y → Step l (record l { sender = y })
  other_half_receiver :
      (l : Link) (y : Channel) → SameReceiving l.receiver y → Step l (record l { receiver = y })

pub data Reach : Link → Link → Type 0 where
  here : (l : Link) → Reach l l
  then_step : (l m k : Link) → Reach l m → Step m k → Reach l k
