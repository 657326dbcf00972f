-- ===== src/Protocol/Window.antt =====
-- The invariant of a reliable channel between two peers (src/libgilberta/gilberta.c): how far the
-- sender and the receiver are apart.
use libgilberta.Base.{
  ℕ, ◌+◌, ◌≤◌, ◌<◌, ◌≡◌, ◌==◌, ap, not, bit_and, List, ◌++◌, some, true, map, length, get_elem?,
  take, drop, All,
}
use libgilberta.Queue.Slots.Laws.{contents, IsValid}
use libgilberta.Packet.{Pkg}
use libgilberta.State.{Channel, channel_flag_reliable}
use libgilberta.Tick.Common.{is_reliable}
use libgilberta.Protocol.{Link, Message, message}

pub is_reliable_of_flags : (x y : Channel) → y.flags ≡ x.flags → is_reliable y ≡ is_reliable x
is_reliable_of_flags x y same = ap (λ flags. not (bit_and flags channel_flag_reliable == 0)) same

-- A datagram carries a message that was sent, number `acked` or one before it.
abbrev pub OnWire : List Message → ℕ → Pkg → Type 0
OnWire sent acked p = (i : ℕ) × (i ≤ acked) × (get_elem? sent i ≡ some (message p))

-- An acknowledgment names one of the first `received` messages.
abbrev pub Named : ℕ → ℕ → ℕ → Type 0
Named base received a = (j : ℕ) × (j < received) × (a ≡ base + j)

-- `acked` messages have left the send queue, `received` ones have reached the receive queue.
pub record Holds (base : ℕ) (l : Link) : Type 0 where
  pub acked : ℕ
  pub received : ℕ
  pub acked_le : acked ≤ received
  pub one_ahead : received ≤ acked + 1
  pub received_le : received ≤ length l.sent
  pub s_valid : IsValid l.sender.s_queue
  pub r_valid : IsValid l.receiver.r_queue
  pub reliable : is_reliable l.receiver ≡ true
  pub next : l.sender.seq ≡ base + length l.sent
  pub expected : l.receiver.ack ≡ base + received
  pub numbered : (i : ℕ) (m : Message) → get_elem? l.sent i ≡ some m → m.0 ≡ base + i
  pub waiting : map message (contents l.sender.s_queue) ≡ drop acked l.sent
  pub delivered : l.taken ++ map message (contents l.receiver.r_queue) ≡ take received l.sent
  pub wire : All (OnWire l.sent acked) l.datagrams
  pub answers : All (Named base received) l.acks
