-- ===== src/Tests/Links.antt =====
-- Runs of a reliable channel with queues of two packets.
use libgilberta.Base.{◌≡◌, refl, [], ◌∷◌, ◌++◌, map, arith}
use libgilberta.Queue.Slots
use libgilberta.Queue.Slots.Laws.{IsValid, contents, push-IsValid}
use libgilberta.Queue.Slots.Cases.{init-IsValid, contents-init}
use libgilberta.Packet.{Pkg}
use libgilberta.State.{Channel}
use libgilberta.Io.{with_checksum}
use libgilberta.Tick.Data.{judge, acknowledge}
use libgilberta.Tick.Receive.{zero_pkg}
use libgilberta.Api.{enqueue}
use libgilberta.Protocol.{
  Link, message, send, transmit, arrive, ack_arrives, Reach, here, then_step, after_enqueue,
  after_transmit, after_data,
}
use libgilberta.Protocol.Delivery.{IsFresh, Guarantee, delivers_in_order, all_delivered}

abbrev pub channel : Channel
channel = record {
  s_queue = Slots.init 4096 2;
  r_queue = Slots.init 8192 2;
  seq = 7;
  ack = 7;
  flags = 1;
  priority = 0;
}

abbrev fresh : Link
fresh = record {
  sender = channel;
  receiver = channel;
  datagrams = [];
  acks = [];
  sent = [];
  taken = [];
}

pub fresh-IsFresh : IsFresh fresh
fresh-IsFresh = record {
  s_valid = init-IsValid 4096 2 (omega arith) (omega arith);
  r_valid = init-IsValid 8192 2 (omega arith) (omega arith);
  s_empty = contents-init 4096 2;
  r_empty = contents-init 8192 2;
  reliable = refl;
  in_step = refl;
  no_datagrams = refl;
  no_acks = refl;
  none_sent = refl;
  none_taken = refl;
}

-- A packet of two bytes with the channel's first number.
abbrev pub hello : Pkg
hello = record zero_pkg {
  header = record (zero_pkg.header) { payload_len = 2; seq = 7 };
  payload = 104 ∷ 105 ∷ [];
}

abbrev queued : Link
queued = after_enqueue fresh hello (enqueue channel hello)

abbrev resent : Link
resent = after_transmit queued hello 50 1

abbrev received : Link
received = after_data resent (with_checksum hello) (judge resent.receiver 7)

abbrev acknowledged : Link
acknowledged = record received { sender = acknowledge received.sender 7 }

queued-Reach : Reach fresh queued
queued-Reach = then_step fresh fresh queued (here fresh) (send fresh hello refl)

received-Reach : Reach fresh received
unfolding enqueue Slots.push Slots.peek Slots.init Slots.slot
received-Reach =
    then_step fresh resent received
      (then_step fresh queued resent queued-Reach (transmit queued hello 50 1 refl))
      (arrive resent 0 (with_checksum hello) (with_checksum hello) refl refl (omega arith))

acknowledged-Reach : Reach fresh acknowledged
unfolding enqueue Slots.push Slots.peek Slots.init Slots.slot judge
acknowledged-Reach =
    then_step fresh received acknowledged received-Reach (ack_arrives received 0 7 refl)

delivers_in_order_example : Guarantee received
unfolding enqueue Slots.push judge Slots.init
delivers_in_order_example =
    delivers_in_order fresh received fresh-IsFresh received-Reach (omega arith)

all_delivered_example :
    acknowledged.taken ++ map message (contents acknowledged.receiver.r_queue) ≡ acknowledged.sent
unfolding enqueue Slots.push Slots.peek Slots.pop Slots.poke Slots.init Slots.slot judge acknowledge
all_delivered_example =
    all_delivered fresh acknowledged fresh-IsFresh acknowledged-Reach (omega arith) refl

-- A channel whose receive queue has room for one packet and holds one.
abbrev pub full_channel : Channel
full_channel = record channel { r_queue = (Slots.push (Slots.init 8192 1) hello).1; ack = 8 }

pub full-IsValid : IsValid full_channel.r_queue
full-IsValid =
    push-IsValid (Slots.init 8192 1) (init-IsValid 8192 1 (omega arith) (omega arith)) hello

abbrev pub second : Pkg
second = record hello { header = record (hello.header) { seq = 8 } }
