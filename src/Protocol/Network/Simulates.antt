-- ===== src/Protocol/Network/Simulates.antt =====
-- The calls of both ends on their contexts (src/libgilberta/gilberta.c) are steps of the channel's link.
use libgilberta.Base.{
  ℕ, ◌≡◌, refl, sym, ap, ◌∙◌, subst, List, [], ◌∷◌, ◌++◌, map, Option, some, none, Bool, true,
  false, inl, inr, get_elem?, arith, Bool-cases, if◌then◌else◌, ◌==◌,
}
use libgilberta.Base.Segments.{map-append}
use libgilberta.Status.{ErrorCode}
use libgilberta.Queue.Slots
use libgilberta.Packet.{Pkg, flag_data}
use libgilberta.State.{Conn, Channel}
use libgilberta.Os.{Os}
use libgilberta.Effect.{St, Run, ok}
use libgilberta.Tick.Common.{is_success, is_reliable}
use libgilberta.Tick.Data.{take_in, acknowledge}
use libgilberta.Api.{enqueue, is_queue_full}
use libgilberta.View.{Ends, Seen}
use libgilberta.View.Slot.{HasChannel}
use libgilberta.View.Data.{Acks}
use libgilberta.Protocol.{Link, Message, with_sent}
use libgilberta.Protocol.Network.{Net, Watched, add_ack, add_taken}

-- The bytes of a message, without its number.
abbrev pub bytes_of : Message → List ℕ
bytes_of m = m.1

-- The link is what the two contexts make of the channel, on which nothing is unreliable.
pub record Simulates {A B : Os} (i j ch : ℕ) (n : Net A B) (l : Link) : Type 0 where
  pub at_sender : Watched n.sender i ch l.sender
  pub at_receiver : Watched n.receiver j ch l.receiver
  pub sender_reliable : is_reliable l.sender ≡ true
  pub receiver_reliable : is_reliable l.receiver ≡ true
  pub datagrams_are : n.datagrams ≡ l.datagrams
  pub acks_are : n.acks ≡ l.acks
  pub sent_is : n.sent ≡ map bytes_of l.sent
  pub taken_is : n.taken ≡ map bytes_of l.taken

-- The same channel, seen twice.
pub Watched-unique :
    {W : Type 0} {s : St W} {i ch : ℕ} {x y : Channel} → Watched s i ch x → Watched s i ch y → x ≡ y
Watched-unique {s = s} {i} {ch} v w =
    some_injective (sym (v.has).at ∙ ap (λ cs. get_elem? cs.items ch) same_channels ∙ (w.has).at)
  where
    some_injective : {A : Type 0} {a b : A} → some a ≡ some b → a ≡ b
    some_injective e = ground arith

    same_channels : (v.has).chans ≡ (w.has).chans
    same_channels = some_injective (
        sym (v.has).has
        ∙ ap (λ (c : Conn). c.channels) (some_injective (sym v.at ∙ w.at))
        ∙ (w.has).has)

pub outcome :
    {W A : Type 0} (Q : A → St W → Type 0) (r : Run W A) (a : A) (t : St W)
    → r ≡ ok a t
    → Ends r Q
    → Q a t
outcome Q r a t e q = subst (λ x. Ends x Q) e q

pub enqueue-is_reliable : (x : Channel) (p : Pkg) → is_reliable (enqueue x p).1 ≡ is_reliable x
unfolding enqueue
enqueue-is_reliable x p = elim (Bool-cases (is_queue_full (Slots.push x.s_queue p).0)) [
  | inl full ↦ rw full refl
  | inr room ↦ rw room refl
]

pub acknowledge-is_reliable : (x : Channel) (a : ℕ) → is_reliable (acknowledge x a) ≡ is_reliable x
unfolding acknowledge
acknowledge-is_reliable x a = by_head (Slots.peek x.s_queue)
  where
    by_head :
        (o : Option Pkg)
        → is_reliable (elim o as (λ _. Channel) [
          | none ↦ x
          | some p ↦ if p.header.seq == a then record x { s_queue = (Slots.pop x.s_queue).2 } else x
        ])
          ≡ is_reliable x
    by_head none = refl
    by_head (some p) = elim (Bool-cases (p.header.seq == a)) [
      | inl named ↦ rw named refl
      | inr other ↦ rw other refl
    ]

pub take_in-is_reliable : (x : Channel) (p : Pkg) → is_reliable (take_in x p) ≡ is_reliable x
unfolding take_in
take_in-is_reliable x p = refl

-- The two lists of what was accepted stay in step.
pub add_sent-with_sent :
    (b : Bool) (bytes : List ℕ) (m : Message) (xs : List (List ℕ)) (ms : List Message)
    → bytes_of m ≡ bytes
    → xs ≡ map bytes_of ms
    → (if b then xs ++ bytes ∷ [] else xs) ≡ map bytes_of (with_sent b m ms)
add_sent-with_sent true bytes m xs ms same e =
    rw (e, sym same) (sym (map-append bytes_of ms (m ∷ [])))
add_sent-with_sent false bytes m xs ms same e = e

pub add_taken-nothing :
    (answer : ErrorCode × Option (List ℕ)) (xs : List (List ℕ))
    → is_success answer.0 ≡ false
    → add_taken answer xs ≡ xs
add_taken-nothing (status, none) xs e = refl
add_taken-nothing (status, some bytes) xs e = rw e refl

pub add_ack-Acks :
    (a : ℕ) (answer : Pkg) (acks : List ℕ) → Acks a answer → add_ack answer acks ≡ a ∷ acks
add_ack-Acks a answer acks e = rw (e.flags_are, e.ack_is) refl

pub add_ack-data :
    (pkg answer : Pkg) (acks : List ℕ)
    → pkg.header.ctrl_flags ≡ flag_data
    → answer ≡ pkg
    → add_ack answer acks ≡ acks
add_ack-data pkg answer acks is_data same = rw (same, is_data) refl

-- A step at the sender changes the end, what was put on the wire, and what was accepted.
pub Simulates-sender :
    {A B : Os} {i j ch : ℕ} {n : Net A B} {l : Link}
    → Simulates i j ch n l
    → (s : St (Os.World A)) (y : Channel) (ds ds' : List Pkg) (xs : List (List ℕ))
      (ms : List Message)
    → Seen i (λ d. HasChannel d ch y) s
    → is_reliable y ≡ true
    → ds ≡ ds'
    → xs ≡ map bytes_of ms
    → Simulates i j ch
        (record n { sender = s; datagrams = ds; sent = xs })
        (record l { sender = y; datagrams = ds'; sent = ms })
Simulates-sender sim s y ds ds' xs ms seen reliable wire accepted = record {
  at_sender = record { con = seen.con; at = seen.at; has = seen.holds };
  at_receiver = sim.at_receiver;
  sender_reliable = reliable;
  receiver_reliable = sim.receiver_reliable;
  datagrams_are = wire;
  acks_are = sim.acks_are;
  sent_is = accepted;
  taken_is = sim.taken_is;
}

-- A step at the receiver changes the end, the acknowledgments, and what was taken.
pub Simulates-receiver :
    {A B : Os} {i j ch : ℕ} {n : Net A B} {l : Link}
    → Simulates i j ch n l
    → (t : St (Os.World B)) (y : Channel) (ks ks' : List ℕ) (xs : List (List ℕ)) (ms : List Message)
    → Seen j (λ d. HasChannel d ch y) t
    → is_reliable y ≡ true
    → ks ≡ ks'
    → xs ≡ map bytes_of ms
    → Simulates i j ch
        (record n { receiver = t; acks = ks; taken = xs })
        (record l { receiver = y; acks = ks'; taken = ms })
Simulates-receiver sim t y ks ks' xs ms seen reliable answers given = record {
  at_sender = sim.at_sender;
  at_receiver = record { con = seen.con; at = seen.at; has = seen.holds };
  sender_reliable = sim.sender_reliable;
  receiver_reliable = reliable;
  datagrams_are = sim.datagrams_are;
  acks_are = answers;
  sent_is = sim.sent_is;
  taken_is = given;
}
