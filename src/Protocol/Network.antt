-- ===== src/Protocol/Network.antt =====
-- Two programs that use src/libgilberta and the network between them: the steps are whole calls of
-- glb_send and glb_popdata and whole branches of glb_tick, on the contexts of both ends. One direction
-- of one channel is watched: channel `ch` of connection `i` at the sender and of `j` at the receiver.
-- The network may lose, repeat and reorder. Whatever else happens at an end, to other channels,
-- connections, timers or the outside, or in the other direction of the channel, is any change that
-- leaves the watched half of the channel alone.
pub mod Simulates
pub mod Follows
pub mod Delivers
pub mod Connected
use libgilberta.Base.{
  ℕ, ◌<◌, ◌≡◌, List, [], ◌∷◌, ◌++◌, Option, some, none, take, length, get_elem?, ◌==◌,
  if◌then◌else◌,
}
use libgilberta.Status.{ErrorCode}
use libgilberta.Packet.{Pkg, mtu, flag_data, flag_data_ack}
use libgilberta.State.{Conn, Addr, Channel}
use libgilberta.Os.{Os}
use libgilberta.Effect.{St, ok}
use libgilberta.Context.{glbctx_findconn}
use libgilberta.Tick.Common.{is_success, is_reliable}
use libgilberta.Tick.Data.{on_data, on_data_ack}
use libgilberta.Tick.Timers.{transmit_channel}
use libgilberta.Api.{SendInfo, RecvInfo, glb_send, glb_popdata}
use libgilberta.View.Slot.{HasChannel}
use libgilberta.View.Transmit.{handed}
use libgilberta.Protocol.{message, SameSending, SameReceiving}

-- Both ends, the DATA packets and the numbers of the acknowledgments that were ever sent, the bytes that
-- glb_send accepted and those that glb_popdata gave.
pub record Net (A B : Os) : Type 0 where
  pub sender : St (Os.World A)
  pub receiver : St (Os.World B)
  pub datagrams : List Pkg
  pub acks : List ℕ
  pub sent : List (List ℕ)
  pub taken : List (List ℕ)

abbrev pub add_datagram : Option Pkg → List Pkg → List Pkg
add_datagram none ps = ps
add_datagram (some p) ps = p ∷ ps

-- The answer that a DATA packet leaves in the buffer: an acknowledgment, or the packet itself.
abbrev pub add_ack : Pkg → List ℕ → List ℕ
add_ack answer acks =
    if answer.header.ctrl_flags == flag_data_ack then answer.header.ack ∷ acks else acks

abbrev pub add_sent : ErrorCode → List ℕ → List (List ℕ) → List (List ℕ)
add_sent status bytes sent = if is_success status then sent ++ bytes ∷ [] else sent

abbrev pub add_taken : ErrorCode × Option (List ℕ) → List (List ℕ) → List (List ℕ)
add_taken (status, none) taken = taken
add_taken (status, some bytes) taken = if is_success status then taken ++ bytes ∷ [] else taken

-- Connection `i` has the channel `x` under `ch`.
pub record Watched {W : Type 0} (s : St W) (i ch : ℕ) (x : Channel) : Type 0 where
  pub con : Conn
  pub at : get_elem? s.ctx.connections i ≡ some con
  pub has : HasChannel con ch x

-- One call. What glb_send copies is the buffer that the caller gave, and the packet in which it builds
-- the message has room for the largest one.
pub data Move {A B : Os} (i j ch : ℕ) : Net A B → Net A B → Type 0 where
  send :
      (n : Net A B) (local : Pkg) (info : SendInfo) (source : List ℕ) (status : ErrorCode)
      (s : St (Os.World A))
      → length local.payload ≡ mtu
      → info.con ≡ some i
      → info.bytes ≡ some source
      → info.channel_id ≡ ch
      → glb_send A local (some info) n.sender ≡ ok status s
      → Move i j ch n
          (record n { sender = s; sent = add_sent status (take info.len source) n.sent })
  transmit :
      (n : Net A B) (x : Channel) (s : St (Os.World A))
      → Watched n.sender i ch x
      → transmit_channel A i ch n.sender ≡ ok tt s
      → Move i j ch n
          (record n { sender = s; datagrams = add_datagram (handed A x n.sender) n.datagrams })
  arrive :
      (n : Net A B) (k : ℕ) (p q answer : Pkg) (from_addr : Addr) (x : Channel)
      (r : St (Os.World B))
      → get_elem? n.datagrams k ≡ some p
      → message q ≡ message p
      → q.header.ctrl_flags ≡ flag_data
      → q.header.channel_id ≡ ch
      → glbctx_findconn n.receiver.ctx.connections q.header.client_gen q.header.client_id ≡ some j
      → Watched n.receiver j ch x
      → x.r_queue.length < x.r_queue.capacity
      → on_data B q from_addr n.receiver ≡ ok answer r
      → Move i j ch n (record n { receiver = r; acks = add_ack answer n.acks })
  ack_arrive :
      (n : Net A B) (k : ℕ) (q answer : Pkg) (s : St (Os.World A))
      → get_elem? n.acks k ≡ some q.header.ack
      → q.header.channel_id ≡ ch
      → glbctx_findconn n.sender.ctx.connections q.header.client_gen q.header.client_id ≡ some i
      → on_data_ack q n.sender ≡ ok answer s
      → Move i j ch n (record n { sender = s })
  take_message :
      (n : Net A B) (info : RecvInfo) (answer : ErrorCode × Option (List ℕ)) (r : St (Os.World B))
      → info.con ≡ some j
      → info.channel_id ≡ ch
      → glb_popdata (some info) n.receiver ≡ ok answer r
      → Move i j ch n (record n { receiver = r; taken = add_taken answer n.taken })
  else_sender :
      (n : Net A B) (x y : Channel) (s : St (Os.World A))
      → Watched n.sender i ch x
      → SameSending x y
      → Watched s i ch y
      → Move i j ch n (record n { sender = s })
  else_receiver :
      (n : Net A B) (x y : Channel) (r : St (Os.World B))
      → Watched n.receiver j ch x
      → SameReceiving x y
      → Watched r j ch y
      → Move i j ch n (record n { receiver = r })

pub data Moves {A B : Os} (i j ch : ℕ) : Net A B → Net A B → Type 0 where
  still : (n : Net A B) → Moves i j ch n n
  further : (n m o : Net A B) → Moves i j ch n m → Move i j ch m o → Moves i j ch n o

-- Two ends between which nothing was sent on the channel.
abbrev pub quiet : (A B : Os) → St (Os.World A) → St (Os.World B) → Net A B
quiet A B s r = record {
  sender = s;
  receiver = r;
  datagrams = [];
  acks = [];
  sent = [];
  taken = [];
}
