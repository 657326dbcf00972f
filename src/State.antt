-- ===== src/State.antt =====
-- The structures of src/libgilberta/glbio.h, context.h and include/libgilberta.h that hold the
-- state. A pointer to a connection is its index in the context's array; a pointer that may be NULL
-- is an option; padding is left out.
use libgilberta.Base.{ℕ, List, Option}
use libgilberta.Status.{ErrorCode, DisconnectReason}
use libgilberta.Packet.{ConId, Pkg}
use libgilberta.Queue.Slots.{Queue}

-- `glbaddr_t`, a `sockaddr_in`: the port and the address in network order.
pub record Addr : Type 0 where
  pub sin_family : ℕ
  pub sin_port : ℕ
  pub s_addr : ℕ

-- `GLBConnState`.
pub data ConnState : Type 0 where
  closed established syn_sent syn_rcvd fin_sent : ConnState

-- `GLB_CHANNEL_FLAG_RELIABLE`, `GLB_FLAG_BIND_PORT`.
abbrev pub channel_flag_reliable : ℕ
channel_flag_reliable = 0x01

abbrev pub flag_bind_port : ℕ
flag_bind_port = 0x01

-- `glbchan_t`.
pub record ChanConfig : Type 0 where
  pub priority : ℕ
  pub flags : ℕ

-- `glbchannel_t`.
pub record Channel : Type 0 where
  pub s_queue : Queue Pkg
  pub r_queue : Queue Pkg
  pub seq : ℕ
  pub ack : ℕ
  pub flags : ℕ
  pub priority : ℕ

-- The array that `channels` points at: its address and its elements.
pub record Channels : Type 0 where
  pub block : ℕ
  pub items : List Channel

-- `glbconn_t`.
pub record Conn : Type 0 where
  pub peer_addr : Addr
  pub conn_id : ConId
  pub state : ConnState
  pub retry : ℕ
  pub keepalive_retry : ℕ
  pub loss_count : ℕ
  pub desync_count : ℕ
  pub rtt : ℕ
  pub seq : ℕ
  pub ack : ℕ
  pub channels : Option Channels
  pub time : ℕ
  pub keepalive : ℕ

-- `glbevent_t`: the type and its part of the union. The first number is the connection.
pub data Event : Type 0 where
  connect : ℕ → Event
  disconnect : ℕ → DisconnectReason → Event
  receive : ℕ → ℕ → Event
  migration : ℕ → Event
  stalled : ℕ → ℕ → Event

-- `glbctx_t`. `block` is its address; `sock` is `none` for SOCKET_NULL_HANDLE; `inet_addr` is the
-- text in the array, without its terminator.
pub record Ctx : Type 0 where
  pub block : ℕ
  pub sock : Option ℕ
  pub eventqueue : Queue Event
  pub connections : List Conn
  pub connection_count : ℕ
  pub error : ErrorCode
  pub flags : ℕ
  pub channel_count : ℕ
  pub client_gen : ℕ
  pub client_id : ℕ
  pub recv_limit : ℕ
  pub send_limit : ℕ
  pub inet_port : ℕ
  pub inet_addr : List ℕ
  pub channel_configs : List ChanConfig
