-- ===== src/Os.antt =====
-- What the library takes from outside: the operating system's sockets and clock, the allocator
-- and the logger of the configuration. They act on a world of which nothing else is known.
pub mod Benign
pub mod Books
use libgilberta.Base.{ℕ, List, Option, Bool}
use libgilberta.State.{Addr}

-- `GLBLogLevel`.
pub data LogLevel : Type 0 where
  info warn error debug : LogLevel

-- The messages, with the values that are printed into them.
pub data Message : Type 0 where
  invalid_queue_arguments no_memory_for_queue : Message
  no_socket no_nonblocking_mode binding no_binding context_created context_destroyed : Message
  invalid_packet invalid_address connection_desync migrated : Message
  old_packet desync : ℕ → ℕ → ℕ → Message

-- What `recvfrom` returns on a non-blocking socket: EAGAIN or EWOULDBLOCK, another error, or a
-- datagram and its sender.
pub data Received : Type 0 where
  would_block failed : Received
  datagram : List ℕ → Addr → Received

-- `struct timespec` of the monotonic clock.
pub record Timespec : Type 0 where
  pub tv_sec : ℕ
  pub tv_nsec : ℕ

pub record Os : Type 1 where
  pub World : Type 0
  pub recvfrom : World → Received × World
  -- The number of bytes sent, `none` for an error.
  pub sendto : World → List ℕ → Addr → Option ℕ × World
  pub clock_gettime : World → Timespec × World
  -- The address of the block, `none` for NULL.
  pub malloc : World → ℕ → Option ℕ × World
  pub free : World → ℕ → World
  pub log : World → LogLevel → Message → World
  pub socket : World → Option ℕ × World
  -- `fcntl` with F_GETFL and F_SETFL; whether both succeed.
  pub set_nonblocking : World → ℕ → Bool × World
  pub bind : World → ℕ → Addr → Bool × World
  pub close : World → ℕ → World
  pub inet_pton : List ℕ → Option ℕ
  pub inet_ntop : ℕ → List ℕ
  pub htons : ℕ → ℕ
  pub ntohs : ℕ → ℕ
