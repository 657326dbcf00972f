-- ===== src/Os/Benign.antt =====
-- What a theorem may ask of the outside: the allocator has memory, the socket holds finitely many
-- datagrams, and no other call makes them more.
use libgilberta.Base.{ℕ, ◌≤◌, ◌<◌, ◌≡◌, List, some, ◌⊎◌}
use libgilberta.State.{Addr}
use libgilberta.Os.{Os, would_block, LogLevel, Message}

pub record Benign (os : Os) : Type 0 where
  -- How many reads are left until the socket says that there is nothing.
  pub pending : os.World → ℕ
  pub on_recvfrom :
      (w : os.World) → ((os.recvfrom w).0 ≡ would_block) ⊎ (pending (os.recvfrom w).1 < pending w)
  pub on_would_block : (w : os.World) → pending (os.recvfrom w).1 ≤ pending w
  pub on_sendto :
      (w : os.World) (bytes : List ℕ) (addr : Addr) → pending (os.sendto w bytes addr).1 ≤ pending w
  pub on_clock_gettime : (w : os.World) → pending (os.clock_gettime w).1 ≤ pending w
  pub on_malloc : (w : os.World) (size : ℕ) → pending (os.malloc w size).1 ≤ pending w
  pub on_free : (w : os.World) (block : ℕ) → pending (os.free w block) ≤ pending w
  pub on_log :
      (w : os.World) (level : LogLevel) (message : Message)
      → pending (os.log w level message) ≤ pending w
  pub has_memory : (w : os.World) (size : ℕ) → (block : ℕ) × ((os.malloc w size).0 ≡ some block)
