-- ===== src/Os/Books.antt =====
-- An outside that keeps books: how many blocks are held at each address, and how many sockets are
-- open under each number.
use libgilberta.Base.{ℕ, ◌+◌, ◌-◌, ◌≡◌, Option, none, some, if◌then◌else◌, ◌==◌}
use libgilberta.State.{Addr}
use libgilberta.Os.{Os, LogLevel, Message}

-- 1 for the thing itself, 0 for another.
abbrev pub one_at : ℕ → ℕ → ℕ
one_at b a = if b == a then 1 else 0

abbrev pub one_of : Option ℕ → ℕ → ℕ
one_of none a = 0
one_of (some b) a = one_at b a

pub record Books (os : Os) : Type 0 where
  pub held : os.World → ℕ → ℕ
  pub open_ : os.World → ℕ → ℕ
  pub on_malloc :
      (w : os.World) (size a : ℕ)
      → (held (os.malloc w size).1 a ≡ held w a + one_of (os.malloc w size).0 a)
        × (open_ (os.malloc w size).1 a ≡ open_ w a)
  pub on_free :
      (w : os.World) (block a : ℕ)
      → (held (os.free w block) a ≡ held w a - one_at block a)
        × (open_ (os.free w block) a ≡ open_ w a)
  pub on_log :
      (w : os.World) (level : LogLevel) (message : Message) (a : ℕ)
      → (held (os.log w level message) a ≡ held w a)
        × (open_ (os.log w level message) a ≡ open_ w a)
  pub on_socket :
      (w : os.World) (a : ℕ)
      → (held (os.socket w).1 a ≡ held w a)
        × (open_ (os.socket w).1 a ≡ open_ w a + one_of (os.socket w).0 a)
  pub on_set_nonblocking :
      (w : os.World) (s a : ℕ)
      → (held (os.set_nonblocking w s).1 a ≡ held w a)
        × (open_ (os.set_nonblocking w s).1 a ≡ open_ w a)
  pub on_bind :
      (w : os.World) (s : ℕ) (addr : Addr) (a : ℕ)
      → (held (os.bind w s addr).1 a ≡ held w a) × (open_ (os.bind w s addr).1 a ≡ open_ w a)
  pub on_close :
      (w : os.World) (s a : ℕ)
      → (held (os.close w s) a ≡ held w a) × (open_ (os.close w s) a ≡ open_ w a - one_at s a)
